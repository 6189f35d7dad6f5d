-- ===== src/Encrypt/Manifest/Escape.antt =====
-- src/encrypt.rs: what is written comes back through src/manifest.rs: the attribute values, which
-- the writer escapes, and the numbers.
use odf_crypto.Prelude.{
  ℕ, zero, suc, ◌+◌, ◌-◌, ◌*◌, ◌/◌, ◌%◌, ◌^◌, ◌≤◌, ◌<◌, true, false, ◌≡◌, refl, sym, ap, ◌∙◌, arith,
  Str, codes, str_eq, [], ◌∷◌, ◌++◌, if◌then◌else◌, ◌==◌, ltb, All, All-append, Bool-cases, inl,
  inr, digits, decimal_text, digit_char, subst, pos, negsuc, is_empty,
}
use mathlib.Core.List.{append-nil}
use odf_crypto.Manifest.Entity.{
  normalize_attr_value, normalize_from, normalize_char, normalize_text, expand_ref, expand_named,
  normalize_end, in_text,
}
use odf_crypto.Encrypt.MediaType.{is_line_space}
use odf_crypto.Manifest.LoInt.{parse_lo_int, parse_i32, parse_i64, as_i32}
use odf_crypto.Manifest.LoInt.Value.{IsDigit, value_from, parse_lo_int-digits}

-- The text that stands for a character of an attribute's value.
abbrev pub escaped_char : ℕ → Str
escaped_char c =
    if c == b'<'
    then codes "&lt;"
    else if c == b'>'
    then codes "&gt;"
    else if c == b'\''
    then codes "&apos;"
    else if c == b'&'
    then codes "&amp;"
    else if c == b'"'
    then codes "&quot;"
    else c ∷ []

unfoldable pub escaped : Str → Str
escaped [] = []
escaped (c ∷ s) = escaped_char c ++ escaped s

-- The character is not a tab, a line feed or a carriage return.
abbrev pub IsStable : ℕ → Type 0
IsStable c = is_line_space c ≡ false

-- A reference that stands for its character.
abbrev NamesChar : ℕ → Type 0
NamesChar c =
    (s : Str) → normalize_from in_text (escaped_char c ++ s) ≡ c ∷ normalize_from in_text s

named : (c d : ℕ) → (c == d) ≡ true → NamesChar d → NamesChar c
named c d e h = let same : c ≡ d = ground arith in subst NamesChar (sym same) h

normalize-plain :
    (c : ℕ) (s : Str)
    → IsStable c
    → (c == b'&') ≡ false
    → normalize_from in_text (c ∷ s) ≡ c ∷ normalize_from in_text s
unfolding is_line_space normalize_from normalize_char normalize_text
normalize-plain c s h e = ground arith

normalize-escaped_char : (c : ℕ) → IsStable c → NamesChar c
unfolding normalize_from normalize_char normalize_text expand_ref expand_named str_eq
normalize-escaped_char c h s = elim (Bool-cases (c == b'<')) [
  | inl e ↦ named c b'<' e (λ t. refl) s
  | inr lt ↦ elim (Bool-cases (c == b'>')) [
    | inl e ↦ named c b'>' e (λ t. refl) s
    | inr gt ↦ elim (Bool-cases (c == b'\'')) [
      | inl e ↦ named c b'\'' e (λ t. refl) s
      | inr apos ↦ elim (Bool-cases (c == b'&')) [
        | inl e ↦ named c b'&' e (λ t. refl) s
        | inr amp ↦ elim (Bool-cases (c == b'"')) [
          | inl e ↦ named c b'"' e (λ t. refl) s
          | inr quot ↦ rw (lt, gt, apos, amp, quot) (normalize-plain c s h amp)
        ]
      ]
    ]
  ]
]

-- The value of an attribute comes back as it was written.
pub normalize-escaped : (s : Str) → All IsStable s → normalize_attr_value (escaped s) ≡ s
unfolding normalize_attr_value escaped
normalize-escaped [] h = unfold normalize_from normalize_end in refl
normalize-escaped (c ∷ s) h =
    normalize-escaped_char c h.0 (escaped s) ∙ ap (λ t. c ∷ t) (normalize-escaped s h.1)

-- Decimal digits.
value_from-append :
    (n : ℕ) (s : Str) (c : ℕ) → value_from n (s ++ c ∷ []) ≡ value_from n s * 10 + (c - b'0')
value_from-append n [] c = refl
value_from-append n (d ∷ s) c = value_from-append (n * 10 + (d - b'0')) s c

digit_char-IsDigit : (d : ℕ) → d < 10 → IsDigit (digit_char d)
digit_char-IsDigit d h = ground arith

pub digits-digits : (fuel n : ℕ) → n ≤ fuel → All IsDigit (digits fuel 10 n)
unfolding digits
digits-digits zero n h = (digit_char-IsDigit n (omega arith), tt)
digits-digits (suc fuel) n h = elim (Bool-cases (ltb n 10)) [
  | inl small ↦ rw (small, digits) (digit_char-IsDigit n (ground arith), tt)
  | inr large ↦
      rw (large, digits)
        (All-append IsDigit _ _ (digits-digits fuel (n / 10) (ground arith))
          (digit_char-IsDigit (n % 10) (omega arith), tt))
]

digits-value : (fuel n : ℕ) → n ≤ fuel → value_from 0 (digits fuel 10 n) ≡ n
unfolding digits
digits-value zero n h = ground arith
digits-value (suc fuel) n h = elim (Bool-cases (ltb n 10)) [
  | inl small ↦ rw (small, digits) (ground arith)
  | inr large ↦
      rw (large, digits)
        (value_from-append 0 (digits fuel 10 (n / 10)) (digit_char (n % 10))
          ∙ ground (arith, digits-value fuel (n / 10) (ground arith)))
]

-- A number is not the empty text.
pub digits-cons : (fuel n : ℕ) → (c : ℕ) × (s : Str) × (digits fuel 10 n ≡ c ∷ s)
unfolding digits
digits-cons zero n = (digit_char n, [], refl)
digits-cons (suc fuel) n = elim (Bool-cases (ltb n 10)) [
  | inl small ↦ (b'0' + n, [], rw (small, digits) (ground arith))
  | inr large ↦
      let (c, s, e) = digits-cons fuel (n / 10) in
      (c, s ++ digit_char (n % 10) ∷ [], rw (large, e, digits) refl)
]

parse_digits :
    (max n : ℕ) (s : Str)
    → max < 2 ^ 64 - 1
    → n ≤ max
    → is_empty s ≡ false
    → All IsDigit s
    → value_from 0 s ≡ n
    → parse_lo_int s (negsuc max) max ≡ pos n
parse_digits max n [] small fits nonempty all value = absurd (cc)
parse_digits max n (c ∷ ds) small fits nonempty all value =
    subst (λ t. parse_lo_int t (negsuc max) max ≡ pos n) (append-nil (c ∷ ds))
      (parse_lo_int-digits max small [] false c ds [] tt all tt ∙ ground (arith, value))

digits-nonempty : (n : ℕ) → is_empty (decimal_text n) ≡ false
unfolding decimal_text
digits-nonempty n = let (c, s, e) = digits-cons n n in rw e refl

pub parse_i64-decimal_text : (n : ℕ) → n < 2 ^ 63 → parse_i64 (decimal_text n) ≡ pos n
unfolding parse_i64
parse_i64-decimal_text n h =
    parse_digits (2 ^ 63 - 1) n (decimal_text n) (omega arith) (omega arith) (digits-nonempty n)
      (unfold decimal_text in digits-digits n n (omega arith))
      (unfold decimal_text in digits-value n n (omega arith))

pub parse_i32-decimal_text : (n : ℕ) → n < 2 ^ 31 → parse_i32 (decimal_text n) ≡ pos n
unfolding parse_i32 as_i32
parse_i32-decimal_text n h =
    ap as_i32 (
      parse_digits (2 ^ 31 - 1) n (decimal_text n) (omega arith) (omega arith) (digits-nonempty n)
        (unfold decimal_text in digits-digits n n (omega arith))
        (unfold decimal_text in digits-value n n (omega arith)))
    ∙ ground arith
