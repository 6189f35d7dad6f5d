-- ===== src/Decrypt/Shape/Exact.antt =====
-- src/decrypt.rs: which rows pass before a key is derived, and what the refusals say.
use odf_crypto.Prelude.{
  ℕ, zero, suc, ◌-◌, ◌/◌, ◌%◌, ◌&&◌, ◌||◌, ◌+◌, ◌*◌, ◌≤◌, ℤ, pos, negsuc, Bool, true, not, [], ◌∷◌,
  ◌++◌, ◌≡◌, refl, sym, ap, ◌∙◌, arith, ◌↔◌, ◌⊎◌, inl, inr, Bytes, str_eq, str_eq_iff, in_range_ℤ,
  ltb, ◌==◌, length, length-append, take, drop, take-drop, is_ok, is_ok->>, is_ok-refuse_if,
  Refuses, Refuses->>=, Refuses-guard,
}
use odf_crypto.Types.{EntryEncryption, Cipher, aes_gcm_w3c, aes_cbc_w3c, blowfish_cfb8}
use odf_crypto.BadParameter.{Primitive, wide}
use odf_crypto.BadParameter.Honest.{DecryptHonest}
use odf_crypto.Decrypt.Shape.{
  cipher_accepts_key_len, is_aes_key_len, check_iv_len, screen_member, screen_shape, inflated_len,
  declared_size, Sizes, streamed, whole_buffer, declared,
}

-- A key length of AES.
abbrev pub IsAesKey : ℤ → Type 0
IsAesKey n = (n ≡ pos 16) ⊎ ((n ≡ pos 24) ⊎ (n ≡ pos 32))

-- A key length of Blowfish.
abbrev pub IsBlowfishKey : ℤ → Type 0
IsBlowfishKey k = (n : ℕ) × (k ≡ pos n) × (4 ≤ n) × (n ≤ 56)

-- What the cipher needs of the row, and of the member's length and first bytes.
abbrev pub FitsCipher : Cipher → EntryEncryption → ℕ → Bytes → Type 0
FitsCipher aes_gcm_w3c row len head =
    IsAesKey row.derived_key_len
    × (length row.iv ≡ 12)
    × (28 ≤ len)
    × ((rest : Bytes) × (head ≡ row.iv ++ rest))
FitsCipher aes_cbc_w3c row len head =
    IsAesKey row.derived_key_len × (length row.iv ≡ 16) × ((k : ℕ) × (len ≡ 16 * suc k))
FitsCipher blowfish_cfb8 row len head = IsBlowfishKey row.derived_key_len × (length row.iv ≡ 8)

iv-DecryptHonest :
    (row : EntryEncryption) (by_whom : Primitive) (want : ℕ)
    → want ≤ 16
    → Refuses DecryptHonest (check_iv_len row by_whom want)
unfolding wide
iv-DecryptHonest row by_whom want small = ground arith

member-DecryptHonest :
    (cipher : Cipher) (row : EntryEncryption) (len : ℕ) (head : Bytes)
    → Refuses DecryptHonest (screen_member cipher row len head)
unfolding screen_member
member-DecryptHonest aes_gcm_w3c row len head =
    Refuses->>= DecryptHonest _ _ (iv-DecryptHonest row Primitive.aes_gcm 12 (omega arith))
      (λ u e. ground arith)
member-DecryptHonest aes_cbc_w3c row len head =
    Refuses->>= DecryptHonest _ _ (iv-DecryptHonest row Primitive.aes_cbc 16 (omega arith))
      (λ u e. ground arith)
member-DecryptHonest blowfish_cfb8 row len head =
    iv-DecryptHonest row Primitive.blowfish 8 (omega arith)

pub screen_shape-DecryptHonest :
    (row : EntryEncryption) (len : ℕ) (head : Bytes)
    → Refuses DecryptHonest (screen_shape row len head)
unfolding screen_shape
screen_shape-DecryptHonest row len head =
    Refuses-guard DecryptHonest _ _ (screen_member row.cipher row len head)
      (λ refused. ground arith) (member-DecryptHonest row.cipher row len head)

pub declared-DecryptHonest :
    (sizes : Sizes) (size : ℤ) → Refuses DecryptHonest (declared sizes size)
unfolding declared inflated_len declared_size wide
declared-DecryptHonest streamed (pos n) = tt
declared-DecryptHonest streamed (negsuc n) = refl
declared-DecryptHonest whole_buffer (pos n) = ground arith
declared-DecryptHonest whole_buffer (negsuc n) = refl

IsAesKey-exact : (n : ℤ) → (is_aes_key_len n ≡ true) ↔ IsAesKey n
IsAesKey-exact (pos n) = (
  λ h. ground (arith, h),
  λ k. elim k [
    | inl e ↦ ap is_aes_key_len e
    | inr l ↦ elim l [ inl e ↦ ap is_aes_key_len e | inr e ↦ ap is_aes_key_len e ]
  ],
)
IsAesKey-exact (negsuc n) = (λ h. absurd (cc), λ h. absurd (ground arith))

IsBlowfishKey-exact : (k : ℤ) → (in_range_ℤ 4 56 k ≡ true) ↔ IsBlowfishKey k
IsBlowfishKey-exact (pos n) = (
  λ h. (n, refl, ground arith, ground arith),
  λ (m, e, low, high). ap (in_range_ℤ 4 56) e ∙ ground arith,
)
IsBlowfishKey-exact (negsuc n) = (λ h. absurd (cc), λ (m, e, low, high). absurd (cc))

starts : (iv head : Bytes) → str_eq (take 12 head) iv ≡ true → (rest : Bytes) × (head ≡ iv ++ rest)
starts iv head h = (
  drop 12 head,
  sym (take-drop 12 head)
      ∙ ap (λ (v : Bytes). v ++ drop 12 head) ((str_eq_iff (take 12 head) iv).0 h),
)

take-append : (xs ys : Bytes) (n : ℕ) → length xs ≡ n → take n (xs ++ ys) ≡ xs
take-append [] ys zero h = refl
take-append [] ys (suc n) h = absurd (omega (arith, h))
take-append (x ∷ xs) ys zero h = absurd (omega (arith, h))
take-append (x ∷ xs) ys (suc n) h =
    ap (λ (r : Bytes). x ∷ r) (take-append xs ys n (omega (arith, h)))

-- The tests of the cipher's arm.
abbrev member_test : Cipher → EntryEncryption → ℕ → Bytes → Bool
member_test aes_gcm_w3c row len head =
    length row.iv == 12
    && (not (ltb len 28 || ltb (length head) 12) && str_eq (take 12 head) row.iv)
member_test aes_cbc_w3c row len head = length row.iv == 16 && not (len == 0 || not (len % 16 == 0))
member_test blowfish_cfb8 row len head = length row.iv == 8

screen_member-tests :
    (cipher : Cipher) (row : EntryEncryption) (len : ℕ) (head : Bytes)
    → is_ok (screen_member cipher row len head) ≡ member_test cipher row len head
unfolding screen_member
screen_member-tests aes_gcm_w3c row len head = simp (is_ok->>, is_ok-refuse_if) (ground arith)
screen_member-tests aes_cbc_w3c row len head = simp (is_ok->>, is_ok-refuse_if) (ground arith)
screen_member-tests blowfish_cfb8 row len head = simp (is_ok-refuse_if) (ground arith)

FitsCipher-exact :
    (cipher : Cipher) (row : EntryEncryption) (len : ℕ) (head : Bytes)
    → (cipher_accepts_key_len cipher row.derived_key_len && member_test cipher row len head ≡ true)
      ↔ FitsCipher cipher row len head
unfolding cipher_accepts_key_len
FitsCipher-exact aes_gcm_w3c row len head = (
  λ h. (
    (IsAesKey-exact row.derived_key_len).0 (ground arith),
    ground arith,
    ground arith,
    starts row.iv head (ground arith),
  ),
  λ (k, iv, long, (rest, e)).
      let key = (IsAesKey-exact row.derived_key_len).1 k in
      let taken : str_eq (take 12 head) row.iv ≡ true =
        (str_eq_iff (take 12 head) row.iv).1 (ap (take 12) e ∙ take-append row.iv rest 12 iv) in
      let size : length head ≡ length row.iv + length rest =
        ap length e ∙ length-append row.iv rest in
      ground arith,
)
FitsCipher-exact aes_cbc_w3c row len head = (
  λ h. (
    (IsAesKey-exact row.derived_key_len).0 (ground arith),
    ground arith,
    (len / 16 - 1, ground arith),
  ),
  λ (k, iv, (blocks, e)). let key = (IsAesKey-exact row.derived_key_len).1 k in ground arith,
)
FitsCipher-exact blowfish_cfb8 row len head = (
  λ h. ((IsBlowfishKey-exact row.derived_key_len).0 (ground arith), ground arith),
  λ (k, iv). let key = (IsBlowfishKey-exact row.derived_key_len).1 k in ground arith,
)

-- Before a key is derived, a member passes exactly where its cipher can decrypt it: a key length
-- of the cipher and its length of the initialisation vector; for GCM at least the vector and the
-- tag, starting with the row's vector; for CBC a positive number of whole blocks.
pub screen_shape-exact :
    (row : EntryEncryption) (len : ℕ) (head : Bytes)
    → (is_ok (screen_shape row len head) ≡ true) ↔ FitsCipher row.cipher row len head
unfolding screen_shape
screen_shape-exact row len head =
    let tests : is_ok (screen_shape row len head) ≡ (
        cipher_accepts_key_len row.cipher row.derived_key_len
        && member_test row.cipher row len head) =
      simp (is_ok->>, is_ok-refuse_if, screen_member-tests row.cipher row len head)
        (ground arith) in
    let exact = FitsCipher-exact row.cipher row len head in
    (λ h. exact.0 (sym tests ∙ h), λ k. tests ∙ exact.1 k)
