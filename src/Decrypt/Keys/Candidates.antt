-- ===== src/Decrypt/Keys/Candidates.antt =====
-- src/decrypt_stream.rs: what `find_key` finds.
use odf_crypto.Prelude.{
  Bool, true, false, List, [], ◌∷◌, map, ◌≡◌, ◌≢◌, ◌↔◌, ◌⊎◌, refl, sym, ap, ◌∙◌, subst, Str, Bytes,
  if◌then◌else◌, Option, none, some, All, inl, inr, Result, ok, err, ◌>>=◌, >>=-ok, Refuses,
  Refuses->>=, Result-cases, err-injective,
}
use odf_crypto.Types.{EntryEncryption, StartKeyAlg, sha1, sha256}
use odf_crypto.Kdf.{sha1_ladder, start_key, legacy_start_key}
use odf_crypto.Decrypt.Ceilings.{DecryptLimits}
use odf_crypto.Decrypt.Errors.{DecryptError, wrong_password}
use odf_crypto.Decrypt.Keys.Others.{IsOther, of_never, derive_key-IsOther}
use odf_crypto.Decrypt.Keys.{
  Crypto, derive_key, attempt, or_else, try_rungs, after_start_key, find_key,
}

accepted :
    (verdict : Bool) (derived key : Bytes)
    → ◌≡◌ {A = Result DecryptError (Option Bytes)}
        (ok (if verdict then some derived else none))
        (ok (some key))
    → (verdict ≡ true) × (derived ≡ key)
accepted true derived key h = (refl, cc)
accepted false derived key h = cc

refused :
    (verdict : Bool) (derived : Bytes)
    → ◌≡◌ {A = Result DecryptError (Option Bytes)}
        (ok (if verdict then some derived else none))
        (ok none)
    → verdict ≡ false
refused true derived h = cc
refused false derived h = refl

or_else-found :
    (found : Option Bytes) (rest : Result DecryptError Bytes) (key : Bytes)
    → or_else found rest ≡ ok key
    → (found ≡ some key) ⊎ ((found ≡ none) × (rest ≡ ok key))
or_else-found (some k) rest key h = inl cc
or_else-found none rest key h = inr (refl, h)

or_else-refused :
    (found : Option Bytes) (rest : Result DecryptError Bytes)
    → or_else found rest ≡ err wrong_password
    → (found ≡ none) × (rest ≡ err wrong_password)
or_else-refused (some k) rest h = cc
or_else-refused none rest h = (refl, h)

module _ (crypto : Crypto) where
  -- The start keys of a password, in the order in which they are tried.
  abbrev pub candidates : StartKeyAlg → Str → List Bytes
  candidates sha1 password =
      start_key crypto.hashes password sha1
      ∷ map (legacy_start_key crypto.hashes password) sha1_ladder
  candidates sha256 password = start_key crypto.hashes password sha256 ∷ []

  module _ (row : EntryEncryption) (limits : DecryptLimits)
      (accepts : Bytes → Result DecryptError Bool) where
    -- The start key `sk` derives `key`, of which the member's test says `verdict`.
    abbrev pub Tests : Bool → Bytes → Bytes → Type 0
    Tests verdict sk key = (derive_key crypto row sk limits ≡ ok key) × (accepts key ≡ ok verdict)

    -- `key` is derived from the first start key that the member's test accepts.
    abbrev pub IsFirstAccepted : List Bytes → Bytes → Type 0
    IsFirstAccepted [] key = ⊥
    IsFirstAccepted (sk ∷ sks) key =
        Tests true sk key ⊎ (((refused : Bytes) × Tests false sk refused) × IsFirstAccepted sks key)

    abbrev pub AreRefused : List Bytes → Type 0
    AreRefused sks = All (λ (sk : Bytes). (key : Bytes) × Tests false sk key) sks

    -- The reference: the candidates one after the other.
    try_all : List Bytes → Result DecryptError Bytes
    try_all [] = err wrong_password
    try_all (sk ∷ sks) = do
      found ← attempt crypto row limits accepts sk
      or_else found (try_all sks)

    attempt-accepted :
        (sk key : Bytes)
        → (attempt crypto row limits accepts sk ≡ ok (some key)) ↔ Tests true sk key
    unfolding attempt
    attempt-accepted sk key = (
      λ h.
          let (derived, e1, d) = >>=-ok (derive_key crypto row sk limits) _ h in
          let (verdict, e2, a) = >>=-ok (accepts derived) _ e1 in
          let (t, e) = accepted verdict derived key e2 in
          (d ∙ ap ok e, ap accepts (sym e) ∙ a ∙ ap ok t),
      λ (d, a). rw (d, a) refl,
    )

    attempt-refused :
        (sk : Bytes)
        → (attempt crypto row limits accepts sk ≡ ok none) ↔ ((key : Bytes) × Tests false sk key)
    unfolding attempt
    attempt-refused sk = (
      λ h.
          let (derived, e1, d) = >>=-ok (derive_key crypto row sk limits) _ h in
          let (verdict, e2, a) = >>=-ok (accepts derived) _ e1 in
          (derived, (d, a ∙ ap ok (refused verdict derived e2))),
      λ (key, (d, a)). rw (d, a) refl,
    )

    try_all-first :
        (sks : List Bytes) (key : Bytes) → (try_all sks ≡ ok key) ↔ IsFirstAccepted sks key
    unfolding try_all
    try_all-first [] key = (λ h. absurd (cc), λ k. absurd k)
    try_all-first (sk ∷ sks) key = (
      λ h.
          let (found, e, a) = >>=-ok (attempt crypto row limits accepts sk) _ h in
          elim (or_else-found found (try_all sks) key e) [
            | inl n ↦ inl ((attempt-accepted sk key).0 (a ∙ ap ok n))
            | inr (n, r) ↦ inr ((attempt-refused sk).0 (a ∙ ap ok n), (try_all-first sks key).0 r)
          ],
      λ k. elim k [
        | inl t ↦ rw ((attempt-accepted sk key).1 t) refl
        | inr (r, later) ↦ rw ((attempt-refused sk).1 r) ((try_all-first sks key).1 later)
      ],
    )

    find_key-candidates :
        (password : Str)
        → find_key crypto row limits accepts password ≡ try_all (candidates row.start_key password)
    unfolding find_key try_rungs try_all
    find_key-candidates password = by_algorithm row.start_key
      where
        by_algorithm :
            (alg : StartKeyAlg)
            → (attempt crypto row limits accepts (start_key crypto.hashes password alg) >>= λ found.
                or_else found (after_start_key crypto row limits accepts password alg))
              ≡ try_all (candidates alg password)
        by_algorithm sha1 = refl
        by_algorithm sha256 = refl

    -- The search returns exactly the key derived from the first start key of the password that the
    -- member's test accepts, where each start key before it derives a key that the test refuses: for
    -- SHA-256 there is one, for SHA-1 its digest and then the three of the ladder.
    pub find_key-first :
        (password : Str) (key : Bytes)
        → (find_key crypto row limits accepts password ≡ ok key)
          ↔ IsFirstAccepted (candidates row.start_key password) key
    find_key-first password key =
        let same = find_key-candidates password in
        let first = try_all-first (candidates row.start_key password) key in
        (λ h. first.0 (sym same ∙ h), λ k. same ∙ first.1 k)

    -- The test has no other say on the password than its verdict.
    abbrev pub NeverBlames : Type 0
    NeverBlames = (key : Bytes) → accepts key ≢ err wrong_password

    attempt-Spares :
        NeverBlames → (sk : Bytes) → Refuses IsOther (attempt crypto row limits accepts sk)
    unfolding attempt
    attempt-Spares never sk =
        Refuses->>= IsOther _ _ (derive_key-IsOther crypto row sk limits)
          (λ key e. Refuses->>= IsOther _ _ (of_never (accepts key) (never key)) (λ verdict e1. tt))

    try_all-refused :
        NeverBlames → (sks : List Bytes) → (try_all sks ≡ err wrong_password) ↔ AreRefused sks
    unfolding try_all
    try_all-refused never [] = (λ h. tt, λ k. refl)
    try_all-refused never (sk ∷ sks) = (
      λ h. elim (Result-cases (attempt crypto row limits accepts sk)) [
        | inl (found, a) ↦
            let rest = or_else-refused found (try_all sks) (
              subst
                (λ (r : Result DecryptError (Option Bytes)).
                  r >>= (λ found. or_else found (try_all sks)) ≡ err wrong_password)
                a h) in
            ((attempt-refused sk).0 (a ∙ ap ok rest.0), (try_all-refused never sks).0 rest.1)
        | inr (e, a) ↦ absurd (
            subst (Refuses IsOther)
              (a
                ∙ ap err (
                    err-injective (
                      subst
                        (λ (r : Result DecryptError (Option Bytes)).
                          r >>= (λ found. or_else found (try_all sks)) ≡ err wrong_password)
                        a h)))
              (attempt-Spares never sk) refl)
      ],
      λ (r, later). rw ((attempt-refused sk).1 r) ((try_all-refused never sks).1 later),
    )

    -- The search ends in a wrong password exactly where every start key of the password derives a
    -- key that the member's test refuses; it is assumed that the test answers with a verdict or
    -- another error.
    pub find_key-WrongPassword :
        NeverBlames
        → (password : Str)
        → (find_key crypto row limits accepts password ≡ err wrong_password)
          ↔ AreRefused (candidates row.start_key password)
    find_key-WrongPassword never password =
        let same = find_key-candidates password in
        let all = try_all-refused never (candidates row.start_key password) in
        (λ h. all.0 (sym same ∙ h), λ k. same ∙ all.1 k)
