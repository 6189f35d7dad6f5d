-- ===== src/Classify/Members/Listing.antt =====
-- src/classify.rs: what `collect_members` lists.
use odf_crypto.Prelude.{
  ℕ, suc, ◌+◌, Bool, true, false, List, [], ◌∷◌, ◌≡◌, ◌≢◌, refl, arith, Str, Bytes, str_eq,
  str_eq_iff, any, All, to_ascii_lowercase, Result, ok, err, Bool-cases, Result-cases, Returns,
  Returns-ok, inl, inr,
}
use odf_crypto.Classify.Names.{is_valid_zip_entry_file_name}
use odf_crypto.Classify.Members.{
  ZipFile, Archive, ZipMember, by_index, is_folder_entry, check_name, member_of, collect_from,
  collect_members,
}

All-map :
    {A : Type 0} (P Q : A → Type 0) (xs : List A) → ((a : A) → P a → Q a) → All P xs → All Q xs
All-map P Q [] f h = tt
All-map P Q (x ∷ xs) f h = (f x h.0, All-map P Q xs f h.1)

abbrev is_seen : List Str → ZipMember → Bool
is_seen seen_lower m = any (str_eq (to_ascii_lowercase m.name)) seen_lower

-- The members differ, even where case is ignored.
abbrev pub AreDistinct : List ZipMember → Type 0
AreDistinct [] = Unit
AreDistinct (m ∷ members) =
    All (λ (x : ZipMember). to_ascii_lowercase x.name ≢ to_ascii_lowercase m.name) members
    × AreDistinct members

Returns-map :
    {E A : Type 0} {P Q : A → Type 0} (r : Result E A)
    → ((a : A) → P a → Q a)
    → Returns P r
    → Returns Q r
Returns-map (ok a) f h = f a h
Returns-map (err e) f h = tt

check_name-ok :
    (name : Str) (seen seen_lower : List Str)
    → check_name name seen seen_lower ≡ ok tt
    → (is_valid_zip_entry_file_name name ≡ true)
      × (any (str_eq (to_ascii_lowercase name)) seen_lower ≡ false)
unfolding check_name
check_name-ok name seen seen_lower h = elim (Bool-cases (is_valid_zip_entry_file_name name)) [
  | inr e ↦ cc (rw (e, check_name) at h)
  | inl e ↦ elim (Bool-cases (any (str_eq (to_ascii_lowercase name)) seen_lower)) [
    | inr free ↦ (e, free)
    | inl taken ↦ elim (Bool-cases (any (str_eq name) seen)) [
      | inl d ↦ cc (rw (e, d, check_name) at h)
      | inr d ↦ cc (rw (e, d, taken, check_name) at h)
    ]
  ]
]

module _ (from_utf8_lossy : Bytes → Str) where
  -- The member is that of the archive's entry at its index, where the archive begins at index `i`,
  -- and its name is valid.
  pub record IsListed (i : ℕ) (archive : Archive) (m : ZipMember) : Type 0 where
    pub offset : ℕ
    pub file : ZipFile
    pub index : m.index ≡ i + offset
    pub entry : by_index archive offset ≡ ok file
    pub member : m ≡ member_of from_utf8_lossy m.index file
    pub valid : is_valid_zip_entry_file_name m.name ≡ true

  record Listing (i : ℕ) (seen_lower : List Str) (archive : Archive) (members : List ZipMember)
      : Type 0 where
    listed : All (IsListed i archive) members
    unseen : All (λ (m : ZipMember). is_seen seen_lower m ≡ false) members
    distinct : AreDistinct members

  shift :
      (i : ℕ) (f : Result Str ZipFile) (archive : Archive) (m : ZipMember)
      → IsListed (i + 1) archive m
      → IsListed i (f ∷ archive) m
  shift i f archive m h = record {
    offset = suc h.offset;
    file = h.file;
    index = omega (arith, h.index);
    entry = h.entry;
    member = h.member;
    valid = h.valid;
  }

  -- A listing behind one entry that is kept.
  kept-Listing :
      (i : ℕ) (seen_lower : List Str) (f : ZipFile) (archive : Archive) (members : List ZipMember)
      → is_valid_zip_entry_file_name (from_utf8_lossy f.name_raw) ≡ true
      → any (str_eq (to_ascii_lowercase (from_utf8_lossy f.name_raw))) seen_lower ≡ false
      → Listing
          (i + 1)
          (to_ascii_lowercase (from_utf8_lossy f.name_raw) ∷ seen_lower)
          archive
          members
      → Listing i seen_lower (ok f ∷ archive) (member_of from_utf8_lossy i f ∷ members)
  unfolding any
  kept-Listing i seen_lower f archive members valid free rest =
      let lower = to_ascii_lowercase (from_utf8_lossy f.name_raw) in
      record {
        listed = (
          record {
            offset = 0;
            file = f;
            index = omega arith;
            entry = refl;
            member = refl;
            valid = valid;
          },
          All-map _ _ members (shift i (ok f) archive) rest.listed,
        );
        unseen = (
          free,
          All-map _ (λ (m : ZipMember). is_seen seen_lower m ≡ false) members
              (λ m (h : is_seen (lower ∷ seen_lower) m ≡ false). ground arith) rest.unseen,
        );
        distinct = (
          All-map _ (λ (x : ZipMember). to_ascii_lowercase x.name ≢ lower) members
              (λ m (h : is_seen (lower ∷ seen_lower) m ≡ false) e.
                ground (arith, (str_eq_iff (to_ascii_lowercase m.name) lower).1 e))
              rest.unseen,
          rest.distinct,
        );
      }

  collect_from-Listing :
      (i : ℕ) (seen seen_lower : List Str) (archive : Archive)
      → Returns
          (Listing i seen_lower archive)
          (collect_from from_utf8_lossy i seen seen_lower archive)
  unfolding collect_from
  collect_from-Listing i seen seen_lower [] = record { listed = tt; unseen = tt; distinct = tt }
  collect_from-Listing i seen seen_lower (err message ∷ archive) = tt
  collect_from-Listing i seen seen_lower (ok f ∷ archive) =
      let name = from_utf8_lossy f.name_raw in
      let lower = to_ascii_lowercase name in
      elim (Bool-cases (is_folder_entry f)) [
        | inl skipped ↦
            rw (skipped, collect_from)
              (Returns-map (collect_from from_utf8_lossy (i + 1) seen seen_lower archive)
                (λ members (h : Listing (i + 1) seen_lower archive members). record {
                  listed = All-map _ _ members (shift i (ok f) archive) h.listed;
                  unseen = h.unseen;
                  distinct = h.distinct;
                })
                (collect_from-Listing (i + 1) seen seen_lower archive))
        | inr kept ↦ elim (Result-cases (check_name name seen seen_lower)) [
          | inr (x, e) ↦ rw (kept, e, collect_from) tt
          | inl (u, e) ↦
              let (valid, free) = check_name-ok name seen seen_lower e in
              let rest = collect_from-Listing (i + 1) (name ∷ seen) (lower ∷ seen_lower) archive in
              elim (Result-cases
                (collect_from from_utf8_lossy (i + 1) (name ∷ seen) (lower ∷ seen_lower) archive)) [
                  | inr (x, c) ↦ rw (kept, e, c, collect_from) tt
                  | inl (members, c) ↦
                      rw (kept, e, c, collect_from)
                        (kept-Listing i seen_lower f archive members valid free
                          (Returns-ok (Listing (i + 1) (lower ∷ seen_lower) archive) _ rest c))
                ]
        ]
      ]

  -- Each member that `collect_members` lists is the one at its index, and has a valid name; no two
  -- have the same name, even where case is ignored.
  pub collect_members_listing :
      (archive : Archive)
      → Returns
          (λ members. All (IsListed 0 archive) members × AreDistinct members)
          (collect_members from_utf8_lossy archive)
  unfolding collect_members
  collect_members_listing archive =
      Returns-map (collect_from from_utf8_lossy 0 [] [] archive)
        (λ members (h : Listing 0 [] archive members). (h.listed, h.distinct))
        (collect_from-Listing 0 [] [] archive)
