-- ===== src/Manifest/Element/Handlers.antt =====
-- src/manifest.rs: no handler of an element's attributes or characters touches the stack, and each
-- keeps a row coherent.
use odf_crypto.Prelude.{
  true, Option, none, some, ◌≡◌, refl, arith, Str, is_some, Assoc, ℤ, is_positive,
}
use odf_crypto.Types.{PropertyBag, KdfId, default_bag}
use odf_crypto.Manifest.Import.{Import}
use odf_crypto.Manifest.Fields.{
  do_file_entry, do_encrypted_key, do_encryption_method, do_encrypted_cipher_value,
  do_encrypted_key_id, do_encrypted_key_packet, do_encryption_data, set_cipher, do_algorithm,
  do_start_key_alg, set_argon2, set_kdf_params, set_salt_and_size, do_key_derivation,
}

-- The fields of a row that PBKDF2 and Argon2id promise.
abbrev pub KdfFields : Option KdfId → PropertyBag → Type 0
KdfFields (some KdfId.pbkdf2) bag =
    (is_some bag.salt ≡ true)
    × (is_some bag.derived_key_size ≡ true)
    × (is_some bag.iteration_count ≡ true)
KdfFields (some KdfId.argon2id) bag =
    (is_some bag.salt ≡ true) × (is_some bag.derived_key_size ≡ true)
KdfFields _ bag = Unit

abbrev pub PositiveArgs : Option (ℤ × ℤ × ℤ) → Type 0
PositiveArgs none = Unit
PositiveArgs (some (t, m, p)) =
    (is_positive t ≡ true) × (is_positive m ≡ true) × (is_positive p ≡ true)

-- What holds of a row whatever the document: Argon2 arguments are positive, a digest has its
-- algorithm, a cipher and an initialisation vector come together, PBKDF2 comes with its salt, key
-- size and iteration count, and Argon2id with its salt and key size. PGP comes with neither.
pub record IsCoherent (bag : PropertyBag) : Type 0 where
  pub args : PositiveArgs bag.argon2_args
  pub digests : is_some bag.digest ≡ true → is_some bag.digest_alg ≡ true
  pub ivs : is_some bag.enc_alg ≡ is_some bag.iv
  pub kdfs : KdfFields bag.kdf bag

pub default-IsCoherent : IsCoherent default_bag
default-IsCoherent = ground arith

-- The handler leaves the stack, the finished rows and the overflow counter as they are, and keeps
-- the open row coherent.
pub record Keeps (s s' : Import) : Type 0 where
  pub stack : s'.stack ≡ s.stack
  pub beyond_cap : s'.beyond_cap ≡ s.beyond_cap
  pub bags : s'.bags ≡ s.bags
  pub key_info : s.bag.key_info ≡ none → s'.bag.key_info ≡ none
  pub coherent : IsCoherent s.bag → IsCoherent s'.bag

pub Keeps-refl : (s : Import) → Keeps s s
Keeps-refl s = record {
  stack = refl;
  beyond_cap = refl;
  bags = refl;
  key_info = λ h. h;
  coherent = λ h. h;
}

pub Keeps-trans : {s t u : Import} → Keeps s t → Keeps t u → Keeps s u
Keeps-trans h k = record {
  stack = cc (h.stack, k.stack);
  beyond_cap = cc (h.beyond_cap, k.beyond_cap);
  bags = cc (h.bags, k.bags);
  key_info = λ e. k.key_info (h.key_info e);
  coherent = λ c. k.coherent (h.coherent c);
}

module _ (s : Import) where
  pub do_encrypted_key-Keeps : Keeps s (do_encrypted_key s)
  unfolding do_encrypted_key
  do_encrypted_key-Keeps = ground arith

  pub do_encrypted_cipher_value-Keeps : Keeps s (do_encrypted_cipher_value s)
  unfolding do_encrypted_cipher_value
  do_encrypted_cipher_value-Keeps = ground arith

  pub do_encrypted_key_id-Keeps : Keeps s (do_encrypted_key_id s)
  unfolding do_encrypted_key_id
  do_encrypted_key_id-Keeps = ground arith

  pub do_encrypted_key_packet-Keeps : Keeps s (do_encrypted_key_packet s)
  unfolding do_encrypted_key_packet
  do_encrypted_key_packet-Keeps = ground arith

  module _ (attrs : Assoc Str) where
    pub do_file_entry-Keeps : Keeps s (do_file_entry s attrs)
    unfolding do_file_entry
    do_file_entry-Keeps = ground arith

    pub do_encryption_method-Keeps :
        (algo_attr : Str) → Keeps s (do_encryption_method s attrs algo_attr)
    unfolding do_encryption_method
    do_encryption_method-Keeps algo_attr = ground arith

    pub do_encryption_data-Keeps : Keeps s (do_encryption_data s attrs)
    unfolding do_encryption_data
    do_encryption_data-Keeps = ground arith

    pub do_algorithm-Keeps : Keeps s (do_algorithm s attrs)
    unfolding do_algorithm set_cipher
    do_algorithm-Keeps = ground arith

    pub do_start_key_alg-Keeps : Keeps s (do_start_key_alg s attrs)
    unfolding do_start_key_alg
    do_start_key_alg-Keeps = ground arith

    pub do_key_derivation-Keeps : Keeps s (do_key_derivation s attrs)
    unfolding do_key_derivation set_kdf_params set_salt_and_size set_argon2
    do_key_derivation-Keeps = ground arith
