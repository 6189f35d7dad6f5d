-- ===== src/Tests/Keys.antt =====
-- Concrete functions in place of the hashes, of PBKDF2 and of Argon2, and a host.
use odf_crypto.Prelude.{
  ℕ, ◌≡◌, refl, ap, sym, ◌∙◌, some, List, [], ◌∷◌, ◌++◌, Bytes, leb, ok, take, length, zeros,
}
use mathlib.Core.List.{append_assoc}
use odf_crypto.Kdf.{Hashes}
use odf_crypto.Kdf.Argon2.{Argon2Crate, Host}
use odf_crypto.Decrypt.Keys.{Crypto}

abbrev pub block_lengths : List Bytes → List ℕ
block_lengths [] = []
block_lengths (b ∷ blocks) = length b ∷ block_lengths blocks

-- The lengths of the blocks, behind the state.
abbrev pub first_block : List ℕ → List Bytes → List ℕ
first_block state blocks = state ++ block_lengths blocks

lengths-append :
    (xs ys : List Bytes) → block_lengths (xs ++ ys) ≡ block_lengths xs ++ block_lengths ys
lengths-append [] ys = refl
lengths-append (x ∷ xs) ys = ap (λ (r : List ℕ). length x ∷ r) (lengths-append xs ys)

pub in_order :
    (state : List ℕ) (xs ys : List Bytes)
    → first_block state (xs ++ ys) ≡ first_block (first_block state xs) ys
in_order state xs ys =
    ap (λ (r : List ℕ). state ++ r) (lengths-append xs ys)
    ∙ sym (append_assoc state (block_lengths xs) (block_lengths ys))

abbrev pub hashes : Hashes
hashes = record {
  sha1_digest = λ bytes. take 20 (bytes ++ zeros 20);
  sha256_digest = λ bytes. take 32 (bytes ++ zeros 32);
  compress = first_block;
}

abbrev pub argon2 : Argon2Crate
argon2 = record {
  max_p_cost = 0xFFFFFF;
  min_salt_len = 8;
  max_salt_len = 0xFFFFFFFF;
  block_size = 1024;
  new = λ m t p len. ok (record { m_cost = m; t_cost = t; p_cost = p; block_count = m });
  hash = λ params key salt len. ok (take len (key ++ salt ++ zeros len));
}

abbrev pub host : Host
host = record {
  can_reserve = λ n. leb n 0xFFFFFFFF;
  available_parallelism = some 8;
  can_spawn = λ n. leb n 4;
}

abbrev pub crypto : Crypto
crypto = record {
  hashes = hashes;
  pbkdf2_hmac = λ key salt iterations len. take len (key ++ salt ++ zeros len);
  argon2 = argon2;
  host = host;
}
