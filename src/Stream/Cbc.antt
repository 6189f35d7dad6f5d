-- ===== src/Stream/Cbc.antt =====
-- src/stream.rs: `CbcDecryptReader` and `BlowfishDecryptReader`, over a reader. The ciphers' crates
-- are parameters. Of the buffer the bytes not yet handed out are kept.
pub mod Unpadded
pub mod Ends
use odf_crypto.Prelude.{
  ℕ, zero, suc, ◌-◌, ◌*◌, ◌/◌, ◌%◌, Bool, true, false, not, ◌||◌, Option, none, some, [], ◌∷◌, ◌++◌,
  Bytes, codes, leb, ltb, ◌==◌, in_range, if◌then◌else◌, is_empty, length, take, drop, Result, ok,
  err, ◌>>=◌, ◌>>◌, refuse_if,
}
use odf_crypto.Limits.{aes_block_len}
use odf_crypto.BadParameter.{MemberFault, member}
use odf_crypto.Stream.Sink.{
  Fault, internal, bad_parameters, wrong_password, StreamError, fault, still_running, chunk_buffer,
}
use odf_crypto.Stream.Gcm.{chunk}
use odf_crypto.Stream.Reader.{Reader, fill}

-- A cipher that is set up from a key and a vector, and decrypts a part of a stream in place. The
-- crate of CBC takes whole blocks, which is all that `decrypt_blocks` gives it, that of CFB any bytes.
pub record CipherCrate : Type 1 where
  pub Decryptor : Type 0
  pub new_from_slices : Bytes → Bytes → Option Decryptor
  pub decrypt : Decryptor → Bytes → Decryptor × Bytes

abbrev pub not_block_multiple : StreamError
not_block_multiple = fault (bad_parameters (member MemberFault.not_block_multiple))

-- The last byte, and 0 where there is none.
unfoldable pub last_byte : Bytes → ℕ
last_byte [] = 0
last_byte (b ∷ bytes) = if is_empty bytes then b else last_byte bytes

abbrev or_fault : {A : Type 0} → Option A → Fault → Result Fault A
or_fault none f = err f
or_fault (some a) f = ok a

module _ (cbc : CipherCrate) where
  -- `decrypt_blocks`, with its check of a tail
  unfoldable pub decrypt_blocks : cbc.Decryptor → Bytes → Result Fault (cbc.Decryptor × Bytes)
  decrypt_blocks dec span = do
    refuse_if (not (length span % aes_block_len == 0))
        (internal (codes "a CBC span that is not whole blocks"))
    ok (cbc.decrypt dec span)

  -- `map_err(Fault::into_io)`
  abbrev pub into_io : {A : Type 0} → Result Fault A → Result StreamError A
  into_io (ok a) = ok a
  into_io (err f) = err (fault f)

  module _ (reader : Reader) where
    pub record CbcDecryptReader : Type 0 where
      pub src : reader.State
      pub dec : cbc.Decryptor
      pub buf : Bytes
      pub held : Option Bytes
      pub is_finished : Bool

    abbrev pub fresh_cbc : reader.State → cbc.Decryptor → CbcDecryptReader
    fresh_cbc src dec = record { src = src; dec = dec; buf = []; held = none; is_finished = false }

    unfoldable pub new_cbc :
        (ℕ → Bool) → reader.State → Bytes → Bytes → Result Fault CbcDecryptReader
    new_cbc can_reserve src key iv = do
      refuse_if (not (length key == 16 || length key == 24 || length key == 32))
          (internal (codes "an AES key length the screen passed"))
      dec ←
          or_fault (cbc.new_from_slices key iv)
            (internal (codes "an AES-CBC key or IV length the screen passed"))
      buffer ← chunk_buffer can_reserve chunk
      ok (fresh_cbc src dec)

    abbrev pub held_bytes : Option Bytes → Bytes
    held_bytes none = []
    held_bytes (some block) = block

    -- What is read behind the held block, in whole blocks.
    abbrev pub room_behind : Bytes → ℕ
    room_behind held = (chunk - length held) / aes_block_len * aes_block_len

    -- The end of `refill`, with all the plaintext of the buffer.
    unfoldable pub hold_back : CbcDecryptReader → Bytes → Bool → Result StreamError CbcDecryptReader
    hold_back r span at_end =
        if at_end
        then (refuse_if
              (not (in_range 1 aes_block_len (last_byte span))
                || ltb (length span) (last_byte span))
              (fault wrong_password)
            >> ok (record r {
              buf = take (length span - last_byte span) span;
              held = none;
              is_finished = true;
            }))
        else ok (record r {
          buf = take (length span - aes_block_len) span;
          held = some (drop (length span - aes_block_len) span);
        })

    -- `refill` of a reader that is not finished
    unfoldable pub refill_blocks : CbcDecryptReader → Result StreamError CbcDecryptReader
    refill_blocks r = do
      (got, src) ← fill reader (room_behind (held_bytes r.held)) r.src
      refuse_if (not (length got % aes_block_len == 0)) not_block_multiple
      (dec, plain) ← into_io (decrypt_blocks r.dec got)
      let span = held_bytes r.held ++ plain
      refuse_if (length span == 0) not_block_multiple
      hold_back (record r { src = src; dec = dec }) span
          (ltb (length got) (room_behind (held_bytes r.held)))

    -- The loop of `read`.
    unfoldable pub await_plain : ℕ → CbcDecryptReader → Result StreamError CbcDecryptReader
    await_plain zero r = err still_running
    await_plain (suc fuel) r = elim (not (is_empty r.buf) || r.is_finished) [
      | true ↦ ok r
      | false ↦ refill_blocks r >>= await_plain fuel
    ]

    -- `read` into a buffer of `n` bytes: the buffer is empty behind at most one refill.
    unfoldable pub cbc_read : ℕ → CbcDecryptReader → Result StreamError (Bytes × CbcDecryptReader)
    cbc_read n r = do
      ready ← await_plain 2 r
      let count = if leb (length ready.buf) n then length ready.buf else n
      ok (take count ready.buf, record ready { buf = drop count ready.buf })

module _ (blowfish : CipherCrate) (reader : Reader) where
  pub record BlowfishDecryptReader : Type 0 where
    pub src : reader.State
    pub dec : blowfish.Decryptor

  unfoldable pub new_blowfish : reader.State → Bytes → Bytes → Result Fault BlowfishDecryptReader
  new_blowfish src key iv = do
    dec ←
        or_fault (blowfish.new_from_slices key iv)
          (internal (codes "a Blowfish key or IV length the screen passed"))
    ok (record { src = src; dec = dec })

  unfoldable pub blowfish_read :
      ℕ → BlowfishDecryptReader → Result StreamError (Bytes × BlowfishDecryptReader)
  blowfish_read n r = do
    (got, src) ← reader.read n r.src
    let (dec, plain) = blowfish.decrypt r.dec got
    ok (plain, record { src = src; dec = dec })
