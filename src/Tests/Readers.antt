-- ===== src/Tests/Readers.antt =====
-- The readers of src/stream.rs and the release of src/decrypt_stream.rs on concrete input.
use odf_crypto.Prelude.{
  ℕ, zero, suc, ◌+◌, ◌%◌, ◌==◌, Bool-cases, inl, inr, ◌≤◌, ◌<◌, ◌≡◌, refl, sym, arith, Bool, true,
  none, some, [], ◌∷◌, ◌++◌, Bytes, leb, if◌then◌else◌, length, take, drop, take-drop,
  length-append, ap, ◌∙◌, Result, ok, err, ok-injective, Refuses,
}
use mathlib.Core.List.{append_assoc}
use odf_crypto.Stream.Sink.{Sink, StreamError}
use odf_crypto.Stream.Reader.{Reader, Gives, IsBounded, fill, fill_loop}
use odf_crypto.Stream.Inflate.{
  inflate_window, Decompressor, InflateReader, Progress, finished, has_more_output,
  needs_more_input, fresh, refill, tap_input, conclude, decompress_turn, step, await, inflate_read,
}
use odf_crypto.Stream.Inflate.Turns.{Documented}
use odf_crypto.Stream.Inflate.Exact.{inflates, inflates-exact}
use odf_crypto.Stream.Inflate.Ends.{inflates-HasEnded}
use odf_crypto.Stream.Deflate.Ends.{HasEnded}
use odf_crypto.Stream.Sealing.Sealed.{Appends}
use odf_crypto.Stream.Cbc.{
  CipherCrate, CbcDecryptReader, fresh_cbc, cbc_read, await_plain, refill_blocks, hold_back,
  decrypt_blocks, last_byte,
}
use odf_crypto.Stream.Cbc.Unpadded.{Chains, IsBlocks, IsPadding, cbc_reads, cbc_reads-unpadded}

-- A reader of the bytes of a list, at most two at a time.
abbrev some_of : ℕ → ℕ
some_of n = if leb n 2 then n else 2

abbrev reader : Reader
reader = record {
  State = Bytes;
  read = λ n s. ok (take (some_of n) s, drop (some_of n) s);
  bound = length;
}

none_left : (n : ℕ) (s : Bytes) → 1 ≤ n → take n s ≡ [] → drop n s ≡ []
none_left zero s room e = absurd (omega (arith, room))
none_left (suc n) [] room e = refl
none_left (suc n) (b ∷ s) room e = absurd (cc)

reader-Gives : Gives reader (λ s. s)
reader-Gives = record {
  in_order = λ n s next got h.
      sym (take-drop (some_of n) s) ∙ ap (λ (q : Bytes × Bytes). q.0 ++ q.1) (ok-injective h);
  at_end = λ n s next h.
      let e = ok-injective h in
      ap (λ (q : Bytes × Bytes). q.1) (sym e)
      ∙ none_left (some_of (suc n)) s (ground arith) (ap (λ (q : Bytes × Bytes). q.0) e);
}

reader_bounded : IsBounded reader
reader_bounded = record {
  shrinks = λ n s next got h.
      let l = length-append (take (some_of n) s) (drop (some_of n) s) in
      let whole = ap length (take-drop (some_of n) s) in
      let e = ap (λ (q : Bytes × Bytes). length q.0 + length q.1) (ok-injective h) in
      omega (arith, l, whole, e);
}

-- A decompressor that writes one byte at a time, up to a zero.
unfoldable pub put_at : ℕ → ℕ → Bytes → Bytes
put_at at b [] = []
put_at zero b (x ∷ window) = b ∷ window
put_at (suc at) b (x ∷ window) = x ∷ put_at at b window

length-put_at : (at b : ℕ) (window : Bytes) → length (put_at at b window) ≡ length window
unfolding put_at
length-put_at at b [] = refl
length-put_at zero b (x ∷ window) = refl
length-put_at (suc at) b (x ∷ window) = ap suc (length-put_at at b window)

abbrev pub copy_byte : ℕ → Bytes → Bytes → ℕ → Bool → Progress × ℕ × ℕ × Bytes × ℕ
copy_byte s [] window at more = (needs_more_input, 0, 0, window, s)
copy_byte s (zero ∷ input) window at more = (finished, 1, 0, window, s)
copy_byte s (suc b ∷ input) window at more = (has_more_output, 1, 1, put_at at (suc b) window, s)

abbrev pub copier : Decompressor
copier = record { State = ℕ; new = 0; decompress = copy_byte }

pub copier_documented : Documented copier
copier_documented = record {
  uses = uses;
  fits = fits;
  keeps = keeps;
  used_up = used_up;
  has_written = has_written;
}
  where
    uses :
        (s : ℕ) (input window : Bytes) (at : ℕ) (more : Bool)
        → (copy_byte s input window at more).1 ≤ length input
    uses s [] window at more = omega arith
    uses s (zero ∷ input) window at more = omega arith
    uses s (suc b ∷ input) window at more = omega arith

    fits :
        (s : ℕ) (input window : Bytes) (at : ℕ) (more : Bool)
        → length window ≡ inflate_window
        → at < inflate_window
        → at + (copy_byte s input window at more).2 ≤ inflate_window
    fits s [] window at more w h = omega arith
    fits s (zero ∷ input) window at more w h = omega arith
    fits s (suc b ∷ input) window at more w h = omega arith

    keeps :
        (s : ℕ) (input window : Bytes) (at : ℕ) (more : Bool)
        → length (copy_byte s input window at more).3 ≡ length window
    keeps s [] window at more = refl
    keeps s (zero ∷ input) window at more = refl
    keeps s (suc b ∷ input) window at more = length-put_at at (suc b) window

    used_up :
        (s : ℕ) (input window : Bytes) (at : ℕ) (more : Bool)
        → (copy_byte s input window at more).0 ≡ needs_more_input
        → (copy_byte s input window at more).1 ≡ length input
    used_up s [] window at more e = refl
    used_up s (zero ∷ input) window at more e = absurd (cc)
    used_up s (suc b ∷ input) window at more e = absurd (cc)

    has_written :
        (s : ℕ) (input window : Bytes) (at : ℕ) (more : Bool)
        → length window ≡ inflate_window
        → at < inflate_window
        → (copy_byte s input window at more).0 ≡ has_more_output
        → 0 < (copy_byte s input window at more).2
    has_written s [] window at more w h e = absurd (cc)
    has_written s (zero ∷ input) window at more w h e = absurd (cc)
    has_written s (suc b ∷ input) window at more w h e = omega arith

abbrev pub kept : Sink
kept = record { State = Bytes; write_all = λ s b. ok (s ++ b) }

pub kept-Appends : Appends kept (λ s. s)
kept-Appends s next b h = sym (ok-injective h)

abbrev I : Type 0
I = InflateReader copier reader kept

-- Two bytes, the end marker, and a byte behind it.
abbrev start : I
start = fresh copier reader kept (5 ∷ 6 ∷ 0 ∷ 9 ∷ []) 2 10 []

abbrev two : Bytes
two = 5 ∷ 6 ∷ []

abbrev behind : Result StreamError (Bytes × I) → I
behind (ok q) = q.1
behind (err e) = start

abbrev last : I
last = behind (inflates copier reader kept (1 ∷ 4 ∷ []) start)

inflated : inflates copier reader kept (1 ∷ 4 ∷ []) start ≡ ok (5 ∷ 6 ∷ [], last)
unfolding inflate_read await step refill fill fill_loop decompress_turn tap_input conclude put_at
inflated = refl

inflates-exact_example :
    (length two ≤ 10)
    × (length two ≤ 2)
    × ((n : ℕ) (next : I)
        → inflate_read copier reader kept (suc n) last ≡ ok ([], next)
        → length two ≡ 2)
    × (last.tap ++ (last.input ++ last.src) ≡ 5 ∷ 6 ∷ 0 ∷ 9 ∷ [])
inflates-exact_example =
    inflates-exact copier reader kept copier_documented (λ s. s) kept-Appends (λ s. s) reader-Gives
      (5 ∷ 6 ∷ 0 ∷ 9 ∷ []) 2 10 [] (1 ∷ 4 ∷ []) two last inflated

inflates-HasEnded_example : Refuses HasEnded (inflates copier reader kept (1 ∷ 4 ∷ 4 ∷ []) start)
inflates-HasEnded_example =
    inflates-HasEnded copier reader kept copier_documented reader_bounded (λ n s. tt) (λ s b. tt)
      (λ s. s) kept-Appends (λ s. s) reader-Gives (5 ∷ 6 ∷ 0 ∷ 9 ∷ []) 2 10 [] (1 ∷ 4 ∷ 4 ∷ [])

-- A cipher in chained blocks: it turns each block by one byte, and adds the bytes of the block
-- before to each of its own.
abbrev turned : Bytes → Bytes
turned [] = []
turned (c ∷ block) = block ++ c ∷ []

abbrev sum : Bytes → ℕ
sum [] = 0
sum (b ∷ bytes) = b + sum bytes

abbrev plus : ℕ → Bytes → Bytes
plus n [] = []
plus n (b ∷ bytes) = ((b + n) % 256) ∷ plus n bytes

unfoldable open_blocks : Bytes → Bytes → Bytes → Bytes × Bytes
open_blocks before block [] = (before, [])
open_blocks before block (c ∷ bytes) =
    let whole = block ++ c ∷ [] in
    let last = open_blocks whole [] bytes in
    let inside = open_blocks before whole bytes in
    if length whole == 16 then (last.0, plus (sum before) (turned whole) ++ last.1) else inside

length-plus : (n : ℕ) (b : Bytes) → length (plus n b) ≡ length b
length-plus n [] = refl
length-plus n (x ∷ b) = ap suc (length-plus n b)

length-turned : (b : Bytes) → length (turned b) ≡ length b
length-turned [] = refl
length-turned (c ∷ b) = let l = length-append b (c ∷ []) in omega (arith, l)

length-open_blocks :
    (before block bytes : Bytes)
    → length block < 16
    → (length block + length bytes) % 16 ≡ 0
    → length (open_blocks before block bytes).1 ≡ length block + length bytes
unfolding open_blocks
length-open_blocks before block [] small even = ground arith
length-open_blocks before block (c ∷ bytes) small even =
    let whole = block ++ c ∷ [] in
    let l = length-append block (c ∷ []) in
    elim (Bool-cases (length whole == 16)) [
      | inl e ↦
          let full : length whole ≡ 16 = ground arith in
          let p = length-plus (sum before) (turned whole) in
          let t = length-turned whole in
          let rest =
            length-open_blocks whole [] bytes (omega arith) (omega (arith, l, full, even)) in
          let a = length-append (plus (sum before) (turned whole)) (open_blocks whole [] bytes).1 in
          rw (open_blocks, e) (omega (arith, a, p, t, rest, l, full))
      | inr e ↦
          rw (open_blocks, e)
            (let short : length whole < 16 = ground arith in
              let rest = length-open_blocks before whole bytes short (omega (arith, l, even)) in
              omega (arith, rest, l))
    ]

open_blocks-append :
    (before block x y : Bytes)
    → length block < 16
    → (length block + length x) % 16 ≡ 0
    → open_blocks before block (x ++ y) ≡ (
      (open_blocks (open_blocks before block x).0 [] y).0,
      (open_blocks before block x).1 ++ (open_blocks (open_blocks before block x).0 [] y).1,
    )
unfolding open_blocks
open_blocks-append before [] [] y small even = refl
open_blocks-append before (b ∷ block) [] y small even = absurd (omega (arith, small, even))
open_blocks-append before block (c ∷ x) y small even =
    let whole = block ++ c ∷ [] in
    let l = length-append block (c ∷ []) in
    elim (Bool-cases (length whole == 16)) [
      | inl e ↦
          let full : length whole ≡ 16 = ground arith in
          let rest = open_blocks-append whole [] x y (omega arith) (omega (arith, l, full, even)) in
          let first = plus (sum before) (turned whole) in
          rw (open_blocks, e)
            (ap (λ (q : Bytes × Bytes). (q.0, first ++ q.1)) rest
              ∙ ap (λ b. ((open_blocks (open_blocks whole [] x).0 [] y).0, b))
                  (sym (append_assoc first _ _)))
      | inr e ↦
          rw (open_blocks, e)
            (let short : length whole < 16 = ground arith in
              open_blocks-append before whole x y short (omega (arith, l, even)))
    ]

abbrev block_cipher : CipherCrate
block_cipher = record {
  Decryptor = Bytes;
  new_from_slices = λ key iv. some iv;
  decrypt = λ before bytes. open_blocks before [] bytes;
}

chains : Chains block_cipher
unfolding open_blocks
chains = record {
  length_kept = λ d x even. length-open_blocks d [] x (omega arith) (ground arith) ∙ omega arith;
  runs_on = λ d x y even even'. open_blocks-append d [] x y (omega arith) (ground arith);
  starts = λ d. refl;
}

abbrev C : Type 0
C = CbcDecryptReader block_cipher reader

-- A block whose plaintext has three bytes of padding.
abbrev block : Bytes
block = 3 ∷ 1 ∷ 2 ∷ 3 ∷ 4 ∷ 5 ∷ 6 ∷ 7 ∷ 8 ∷ 9 ∷ 10 ∷ 11 ∷ 12 ∷ 13 ∷ 0 ∷ 0 ∷ []

abbrev unpadded : C
unpadded = record { src = []; dec = block; buf = []; held = none; is_finished = true }

abbrev released : Bytes
released = 1 ∷ 2 ∷ 3 ∷ 4 ∷ 5 ∷ 6 ∷ 7 ∷ 8 ∷ 9 ∷ 10 ∷ 11 ∷ 12 ∷ 13 ∷ []

opens_block :
    cbc_reads block_cipher reader (9 ∷ 9 ∷ []) (fresh_cbc block_cipher reader block [])
    ≡ ok (released, unpadded)
unfolding cbc_read await_plain refill_blocks fill fill_loop decrypt_blocks hold_back last_byte
    open_blocks
opens_block = refl

at_end : cbc_read block_cipher reader 9 unpadded ≡ ok ([], unpadded)
unfolding cbc_read await_plain
at_end = refl

cbc_reads-unpadded_example :
    IsBlocks block
    × (padding : Bytes) × IsPadding padding
    × (released ++ padding ≡ (open_blocks [] [] block).1)
cbc_reads-unpadded_example =
    cbc_reads-unpadded block_cipher chains reader (λ s. s) reader-Gives block [] (9 ∷ 9 ∷ [])
      released unpadded unpadded 8 opens_block at_end
