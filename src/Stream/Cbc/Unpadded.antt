-- ===== src/Stream/Cbc/Unpadded.antt =====
-- src/stream.rs: what a `CbcDecryptReader` releases.
use odf_crypto.Prelude.{
  ℕ, zero, suc, ◌+◌, ◌-◌, ◌%◌, ◌≤◌, ◌<◌, Bool, true, false, not, ◌||◌, List, [], ◌∷◌, ◌++◌, ◌≡◌,
  refl, sym, ap, ◌∙◌, subst, arith, Bytes, leb, ltb, ◌==◌, in_range, if◌then◌else◌, is_empty,
  length, take, drop, take-drop, length-append, length-drop, Bool-cases, inl, inr, Result, ok,
  ◌>>=◌, >>=-ok, guard-ok, ok-injective,
}
use mathlib.Core.List.{append_assoc, append-nil}
use odf_crypto.Limits.{aes_block_len}
use odf_crypto.Stream.Sink.{StreamError}
use odf_crypto.Stream.Reader.{Reader, Gives, fill}
use odf_crypto.Stream.Reader.Order.{fill-in_order, fill-ended}
use odf_crypto.Stream.Cbc.{
  CipherCrate, last_byte, decrypt_blocks, into_io, CbcDecryptReader, fresh_cbc, held_bytes,
  room_behind, hold_back, refill_blocks, await_plain, cbc_read,
}

abbrev pub IsBlocks : Bytes → Type 0
IsBlocks x = (length x % aes_block_len == 0) ≡ true

-- What a block cipher's crate documents of whole blocks, and of nothing else: it keeps their length,
-- and decrypts them part by part.
pub record Chains (cbc : CipherCrate) : Type 0 where
  pub length_kept :
      (d : cbc.Decryptor) (x : Bytes) → IsBlocks x → length (cbc.decrypt d x).1 ≡ length x
  pub runs_on :
      (d : cbc.Decryptor) (x y : Bytes)
      → IsBlocks x
      → IsBlocks y
      → cbc.decrypt d (x ++ y) ≡ (
        (cbc.decrypt (cbc.decrypt d x).0 y).0,
        (cbc.decrypt d x).1 ++ (cbc.decrypt (cbc.decrypt d x).0 y).1,
      )
  pub starts : (d : cbc.Decryptor) → cbc.decrypt d [] ≡ (d, [])

-- PKCS#7, of which only the last byte is looked at: it is the length, from 1 to 16.
pub record IsPadding (padding : Bytes) : Type 0 where
  pub one_or_more : 1 ≤ length padding
  pub at_most_block : length padding ≤ aes_block_len
  pub says_length : last_byte padding ≡ length padding

last_byte-drop : (n : ℕ) (xs : Bytes) → n < length xs → last_byte (drop n xs) ≡ last_byte xs
unfolding last_byte
last_byte-drop zero xs h = refl
last_byte-drop (suc n) [] h = absurd (omega (arith, h))
last_byte-drop (suc n) (x ∷ []) h = absurd (omega (arith, h))
last_byte-drop (suc n) (x ∷ y ∷ xs) h = last_byte-drop n (y ∷ xs) (omega (arith, h))

blocks-add :
    (m n : ℕ)
    → (m % aes_block_len == 0) ≡ true
    → (n % aes_block_len == 0) ≡ true
    → ((m + n) % aes_block_len == 0) ≡ true
blocks-add m n h k = ground arith

pub decrypt_blocks-ok :
    (cbc : CipherCrate) (dec : cbc.Decryptor) (span : Bytes) (plain : cbc.Decryptor × Bytes)
    → into_io cbc (decrypt_blocks cbc dec span) ≡ ok plain
    → plain ≡ cbc.decrypt dec span
unfolding decrypt_blocks
decrypt_blocks-ok cbc dec span plain h =
    elim (Bool-cases (not (length span % aes_block_len == 0))) [
      | inl tail ↦ let g = rw (decrypt_blocks, tail) at h in absurd (cc g)
      | inr even ↦ let g = rw (decrypt_blocks, even) at h in sym (ok-injective g)
    ]

module _ (cbc : CipherCrate) (reader : Reader) where
  -- Reads into buffers of these sizes: what they gave, and the reader.
  abbrev pub cbc_reads :
      List ℕ
      → CbcDecryptReader cbc reader
      → Result StreamError (Bytes × CbcDecryptReader cbc reader)
  cbc_reads [] r = ok ([], r)
  cbc_reads (n ∷ sizes) r = cbc_read cbc reader n r >>= λ first.
      cbc_reads sizes first.1 >>= λ later. ok (first.0 ++ later.0, later.1)

module _ (cbc : CipherCrate) (chains : Chains cbc) (reader : Reader) (rest : reader.State → Bytes)
    (gives : Gives reader rest) where
  abbrev R : Type 0
  R = CbcDecryptReader cbc reader

  -- What was released up to a reader, from a source and a cipher at its start: with what the reader
  -- holds, it is the decryption of all that was read.
  pub record Opened (src : reader.State) (dec : cbc.Decryptor) (out : Bytes) (r : R) : Type 0 where
    pub read : Bytes
    pub tail : Bytes
    pub blocks : IsBlocks read
    pub in_order : rest src ≡ read ++ rest r.src
    pub same_dec : r.dec ≡ (cbc.decrypt dec read).0
    pub whole : out ++ (r.buf ++ tail) ≡ (cbc.decrypt dec read).1
    pub held_back : r.is_finished ≡ false → tail ≡ held_bytes cbc reader r.held
    pub padded : r.is_finished ≡ true → IsPadding tail × (rest r.src ≡ [])

  -- Both ways `refill` ends.
  hold_back-Opened :
      (src : reader.State) (dec : cbc.Decryptor) (out span read : Bytes) (r next : R)
      (at_end : Bool)
      → IsBlocks read
      → rest src ≡ read ++ rest r.src
      → r.dec ≡ (cbc.decrypt dec read).0
      → r.is_finished ≡ false
      → out ++ span ≡ (cbc.decrypt dec read).1
      → (at_end ≡ true → rest r.src ≡ [])
      → hold_back cbc reader r span at_end ≡ ok next
      → Opened src dec out next
  unfolding hold_back
  hold_back-Opened src dec out span read r next true even order same going whole ended h =
      let pad = last_byte span in
      let (fits, last) =
        guard-ok (not (in_range 1 aes_block_len pad) || ltb (length span) pad) _ _ h in
      let cut = length span - pad in
      let d = length-drop cut span in
      let few : pad ≤ length span = ground arith in
      let some_pad : 1 ≤ pad = ground arith in
      let long : length (drop cut span) ≡ pad = omega (arith, d, few) in
      subst (Opened src dec out) (ok-injective last) (record {
        read = read;
        blocks = even;
        tail = drop cut span;
        in_order = order;
        same_dec = same;
        whole = ap (λ b. out ++ b) (take-drop cut span) ∙ whole;
        held_back = λ e. absurd (cc);
        padded = λ e. (
          record {
            one_or_more = omega (arith, long, some_pad);
            at_most_block = ground (arith, long);
            says_length = last_byte-drop cut span (omega (arith, few, some_pad)) ∙ sym long;
          },
          ended refl,
        );
      })
  hold_back-Opened src dec out span read r next false even order same going whole ended h =
      subst (Opened src dec out) (ok-injective h) (record {
        read = read;
        blocks = even;
        tail = drop (length span - aes_block_len) span;
        in_order = order;
        same_dec = same;
        whole = ap (λ b. out ++ b) (take-drop (length span - aes_block_len) span) ∙ whole;
        held_back = λ e. refl;
        padded = λ e. absurd (cc (e, going));
      })

  refill_blocks-Opened :
      (src : reader.State) (dec : cbc.Decryptor) (out : Bytes) (r next : R)
      → Opened src dec out r
      → r.buf ≡ []
      → r.is_finished ≡ false
      → refill_blocks cbc reader r ≡ ok next
      → Opened src dec out next
  unfolding refill_blocks decrypt_blocks
  refill_blocks-Opened src dec out r next o idle going h =
      let room = room_behind cbc reader (held_bytes cbc reader r.held) in
      let (got, h1, e) = >>=-ok (fill reader room r.src) _ h in
      let (even, h2) = guard-ok (not (length got.0 % aes_block_len == 0)) _ _ h1 in
      let (plain, h3, e2) = >>=-ok (into_io cbc (decrypt_blocks cbc r.dec got.0)) _ h2 in
      let (busy, h4) = guard-ok (length (held_bytes cbc reader r.held ++ plain.1) == 0) _ _ h3 in
      let opened = decrypt_blocks-ok cbc r.dec got.0 plain e2 in
      let span = held_bytes cbc reader r.held ++ plain.1 in
      let dec' : plain ≡ cbc.decrypt (cbc.decrypt dec o.read).0 got.0 =
        opened ∙ ap (λ d. cbc.decrypt d got.0) o.same_dec in
      let on = chains.runs_on dec o.read got.0 o.blocks (ground arith) in
      let l = length-append o.read got.0 in
      let together : IsBlocks (o.read ++ got.0) =
        ap (λ n. n % aes_block_len == 0) l
        ∙ blocks-add (length o.read) (length got.0) o.blocks (ground arith) in
      let before : out ++ held_bytes cbc reader r.held ≡ (cbc.decrypt dec o.read).1 =
        ap (λ b. out ++ b) (sym (o.held_back going))
        ∙ ap (λ (b : Bytes). out ++ (b ++ o.tail)) (sym idle)
        ∙ o.whole in
      hold_back-Opened src dec out span (o.read ++ got.0) (record r { src = got.1; dec = plain.0 })
        next (ltb (length got.0) room) together
        (o.in_order
          ∙ ap (λ b. o.read ++ b) (fill-in_order reader rest gives room r.src got.1 got.0 e)
          ∙ sym (append_assoc o.read got.0 (rest got.1)))
        (ap (λ (q : cbc.Decryptor × Bytes). q.0) dec'
          ∙ sym (ap (λ (q : cbc.Decryptor × Bytes). q.0) on))
        going
        (sym (append_assoc out (held_bytes cbc reader r.held) plain.1)
          ∙ ap (λ b. b ++ plain.1) before
          ∙ ap (λ (q : cbc.Decryptor × Bytes). (cbc.decrypt dec o.read).1 ++ q.1) dec'
          ∙ sym (ap (λ (q : cbc.Decryptor × Bytes). q.1) on))
        (λ short. fill-ended reader rest gives room r.src got.1 got.0 e (ground (arith, short))) h4

  await_plain-Opened :
      (fuel : ℕ) (src : reader.State) (dec : cbc.Decryptor) (out : Bytes) (r next : R)
      → Opened src dec out r
      → await_plain cbc reader fuel r ≡ ok next
      → Opened src dec out next × (is_empty next.buf ≡ true → next.is_finished ≡ true)
  unfolding await_plain
  await_plain-Opened zero src dec out r next o h = absurd (cc)
  await_plain-Opened (suc fuel) src dec out r next o h =
      elim (Bool-cases (not (is_empty r.buf) || r.is_finished)) [
        | inl stays ↦
            let g = rw (await_plain, stays) at h in
            subst (λ (q : R). Opened src dec out q × (is_empty q.buf ≡ true → q.is_finished ≡ true))
              (ok-injective g) (o, λ e. ground arith)
        | inr goes ↦
            let g = rw (await_plain, goes) at h in
            let (filled, later, e) = >>=-ok (refill_blocks cbc reader r) _ g in
            let idle : is_empty r.buf ≡ true = ground arith in
            let going : r.is_finished ≡ false = ground arith in
            await_plain-Opened fuel src dec out filled next
              (refill_blocks-Opened src dec out r filled o (none_there r.buf idle) going e) later
      ]
    where
      none_there : (b : Bytes) → is_empty b ≡ true → b ≡ []
      none_there [] e = refl
      none_there (x ∷ b) e = absurd (cc)

  cbc_read-Opened :
      (n : ℕ) (src : reader.State) (dec : cbc.Decryptor) (out more : Bytes) (r next : R)
      → Opened src dec out r
      → cbc_read cbc reader n r ≡ ok (more, next)
      → Opened src dec (out ++ more) next
        × (0 < n → more ≡ [] → (next.is_finished ≡ true) × (next.buf ≡ []))
  unfolding cbc_read
  cbc_read-Opened n src dec out more r next o h =
      let (ready, last, e) = >>=-ok (await_plain cbc reader 2 r) _ h in
      let (t, over) = await_plain-Opened 2 src dec out r ready o e in
      let count = if leb (length ready.buf) n then length ready.buf else n in
      subst
        (λ (q : Bytes × R).
          Opened src dec (out ++ q.0) q.1
          × (0 < n → q.0 ≡ [] → (q.1.is_finished ≡ true) × (q.1.buf ≡ [])))
        (ok-injective last)
        (
          record {
            read = t.read;
            blocks = t.blocks;
            tail = t.tail;
            in_order = t.in_order;
            same_dec = t.same_dec;
            whole =
                append_assoc out (take count ready.buf) (drop count ready.buf ++ t.tail)
                ∙ ap (λ b. out ++ b)
                    (sym (append_assoc (take count ready.buf) (drop count ready.buf) t.tail))
                ∙ ap (λ b. out ++ (b ++ t.tail)) (take-drop count ready.buf)
                ∙ t.whole;
            held_back = t.held_back;
            padded = t.padded;
          },
          λ room none.
              let empty = nothing ready.buf n room none in
              (over (ap is_empty empty), ap (drop count) empty ∙ drop-nil count),
        )
    where
      nothing :
          (b : Bytes) (n : ℕ)
          → 0 < n
          → take (if leb (length b) n then length b else n) b ≡ []
          → b ≡ []
      nothing [] n room e = refl
      nothing (x ∷ b) zero room e = absurd (omega (arith, room))
      nothing (x ∷ b) (suc n) room e = elim (Bool-cases (leb (length (x ∷ b)) (suc n))) [
        | inl fits ↦ let g = rw fits at e in absurd (cc g)
        | inr large ↦ let g = rw large at e in absurd (cc g)
      ]

      drop-nil : (n : ℕ) → drop {A = ℕ} n [] ≡ []
      drop-nil zero = refl
      drop-nil (suc n) = refl

  cbc_reads-Opened :
      (sizes : List ℕ) (src : reader.State) (dec : cbc.Decryptor) (out more : Bytes) (r next : R)
      → Opened src dec out r
      → cbc_reads cbc reader sizes r ≡ ok (more, next)
      → Opened src dec (out ++ more) next
  cbc_reads-Opened [] src dec out more r next o h =
      subst (λ (q : Bytes × R). Opened src dec (out ++ q.0) q.1) (ok-injective h)
        (subst (λ (b : Bytes). Opened src dec b r) (sym (append-nil out)) o)
  cbc_reads-Opened (n ∷ sizes) src dec out more r next o h =
      let (first, rest', e) = >>=-ok (cbc_read cbc reader n r) _ h in
      let (later, last, e2) = >>=-ok (cbc_reads cbc reader sizes first.1) _ rest' in
      let here = (cbc_read-Opened n src dec out first.0 r first.1 o e).0 in
      subst (λ (q : Bytes × R). Opened src dec (out ++ q.0) q.1) (ok-injective last)
        (subst (λ (b : Bytes). Opened src dec b later.1) (append_assoc out first.0 later.0)
          (cbc_reads-Opened sizes src dec (out ++ first.0) later.0 first.1 later.1 here e2))

  -- Where reads from a new reader succeed, and one into a buffer with room then gives nothing, they
  -- have given the decryption of the whole source, which is whole blocks, without its last bytes, 1
  -- to 16, as many as the last of them says; it is assumed that the reader does what it documents,
  -- and that the cipher's crate keeps the length of whole blocks and decrypts them part by part.
  pub cbc_reads-unpadded :
      (src : reader.State) (dec : cbc.Decryptor) (sizes : List ℕ) (out : Bytes) (r last : R) (n : ℕ)
      → cbc_reads cbc reader sizes (fresh_cbc cbc reader src dec) ≡ ok (out, r)
      → cbc_read cbc reader (suc n) r ≡ ok ([], last)
      → IsBlocks (rest src)
        × (padding : Bytes) × IsPadding padding
        × (out ++ padding ≡ (cbc.decrypt dec (rest src)).1)
  cbc_reads-unpadded src dec sizes out r last n h h' =
      let start : Opened src dec [] (fresh_cbc cbc reader src dec) = record {
        read = [];
        blocks = refl;
        tail = [];
        in_order = refl;
        same_dec = sym (ap (λ (q : cbc.Decryptor × Bytes). q.0) (chains.starts dec));
        whole = sym (ap (λ (q : cbc.Decryptor × Bytes). q.1) (chains.starts dec));
        held_back = λ e. refl;
        padded = λ e. absurd (cc);
      } in
      let o = cbc_reads-Opened sizes src dec [] out (fresh_cbc cbc reader src dec) r start h in
      let (t, over) = cbc_read-Opened (suc n) src dec out [] r last o h' in
      let (finished, empty) = over (omega arith) refl in
      let (padding, ended) = t.padded finished in
      let all : rest src ≡ t.read = t.in_order ∙ ap (λ b. t.read ++ b) ended ∙ append-nil t.read in
      (
        subst IsBlocks (sym all) t.blocks,
        t.tail,
        padding,
        ap (λ b. b ++ t.tail) (sym (append-nil out))
            ∙ ap (λ (b : Bytes). (out ++ []) ++ (b ++ t.tail)) (sym empty)
            ∙ t.whole
            ∙ ap (λ b. (cbc.decrypt dec b).1) (sym all),
      )
