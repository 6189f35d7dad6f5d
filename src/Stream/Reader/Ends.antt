-- ===== src/Stream/Reader/Ends.antt =====
-- src/stream.rs: `read_full` ends where its reader does.
use odf_crypto.Prelude.{
  ℕ, zero, suc, ◌-◌, is_empty, length, Bool-cases, inl, inr, Refuses, Refuses->>=,
}
use odf_crypto.Stream.Deflate.Ends.{HasEnded}
use odf_crypto.Stream.Reader.{Reader, fill, fill_loop}

module _ (reader : Reader)
    (reads : (n : ℕ) (s : reader.State) → Refuses HasEnded (reader.read n s)) where
  fill_loop-HasEnded :
      (fuel n : ℕ) (s : reader.State) → Refuses HasEnded (fill_loop reader fuel n s)
  unfolding fill_loop
  fill_loop-HasEnded zero n s = tt
  fill_loop-HasEnded (suc fuel) zero s = tt
  fill_loop-HasEnded (suc fuel) (suc n) s =
      Refuses->>= HasEnded (reader.read (suc n) s) _ (reads (suc n) s) (λ first e.
        elim (Bool-cases (is_empty first.0)) [
          | inl empty ↦ rw empty tt
          | inr some_got ↦ rw some_got (
              Refuses->>= HasEnded (fill_loop reader fuel (suc n - length first.0) first.1) _
                (fill_loop-HasEnded fuel (suc n - length first.0) first.1) (λ later e2. tt))
        ])

  pub fill-HasEnded : (n : ℕ) (s : reader.State) → Refuses HasEnded (fill reader n s)
  unfolding fill
  fill-HasEnded n s = fill_loop-HasEnded n n s
