-- ===== src/IoLatch/First.antt =====
-- src/io_latch.rs: what the latch holds at the end of a call.
use odf_crypto.Prelude.{
  Option, none, some, List, [], ◌∷◌, map, ◌≡◌, refl, ap, codes, unwrap_or, Result, ok, err,
}
use odf_crypto.IoLatch.{IoFailure, Latch, take_latched, record_failure, latched}

module _ {A : Type 0} where
  -- The answers of the inner reader, one after the other, through the latch.
  abbrev pub latched_all : Latch → List (Result IoFailure A) → Latch × List (Result IoFailure A)
  latched_all latch [] = (latch, [])
  latched_all latch (answer ∷ answers) =
      let first = latched latch answer in
      let rest = latched_all first.0 answers in (rest.0, first.1 ∷ rest.1)

  abbrev pub first_failure : List (Result IoFailure A) → Option IoFailure
  first_failure [] = none
  first_failure (ok a ∷ answers) = first_failure answers
  first_failure (err e ∷ answers) = some e

  -- An answer as the zip crate sees it: an error keeps its kind and loses its text.
  abbrev pub hidden : Result IoFailure A → Result IoFailure A
  hidden (ok a) = ok a
  hidden (err e) = err (record { kind = e.kind; message = codes "the reader failed" })

  full_latch :
      (held : IoFailure) (answers : List (Result IoFailure A))
      → (latched_all (some held) answers).0 ≡ some held
  unfolding latched record_failure
  full_latch held [] = refl
  full_latch held (ok a ∷ answers) = full_latch held answers
  full_latch held (err e ∷ answers) = full_latch held answers

  answers_hidden :
      (latch : Latch) (answers : List (Result IoFailure A))
      → (latched_all latch answers).1 ≡ map hidden answers
  unfolding latched record_failure
  answers_hidden latch [] = refl
  answers_hidden latch (ok a ∷ answers) =
      ap (λ (r : List (Result IoFailure A)). ok a ∷ r) (answers_hidden latch answers)
  answers_hidden latch (err e ∷ answers) =
      ap (λ (r : List (Result IoFailure A)). hidden (err e) ∷ r)
        (answers_hidden (some (unwrap_or latch e)) answers)

  first_held :
      (answers : List (Result IoFailure A)) → (latched_all none answers).0 ≡ first_failure answers
  unfolding latched record_failure
  first_held [] = refl
  first_held (ok a ∷ answers) = first_held answers
  first_held (err e ∷ answers) = full_latch e answers

  -- Whatever the inner reader answers, and however often it fails, the latch is taken with its first
  -- error and is empty then; every success is passed on, and every error with its kind alone.
  pub latched_all-first :
      (answers : List (Result IoFailure A))
      → ((take_latched (latched_all none answers).0).0 ≡ first_failure answers)
        × ((take_latched (latched_all none answers).0).1 ≡ none)
        × ((latched_all none answers).1 ≡ map hidden answers)
  unfolding take_latched
  latched_all-first answers = (first_held answers, refl, answers_hidden none answers)
