-- ===== src/Tests/IoLatch.antt =====
-- src/io_latch.rs on concrete input.
use odf_crypto.Prelude.{ℕ, none, List, [], ◌∷◌, map, ◌≡◌, codes, Result, ok, err}
use odf_crypto.IoLatch.{IoFailure, take_latched}
use odf_crypto.IoLatch.First.{latched_all, first_failure, hidden, latched_all-first}

-- A read, a cancel, and a failure behind it.
abbrev answers : List (Result IoFailure ℕ)
answers =
    ok 4
    ∷ err (record { kind = codes "Interrupted"; message = codes "cancelled" })
    ∷ err (record { kind = codes "Other"; message = codes "gone" })
    ∷ []

latched_all-first_example :
    ((take_latched (latched_all none answers).0).0 ≡ first_failure answers)
    × ((take_latched (latched_all none answers).0).1 ≡ none)
    × ((latched_all none answers).1 ≡ map hidden answers)
latched_all-first_example = latched_all-first answers
