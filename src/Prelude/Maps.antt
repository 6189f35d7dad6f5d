-- ===== src/Prelude/Maps.antt =====
-- `HashMap<String, V>` as an association list: one entry for a key, the newest first. The program
-- never iterates over such a map.
use mathlib.Core.Path.{◌≡◌}
use mathlib.Core.Bool.{Bool}
use mathlib.Core.Option.{Option, none, some}
use mathlib.Core.List.{List, [], ◌∷◌}
use native.Mathlib.Omega.{arith}
use odf_crypto.Prelude.Bools.{if◌then◌else◌, is_some}
use odf_crypto.Prelude.Text.{Str, str_eq, str_eq_iff}

abbrev pub Assoc {ℓ} : Type ℓ → Type ℓ
Assoc V = List (Str × V)

module _ {ℓ} {V : Type ℓ} where
  unfoldable pub get : Str → Assoc V → Option V
  get k [] = none
  get k ((j, v) ∷ m) = if str_eq j k then some v else get k m

  unfoldable pub remove : Str → Assoc V → Assoc V
  remove k [] = []
  remove k ((j, v) ∷ m) = let rest = remove k m in if str_eq j k then rest else (j, v) ∷ rest

  unfoldable pub insert : Str → V → Assoc V → Assoc V
  unfolding remove
  insert k v m = (k, v) ∷ remove k m

  unfoldable pub contains_key : Str → Assoc V → Bool
  unfolding get
  contains_key k m = is_some (get k m)

  pub get-remove :
      (j k : Str) (m : Assoc V) → get j (remove k m) ≡ (if str_eq k j then none else get j m)
  unfolding get remove
  get-remove j k [] = ground arith
  get-remove j k ((i, v) ∷ m) =
      ground (arith, get-remove j k m, str_eq_iff i k, str_eq_iff i j, str_eq_iff k j)

  pub get-insert :
      (j k : Str) (v : V) (m : Assoc V)
      → get j (insert k v m) ≡ (if str_eq k j then some v else get j m)
  unfolding get insert
  get-insert j k v m = ground (arith, get-remove j k m)
