-- ===== src/Classify/Names/Valid.antt =====
-- src/classify.rs: `is_valid_zip_entry_file_name` against the pieces of a name between its slashes.
use odf_crypto.Prelude.{
  ℕ, Bool, true, false, not, ◌&&◌, ◌||◌, List, [], ◌∷◌, Str, codes, str_eq, ◌==◌, if◌then◌else◌,
}
use odf_crypto.Classify.Names.{Dots, other, one_or_two, one_more, is_forbidden, is_unprintable}

-- A character that a name may have.
abbrev pub is_allowed : ℕ → Bool
is_allowed c = not (is_forbidden c) && not (is_unprintable c)

abbrev pub all_allowed : Str → Bool
all_allowed [] = true
all_allowed (c ∷ s) = is_allowed c && all_allowed s

abbrev pub leading_slash : Str → Bool
leading_slash [] = false
leading_slash (c ∷ s) = c == b'/'

-- "." and ".."
abbrev pub is_dots : Str → Bool
is_dots p = str_eq p (codes ".") || str_eq p (codes "..")

abbrev pub no_dots : List Str → Bool
no_dots [] = true
no_dots (p ∷ ps) = not (is_dots p) && no_dots ps

-- The dots at the end of a piece.
abbrev dots_from : Dots → Str → Dots
dots_from d [] = d
dots_from d (c ∷ s) = dots_from (if c == b'.' then one_more d else other) s

abbrev pieces_from : Dots → List Str → Bool
pieces_from d [] = true
pieces_from d (p ∷ ps) = not (one_or_two (dots_from d p)) && no_dots ps
