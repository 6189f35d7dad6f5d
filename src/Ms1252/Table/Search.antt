-- ===== src/Ms1252/Table/Search.antt =====
-- src/ms1252.rs: the binary search finds what a search from the first row on finds.
use odf_crypto.Prelude.{
  ℕ, zero, suc, ◌+◌, ◌-◌, ◌/◌, ◌≤◌, ◌<◌, Bool, true, ◌&&◌, Option, none, some, [], ◌∷◌, ◌≡◌, ◌≢◌,
  refl, arith, ltb, ◌==◌, if◌then◌else◌, length, Bool-cases, Option-cases, inl, inr,
}
use odf_crypto.Ms1252.Table.{Rows, row_at, search_loop, binary_search, to_char_ex, replace}

-- The first row that begins with `c`.
unfoldable pub lookup : Rows → ℕ → Option ℕ
lookup [] c = none
lookup ((k, b) ∷ rows) c = if k == c then some b else lookup rows c

abbrev pub keys_above : ℕ → Rows → Bool
keys_above low [] = true
keys_above low ((k, b) ∷ rows) = ltb low k && keys_above k rows

-- Each row begins with more than the one before it.
abbrev pub is_sorted : Rows → Bool
is_sorted [] = true
is_sorted ((k, b) ∷ rows) = keys_above k rows

keys_above-row_at :
    (low : ℕ) (rows : Rows) (j : ℕ)
    → keys_above low rows ≡ true
    → j < length rows
    → low < (row_at rows j).0
unfolding row_at
keys_above-row_at low [] j h l = absurd (omega arith)
keys_above-row_at low ((k, b) ∷ rows) zero h l = ground arith
keys_above-row_at low ((k, b) ∷ rows) (suc j) h l =
    let rest : low < k = ground arith in
    let more = keys_above-row_at k rows j (ground arith) (omega arith) in omega arith

is_sorted-row_at :
    (rows : Rows) (i j : ℕ)
    → is_sorted rows ≡ true
    → i < j
    → j < length rows
    → (row_at rows i).0 < (row_at rows j).0
unfolding row_at
is_sorted-row_at [] i j h l m = absurd (omega arith)
is_sorted-row_at (r ∷ rows) i zero h l m = absurd (omega arith)
is_sorted-row_at ((k, b) ∷ rows) zero (suc j) h l m = keys_above-row_at k rows j h (omega arith)
is_sorted-row_at ((k, b) ∷ []) (suc i) (suc j) h l m = absurd (omega arith)
is_sorted-row_at ((k, b) ∷ (k', b') ∷ rows) (suc i) (suc j) h l m =
    is_sorted-row_at ((k', b') ∷ rows) i j (ground arith) (omega arith) (omega arith)

left_of :
    (rows : Rows) (c k mid : ℕ)
    → is_sorted rows ≡ true
    → (row_at rows k).0 ≡ c
    → mid < length rows
    → k < length rows
    → c < (row_at rows mid).0
    → k < mid
left_of rows c k mid h at in_rows k_in less = elim (Bool-cases (ltb k mid)) [
  | inl e ↦ ground arith
  | inr e ↦ elim (Bool-cases (k == mid)) [
    | inl same ↦ let eq : k ≡ mid = ground arith in ground arith
    | inr other ↦
        let above = is_sorted-row_at rows mid k h (ground arith) k_in in
        absurd (omega (arith, above, at, less))
  ]
]

right_of :
    (rows : Rows) (c k mid : ℕ)
    → is_sorted rows ≡ true
    → (row_at rows k).0 ≡ c
    → mid < length rows
    → (row_at rows mid).0 ≤ c
    → mid ≤ k
right_of rows c k mid h at mid_in le = elim (Bool-cases (ltb k mid)) [
  | inr e ↦ ground arith
  | inl e ↦
      let above = is_sorted-row_at rows k mid h (ground arith) mid_in in
      absurd (omega (arith, above, at, le))
]

-- The search keeps the row of `c` between its bounds, and ends at it.
search_loop-finds :
    (rows : Rows) (c : ℕ) (k : ℕ)
    → is_sorted rows ≡ true
    → k < length rows
    → (row_at rows k).0 ≡ c
    → (fuel base size : ℕ) → size ≤ fuel
    → base ≤ k
    → k < base + size
    → base + size ≤ length rows
    → search_loop fuel rows c base size ≡ k
unfolding search_loop
search_loop-finds rows c k h in_rows at zero base size f lo hi top = absurd (omega arith)
search_loop-finds rows c k h in_rows at (suc fuel) base size f lo hi top =
    elim (Bool-cases (ltb 1 size)) [
      | inr e ↦ let one : size ≤ 1 = ground arith in rw (e, search_loop) (omega arith)
      | inl e ↦
          let mid : ℕ = base + size / 2 in
          let many : 1 < size = ground arith in
          elim (Bool-cases (ltb c (row_at rows mid).0)) [
            | inl less ↦
                let before : k < mid =
                  left_of rows c k mid h at (omega arith) in_rows (ground arith) in
                rw (e, less, search_loop)
                  (search_loop-finds rows c k h in_rows at fuel base (size - size / 2) (omega arith)
                    lo (omega arith) (omega arith))
            | inr more ↦
                let behind : mid ≤ k = right_of rows c k mid h at (omega arith) (ground arith) in
                rw (e, more, search_loop)
                  (search_loop-finds rows c k h in_rows at fuel mid (size - size / 2) (omega arith)
                    behind (omega arith) (omega arith))
          ]
    ]

absent :
    (rows : Rows) (c : ℕ) → lookup rows c ≡ none → (i : ℕ) → i < length rows → (row_at rows i).0 ≢ c
unfolding row_at lookup
absent [] c n i l e = omega arith
absent ((k, b) ∷ rows) c n zero l e = ground arith
absent ((k, b) ∷ rows) c n (suc i) l e = absent rows c (ground arith) i (omega arith) e

present :
    (rows : Rows) (c b : ℕ)
    → lookup rows c ≡ some b
    → (k : ℕ) × (k < length rows) × ((row_at rows k).0 ≡ c) × ((row_at rows k).1 ≡ b)
unfolding row_at lookup
present [] c b h = cc
present ((k, v) ∷ rows) c b h = elim (Bool-cases (k == c)) [
  | inl e ↦ (0, omega arith, ground arith, ground arith)
  | inr e ↦ let (i, l, at, v') = present rows c b (ground arith) in (suc i, omega arith, at, v')
]

search_loop-below :
    (fuel : ℕ) (rows : Rows) (c base size : ℕ)
    → 0 < size
    → search_loop fuel rows c base size < base + size
unfolding search_loop
search_loop-below zero rows c base size h = omega arith
search_loop-below (suc fuel) rows c base size h = elim (Bool-cases (ltb 1 size)) [
  | inr e ↦ rw (e, search_loop) (omega arith)
  | inl e ↦
      let many : 1 < size = ground arith in
      let mid : ℕ = base + size / 2 in
      elim (Bool-cases (ltb c (row_at rows mid).0)) [
        | inl less ↦
            let ih = search_loop-below fuel rows c base (size - size / 2) (omega arith) in
            rw (e, less, search_loop) (omega arith)
        | inr more ↦
            let ih = search_loop-below fuel rows c mid (size - size / 2) (omega arith) in
            rw (e, more, search_loop) (omega arith)
      ]
]

-- In a sorted table the binary search finds the row that a search from the first row on finds.
pub binary_search-lookup :
    (rows : Rows) (c : ℕ) → is_sorted rows ≡ true → binary_search rows c ≡ lookup rows c
unfolding binary_search lookup
binary_search-lookup [] c h = refl
binary_search-lookup (r ∷ rows) c h =
    let all = r ∷ rows in
    elim (Option-cases (lookup (r ∷ rows) c)) [
      | inl none_there ↦
          let below : search_loop (length (r ∷ rows)) (r ∷ rows) c 0 (length (r ∷ rows))
              < length (r ∷ rows) =
            omega
              (arith, search_loop-below (length (r ∷ rows)) (r ∷ rows) c 0 (length (r ∷ rows))) in
          let missed =
            absent (r ∷ rows) c none_there
              (search_loop (length (r ∷ rows)) (r ∷ rows) c 0 (length (r ∷ rows))) below in
          ground (arith, missed, none_there)
      | inr (b, there) ↦
          let (k, l, at, v) = present (r ∷ rows) c b there in
          let found =
            search_loop-finds (r ∷ rows) c k h l at (length (r ∷ rows)) 0 (length (r ∷ rows))
              (omega arith) (omega arith) (omega arith) (omega arith) in
          rw found (ground (arith, at, v, there))
    ]

pub to_char_ex_sorted : is_sorted to_char_ex ≡ true
to_char_ex_sorted = refl

pub replace_sorted : is_sorted replace ≡ true
replace_sorted = refl
