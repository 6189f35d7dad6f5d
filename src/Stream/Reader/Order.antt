-- ===== src/Stream/Reader/Order.antt =====
-- src/stream.rs: what `read_full` takes of a reader.
use odf_crypto.Prelude.{
  ℕ, zero, suc, ◌-◌, ◌≤◌, ◌<◌, true, false, [], ◌∷◌, ◌++◌, ◌≡◌, refl, sym, ap, ◌∙◌, subst, arith,
  Bytes, is_empty, length, length-append, Bool-cases, inl, inr, ok, >>=-ok, ok-injective,
}
use mathlib.Core.List.{append_assoc}
use odf_crypto.Stream.Reader.{Reader, Gives, fill, fill_loop}

module _ (reader : Reader) (rest : reader.State → Bytes) (gives : Gives reader rest) where
  none_there : (b : Bytes) → is_empty b ≡ true → b ≡ []
  none_there [] e = refl
  none_there (x ∷ b) e = absurd (cc)

  fill_loop-in_order :
      (fuel n : ℕ) (s next : reader.State) (got : Bytes)
      → fill_loop reader fuel n s ≡ ok (got, next)
      → rest s ≡ got ++ rest next
  unfolding fill_loop
  fill_loop-in_order zero n s next got h =
      subst (λ (q : Bytes × reader.State). rest s ≡ q.0 ++ rest q.1) (ok-injective h) refl
  fill_loop-in_order (suc fuel) zero s next got h =
      subst (λ (q : Bytes × reader.State). rest s ≡ q.0 ++ rest q.1) (ok-injective h) refl
  fill_loop-in_order (suc fuel) (suc n) s next got h =
      let (first, more, e) = >>=-ok (reader.read (suc n) s) _ h in
      let here = gives.in_order (suc n) s first.1 first.0 e in
      elim (Bool-cases (is_empty first.0)) [
        | inl empty ↦
            let g = rw empty at more in
            subst (λ (q : Bytes × reader.State). rest s ≡ q.0 ++ rest q.1) (ok-injective g)
              (here ∙ ap (λ b. b ++ rest first.1) (none_there first.0 empty))
        | inr some_got ↦
            let g = rw some_got at more in
            let (later, last, e2) =
              >>=-ok (fill_loop reader fuel (suc n - length first.0) first.1) _ g in
            subst (λ (q : Bytes × reader.State). rest s ≡ q.0 ++ rest q.1) (ok-injective last)
              (here
                ∙ ap (λ b. first.0 ++ b)
                    (fill_loop-in_order fuel (suc n - length first.0) first.1 later.1 later.0 e2)
                ∙ sym (append_assoc first.0 later.0 (rest later.1)))
      ]

  pub fill-in_order :
      (n : ℕ) (s next : reader.State) (got : Bytes)
      → fill reader n s ≡ ok (got, next)
      → rest s ≡ got ++ rest next
  unfolding fill
  fill-in_order n s next got h = fill_loop-in_order n n s next got h

  fill_loop-ended :
      (fuel n : ℕ) (s next : reader.State) (got : Bytes)
      → n ≤ fuel
      → fill_loop reader fuel n s ≡ ok (got, next)
      → length got < n
      → rest next ≡ []
  unfolding fill_loop
  fill_loop-ended zero n s next got enough h short = absurd (omega (arith, enough, short))
  fill_loop-ended (suc fuel) zero s next got enough h short = absurd (omega (arith, short))
  fill_loop-ended (suc fuel) (suc n) s next got enough h short =
      let (first, more, e) = >>=-ok (reader.read (suc n) s) _ h in
      elim (Bool-cases (is_empty first.0)) [
        | inl empty ↦
            let g = rw empty at more in
            let last =
              gives.at_end n s first.1
                (e ∙ ap (λ (b : Bytes). ok (b, first.1)) (none_there first.0 empty)) in
            ap (λ (q : Bytes × reader.State). rest q.1) (sym (ok-injective g)) ∙ last
        | inr some_got ↦
            let g = rw some_got at more in
            let (later, last, e2) =
              >>=-ok (fill_loop reader fuel (suc n - length first.0) first.1) _ g in
            let one = some_there first.0 some_got in
            let whole = ap (λ (q : Bytes × reader.State). length q.0) (ok-injective last) in
            let joined = length-append first.0 later.0 in
            ap (λ (q : Bytes × reader.State). rest q.1) (sym (ok-injective last))
            ∙ fill_loop-ended fuel (suc n - length first.0) first.1 later.1 later.0
                (omega (arith, enough, one)) e2 (omega (arith, short, whole, joined))
      ]
    where
      some_there : (b : Bytes) → is_empty b ≡ false → 0 < length b
      some_there [] e = absurd (cc)
      some_there (x ∷ b) e = omega arith

  pub fill-ended :
      (n : ℕ) (s next : reader.State) (got : Bytes)
      → fill reader n s ≡ ok (got, next)
      → length got < n
      → rest next ≡ []
  unfolding fill
  fill-ended n s next got h short = fill_loop-ended n n s next got (omega arith) h short
