-- ===== src/Prelude/Outcome.antt =====
-- `Result<A, E>` with its early return `?` as a bind.
use mathlib.Core.Path.{◌≡◌, refl, subst}
use mathlib.Core.Logic.{◌⊎◌, inl, inr}
use mathlib.Core.Bool.{Bool, true, false, not, ◌&&◌}

pub data Result {ℓ} (E A : Type ℓ) : Type ℓ where
  ok : A → Result E A
  err : E → Result E A

infixl 5 ◌>>=◌ ◌>>◌
abbrev pub ◌>>=◌ {ℓ} : {E A B : Type ℓ} → Result E A → (A → Result E B) → Result E B
ok a >>= f = f a
err e >>= f = err e

abbrev pub ◌>>◌ {ℓ} : {E B : Type ℓ} → Result E (Unit {ℓ}) → Result E B → Result E B
m >> k = m >>= λ _. k

-- `map_err`
abbrev pub map_err {ℓ} : {E F A : Type ℓ} → (E → F) → Result E A → Result F A
map_err f (ok a) = ok a
map_err f (err e) = err (f e)

abbrev pub is_ok {ℓ} : {E A : Type ℓ} → Result E A → Bool
is_ok (ok a) = true
is_ok (err e) = false

-- `if test { return Err(e) }`
abbrev pub refuse_if {ℓ} : {E : Type ℓ} → Bool → E → Result E (Unit {ℓ})
refuse_if true e = err e
refuse_if false e = ok tt

-- A chain that ends well went through its first part.
pub >>=-ok {ℓ} :
    {E A B : Type ℓ} {last : B} (first : Result E A) (next : A → Result E B)
    → first >>= next ≡ ok last
    → (middle : A) × (next middle ≡ ok last) × (first ≡ ok middle)
>>=-ok (ok middle) next ends = (middle, ends, refl)
>>=-ok (err e) next ends = cc

pub >>=-unit {ℓ} : {E A : Type ℓ} (r : Result E A) → r >>= (λ a. ok a) ≡ r
>>=-unit (ok a) = refl
>>=-unit (err e) = refl

pub >>=-assoc {ℓ} :
    {E A B C : Type ℓ} (r : Result E A) (f : A → Result E B) (g : B → Result E C)
    → r >>= (λ a. f a >>= g) ≡ (r >>= f) >>= g
>>=-assoc (ok a) f g = refl
>>=-assoc (err e) f g = refl

pub >>=-same {ℓ} :
    {E A B : Type ℓ} (r : Result E A) (f g : A → Result E B)
    → ((a : A) → r ≡ ok a → f a ≡ g a)
    → r >>= f ≡ r >>= g
>>=-same (ok a) f g h = h a refl
>>=-same (err e) f g h = refl

-- A guard passes exactly when its test fails.
pub guard-ok {ℓ} :
    {E B : Type ℓ} (test : Bool) (e : E) (rest : Result E B) {b : B}
    → refuse_if test e >> rest ≡ ok b
    → (test ≡ false) × (rest ≡ ok b)
guard-ok true e rest h = cc
guard-ok false e rest h = (refl, h)

pub ok-guard {ℓ} :
    {E B : Type ℓ} (test : Bool) (e : E) (rest : Result E B) {b : B}
    → test ≡ false
    → rest ≡ ok b
    → refuse_if test e >> rest ≡ ok b
ok-guard true e rest h k = cc
ok-guard false e rest h k = k

-- `P` holds of the value, if there is one.
abbrev pub Returns {ℓ κ} : {E A : Type ℓ} → (A → Type κ) → Result E A → Type κ
Returns P (ok a) = P a
Returns P (err e) = Unit

pub is_ok->> {ℓ} :
    {E B : Type ℓ} (first : Result E (Unit {ℓ})) (rest : Result E B)
    → is_ok (first >> rest) ≡ (is_ok first && is_ok rest)
is_ok->> (ok u) rest = refl
is_ok->> (err e) rest = refl

pub is_ok-refuse_if {ℓ} : {E : Type ℓ} (test : Bool) (e : E) → is_ok (refuse_if test e) ≡ not test
is_ok-refuse_if true e = refl
is_ok-refuse_if false e = refl

-- `P` holds of the error, if there is one.
abbrev pub Refuses {ℓ κ} : {E A : Type ℓ} → (E → Type κ) → Result E A → Type κ
Refuses P (ok a) = Unit
Refuses P (err e) = P e

-- A chain refuses by its first part or by what follows a value of that part.
pub Refuses->>= {ℓ κ} :
    {E A B : Type ℓ} (P : E → Type κ) (first : Result E A) (next : A → Result E B)
    → Refuses P first
    → ((a : A) → first ≡ ok a → Refuses P (next a))
    → Refuses P (first >>= next)
Refuses->>= P (ok a) next h k = k a refl
Refuses->>= P (err e) next h k = h

pub Refuses-refuse_if {ℓ κ} :
    {E : Type ℓ} (P : E → Type κ) (test : Bool) (e : E)
    → (test ≡ true → P e)
    → Refuses P (refuse_if test e)
Refuses-refuse_if P true e h = h refl
Refuses-refuse_if P false e h = tt

-- A guard refuses by its own error or lets the rest decide.
pub Refuses-guard {ℓ κ} :
    {E B : Type ℓ} (P : E → Type κ) (test : Bool) (e : E) (rest : Result E B)
    → (test ≡ true → P e)
    → Refuses P rest
    → Refuses P (refuse_if test e >> rest)
Refuses-guard P true e rest h k = h refl
Refuses-guard P false e rest h k = k

pub Refuses-map_err {ℓ κ} :
    {E F A : Type ℓ} (P : F → Type κ) (f : E → F) (r : Result E A)
    → Refuses (λ e. P (f e)) r
    → Refuses P (map_err f r)
Refuses-map_err P f (ok a) h = tt
Refuses-map_err P f (err e) h = h

module _ {ℓ κ} {E A : Type ℓ} (P : A → Type κ) where
  pub Returns-ok : (r : Result E A) {a : A} → Returns P r → r ≡ ok a → P a
  Returns-ok (ok b) h e = subst P (cc e) h
  Returns-ok (err x) h e = cc

  pub of_Returns : (r : Result E A) → ((a : A) → r ≡ ok a → P a) → Returns P r
  of_Returns (ok a) h = h a refl
  of_Returns (err e) h = tt

pub Result-cases {ℓ} :
    {E A : Type ℓ} (r : Result E A) → ((a : A) × (r ≡ ok a)) ⊎ ((e : E) × (r ≡ err e))
Result-cases (ok a) = inl (a, refl)
Result-cases (err e) = inr (e, refl)

pub ok-injective {ℓ} : {E A : Type ℓ} {a b : A} → ◌≡◌ {A = Result E A} (ok a) (ok b) → a ≡ b
ok-injective h = cc

pub err-injective {ℓ} : {E A : Type ℓ} {a b : E} → ◌≡◌ {A = Result E A} (err a) (err b) → a ≡ b
err-injective h = cc
