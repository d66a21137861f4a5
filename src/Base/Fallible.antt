-- ===== src/Base/Fallible.antt =====
-- Code that may panic: an index out of bounds or a failed assertion ends the call.
use mathlib.Core.Path.{◌≡◌, refl}
use mathlib.Core.Logic.{◌⊎◌, inl, inr}
use mathlib.Core.List.{List, [], ◌∷◌}
use mathlib.Core.Option.{Option, none, some}

-- `done a` is the value that the call returns, `panic` that it unwinds.
pub data Outcome {ℓ} (A : Type ℓ) : Type ℓ where
  done : A → Outcome A
  panic : Outcome A

-- `Result<A, E>` of the standard library.
pub data Result {ℓ κ} (A : Type ℓ) (E : Type κ) : Type (ℓ ⊔ κ) where
  ok : A → Result A E
  err : E → Result A E

-- `Option::ok_or`, `Result::and_then` and `Result::map_err`
abbrev pub ok_or {ℓ κ} : {A : Type ℓ} {B : Type κ} → Option A → B → Result A B
ok_or none b = err b
ok_or (some a) b = ok a

abbrev pub and_then {ℓ κ μ} :
    {A : Type ℓ} {B : Type κ} {E : Type μ} → Result A E → (A → Result B E) → Result B E
and_then (ok a) f = f a
and_then (err e) f = err e

abbrev pub map_err {ℓ κ μ} :
    {A : Type ℓ} {E : Type κ} {F : Type μ} → (E → F) → Result A E → Result A F
map_err f (ok a) = ok a
map_err f (err e) = err (f e)

-- `collect` of results into a result, and `map` before it
abbrev pub collect {ℓ κ μ} :
    {A : Type ℓ} {B : Type κ} {E : Type μ} → (A → Result B E) → List A → Result (List B) E
collect f [] = ok []
collect f (x ∷ xs) = and_then (f x) (λ y. and_then (collect f xs) (λ ys. ok (y ∷ ys)))

-- `std::task::Poll`
pub data Poll {ℓ} (A : Type ℓ) : Type ℓ where
  pending : Poll A
  ready : A → Poll A

-- The outcome of a loop on fuel: also that the fuel is used up.
pub data Run {ℓ} (A : Type ℓ) : Type ℓ where
  returns : A → Run A
  panics exhausted : Run A

-- An indexing expression panics where the index is out of bounds.
abbrev pub index {ℓ} : {A : Type ℓ} → Option A → Outcome A
index none = panic
index (some a) = done a

abbrev pub bind {ℓ κ} : {A : Type ℓ} {B : Type κ} → Outcome A → (A → Outcome B) → Outcome B
bind (done a) f = f a
bind panic f = panic

pub Outcome-cases {ℓ} : {A : Type ℓ} (o : Outcome A) → (o ≡ panic) ⊎ ((a : A) × (o ≡ done a))
Outcome-cases panic = inl refl
Outcome-cases (done a) = inr (a, refl)

pub Result-cases {ℓ κ} :
    {A : Type ℓ} {E : Type κ} (r : Result A E) → ((e : E) × (r ≡ err e)) ⊎ ((a : A) × (r ≡ ok a))
Result-cases (err e) = inl (e, refl)
Result-cases (ok a) = inr (a, refl)

pub Run-cases {ℓ} :
    {A : Type ℓ} (r : Run A) → (r ≡ panics) ⊎ ((r ≡ exhausted) ⊎ ((a : A) × (r ≡ returns a)))
Run-cases panics = inl refl
Run-cases exhausted = inr (inl refl)
Run-cases (returns a) = inr (inr (a, refl))

pub Poll-cases {ℓ} : {A : Type ℓ} (p : Poll A) → (p ≡ pending) ⊎ ((a : A) × (p ≡ ready a))
Poll-cases pending = inl refl
Poll-cases (ready a) = inr (a, refl)
