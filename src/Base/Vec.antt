-- ===== src/Base/Vec.antt =====
-- `Vec` of the standard library: elements are pushed and popped at the end of the list.
pub mod Totals
use Prim.Native.Nat.{ℕ, zero, suc, ◌+◌}
use mathlib.Core.Path.{◌≡◌, refl, ap, ◌∙◌}
use mathlib.Core.Logic.{inl, inr}
use mathlib.Core.Bool.{Bool}
use mathlib.Core.List.{List, [], ◌∷◌, ◌++◌}
use mathlib.Core.Option.{Option, none, some}
use native.Mathlib.Omega.{arith}
use libp2p_bittorrent_protoc.Base.Tests.{
  Eq, same, same_iff, if◌then◌else◌, Bool-cases, Option-cases,
}
use libp2p_bittorrent_protoc.Base.Lists.{length, length-append, get_elem?, set}

abbrev pub push {ℓ} : {A : Type ℓ} → List A → A → List A
push xs x = xs ++ (x ∷ [])

-- the last element and what stands before it
abbrev pub pop {ℓ} : {A : Type ℓ} → List A → Option (List A × A)
pop [] = none
pop (x ∷ xs) = elim (pop xs) [ none ↦ some ([], x) | some (front, y) ↦ some (x ∷ front, y) ]

-- `remove(i)`, for an index in bounds
abbrev pub remove_at {ℓ} : {A : Type ℓ} → List A → ℕ → List A
remove_at [] i = []
remove_at (x ∷ xs) zero = xs
remove_at (x ∷ xs) (suc i) = x ∷ remove_at xs i

-- `swap_remove(i)`: the element, and the others with the last one in its place; none out of bounds.
abbrev pub swap_remove {ℓ} : {A : Type ℓ} → List A → ℕ → Option (A × List A)
swap_remove xs i = elim (pop xs) [
  | none ↦ none
  | some (front, last) ↦ elim (get_elem? xs i) [ none ↦ none | some x ↦ some (x, set front i last) ]
]

-- `iter().position(test)`
abbrev pub position {ℓ} : {A : Type ℓ} → (A → Bool) → List A → Option ℕ
position test [] = none
position test (x ∷ xs) =
    if test x then some zero else elim (position test xs) [ none ↦ none | some i ↦ some (suc i) ]

pub pop-none {ℓ} : {A : Type ℓ} (xs : List A) → pop xs ≡ none → xs ≡ []
pop-none [] h = refl
pop-none (x ∷ xs) h = ground arith

pub pop_lem {ℓ} :
    {A : Type ℓ} (xs front : List A) (y : A) → pop xs ≡ some (front, y) → xs ≡ front ++ (y ∷ [])
pop_lem [] front y h = cc
pop_lem (x ∷ xs) front y h = elim (Option-cases (pop xs)) [
  | inl e ↦ ground (arith, pop-none xs)
  | inr ((f, z), e) ↦ ground (arith, pop_lem xs f z)
]

pub length-push {ℓ} : {A : Type ℓ} (xs : List A) (x : A) → length (push xs x) ≡ suc (length xs)
length-push xs x = omega (arith, length-append xs (x ∷ []))

pub length-pop {ℓ} :
    {A : Type ℓ} (xs front : List A) (y : A)
    → pop xs ≡ some (front, y)
    → length xs ≡ suc (length front)
length-pop xs front y h = ap length (pop_lem xs front y h) ∙ length-push front y

module _ {ℓ} {A : Type ℓ} ⦃e : Eq A⦄ where
  abbrev pub count : A → List A → ℕ
  count a [] = 0
  count a (x ∷ xs) = if same x a then suc (count a xs) else count a xs

  -- 1 for the element itself
  abbrev pub hit : A → A → ℕ
  hit x a = if same x a then 1 else 0

  pub count-append : (a : A) (xs ys : List A) → count a (xs ++ ys) ≡ count a xs + count a ys
  count-append a [] ys = omega arith
  count-append a (x ∷ xs) ys = ground (arith, count-append a xs ys)

  pub count-push : (a : A) (xs : List A) (x : A) → count a (push xs x) ≡ count a xs + hit x a
  count-push a xs x = ground (arith, count-append a xs (x ∷ []))

  pub count-pop :
      (a : A) (xs front : List A) (y : A)
      → pop xs ≡ some (front, y)
      → count a xs ≡ count a front + hit y a
  count-pop a xs front y h = ap (count a) (pop_lem xs front y h) ∙ count-push a front y

  pub count-remove_at :
      (a p : A) (xs : List A) (i : ℕ)
      → position (λ x. same x p) xs ≡ some i
      → count a xs ≡ count a (remove_at xs i) + hit p a
  count-remove_at a p [] i h = cc
  count-remove_at a p (x ∷ xs) i h = elim (Bool-cases (same x p)) [
    | inl k ↦ ground (arith, same_iff x p)
    | inr k ↦ elim (Option-cases (position (λ z. same z p) xs)) [
      | inl q ↦ ground arith
      | inr (j, q) ↦ ground (arith, count-remove_at a p xs j q)
    ]
  ]

  pub position-none : (p : A) (xs : List A) → position (λ x. same x p) xs ≡ none → count p xs ≡ 0
  position-none p [] h = refl
  position-none p (x ∷ xs) h = ground (arith, position-none p xs)

pub length-remove_at {ℓ} :
    {A : Type ℓ} (test : A → Bool) (xs : List A) (i : ℕ)
    → position test xs ≡ some i
    → length xs ≡ suc (length (remove_at xs i))
length-remove_at test [] i h = cc
length-remove_at test (x ∷ xs) i h = elim (Bool-cases (test x)) [
  | inl k ↦ ground arith
  | inr k ↦ elim (Option-cases (position test xs)) [
    | inl q ↦ ground arith
    | inr (j, q) ↦ ground (arith, length-remove_at test xs j q)
  ]
]
