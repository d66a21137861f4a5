-- ===== src/Base/Vec/Totals.antt =====
-- Sums of a weight over the elements of a `Vec`, and what its operations do to them.
use Prim.Native.Nat.{ℕ, zero, suc, ◌+◌, ◌<◌}
use mathlib.Core.Path.{◌≡◌, refl}
use mathlib.Core.Logic.{inl, inr}
use mathlib.Core.Bool.{Bool, true}
use mathlib.Core.List.{List, [], ◌∷◌, ◌++◌}
use mathlib.Core.Option.{none, some}
use native.Mathlib.Omega.{arith}
use libp2p_bittorrent_protoc.Base.Tests.{Bool-cases, Option-cases}
use libp2p_bittorrent_protoc.Base.Lists.{length, get_elem?, set}
use libp2p_bittorrent_protoc.Base.Vec.{
  push, pop, pop-none, pop_lem, remove_at, position, swap_remove,
}

module _ {ℓ} {A : Type ℓ} where
  unfoldable pub total : (A → ℕ) → List A → ℕ
  total f [] = 0
  total f (x ∷ xs) = f x + total f xs

  pub total-append : (f : A → ℕ) (xs ys : List A) → total f (xs ++ ys) ≡ total f xs + total f ys
  unfolding total
  total-append f [] ys = omega arith
  total-append f (x ∷ xs) ys = omega (arith, total-append f xs ys)

  pub total-push : (f : A → ℕ) (xs : List A) (x : A) → total f (push xs x) ≡ total f xs + f x
  unfolding total
  total-push f [] x = omega arith
  total-push f (y ∷ xs) x = omega (arith, total-push f xs x)

  pub total-length : (xs : List A) → total (λ x. 1) xs ≡ length xs
  unfolding total
  total-length [] = refl
  total-length (x ∷ xs) = omega (arith, total-length xs)

  total-set :
      (f : A → ℕ) (xs : List A) (i : ℕ) (x v : A)
      → get_elem? xs i ≡ some x
      → total f (set xs i v) + f x ≡ total f xs + f v
  unfolding total
  total-set f [] i x v h = ground arith
  total-set f (y ∷ xs) zero x v h = ground arith
  total-set f (y ∷ xs) (suc i) x v h = omega (arith, total-set f xs i x v h)

  -- the place of an element in `push front last`
  total-set-push :
      (f : A → ℕ) (front : List A) (last x : A) (i : ℕ)
      → get_elem? (push front last) i ≡ some x
      → total f (set front i last) + f x ≡ total f front + f last
  unfolding total
  total-set-push f [] last x zero h = ground arith
  total-set-push f [] last x (suc i) h = ground arith
  total-set-push f (y ∷ front) last x zero h = ground arith
  total-set-push f (y ∷ front) last x (suc i) h = omega (arith, total-set-push f front last x i h)

  pub total-swap_remove :
      (f : A → ℕ) (xs : List A) (i : ℕ) (x : A) (others : List A)
      → swap_remove xs i ≡ some (x, others)
      → total f xs ≡ f x + total f others
  total-swap_remove f xs i x others h = elim (Option-cases (pop xs)) [
    | inl e ↦ ground arith
    | inr ((front, last), e) ↦ elim (Option-cases (get_elem? xs i)) [
      | inl q ↦ ground arith
      | inr (y, q) ↦
          ground (
            arith,
            pop_lem xs front last e,
            total-set-push f front last x i,
            total-push f front last,
          )
    ]
  ]

  pub total-remove_at :
      (f : A → ℕ) (xs : List A) (i : ℕ) (x : A)
      → get_elem? xs i ≡ some x
      → total f xs ≡ f x + total f (remove_at xs i)
  unfolding total
  total-remove_at f [] i x h = ground arith
  total-remove_at f (y ∷ xs) zero x h = ground arith
  total-remove_at f (y ∷ xs) (suc i) x h = omega (arith, total-remove_at f xs i x h)

  pub get_elem?-lt : (xs : List A) (i : ℕ) → i < length xs → get_elem? xs i ≡ none → ⊥
  get_elem?-lt [] i h q = omega arith
  get_elem?-lt (x ∷ xs) zero h q = ground arith
  get_elem?-lt (x ∷ xs) (suc i) h q = ground (arith, get_elem?-lt xs i)

  pub swap_remove-lt : (xs : List A) (i : ℕ) → i < length xs → swap_remove xs i ≡ none → ⊥
  swap_remove-lt xs i h q = elim (Option-cases (pop xs)) [
    | inl e ↦ ground (arith, pop-none xs e)
    | inr ((front, last), e) ↦ elim (Option-cases (get_elem? xs i)) [
      | inl z ↦ get_elem?-lt xs i h z
      | inr (y, z) ↦ ground arith
    ]
  ]

  -- what a search finds
  pub position-some :
      (test : A → Bool) (xs : List A) (i : ℕ)
      → position test xs ≡ some i
      → (x : A) × (get_elem? xs i ≡ some x) × (test x ≡ true)
  position-some test [] i h = ground arith
  position-some test (x ∷ xs) i h = elim (Bool-cases (test x)) [
    | inl k ↦ (x, ground arith, k)
    | inr k ↦ elim (Option-cases (position test xs)) [
      | inl q ↦ ground arith
      | inr (j, q) ↦ let (y, g, t) = position-some test xs j q in (y, ground arith, t)
    ]
  ]
