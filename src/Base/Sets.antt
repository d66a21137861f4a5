-- ===== src/Base/Sets.antt =====
-- `HashSet` of the standard library as a list without repetition, in the order of its iteration.
use mathlib.Core.Bool.{Bool, true, false}
use mathlib.Core.List.{List, [], ◌∷◌, ◌++◌}
use libp2p_bittorrent_protoc.Base.Tests.{Eq, same, if◌then◌else◌}

module _ {ℓ} {A : Type ℓ} ⦃e : Eq A⦄ where
  unfoldable pub contains : A → List A → Bool
  contains a [] = false
  contains a (x ∷ xs) = if same x a then true else contains a xs

  unfoldable pub insert : A → List A → List A
  unfolding contains
  insert a xs = if contains a xs then xs else xs ++ (a ∷ [])

  unfoldable pub remove : A → List A → List A
  remove a [] = []
  remove a (x ∷ xs) = if same x a then remove a xs else x ∷ remove a xs

  unfoldable pub extend : List A → List A → List A
  unfolding insert
  extend xs [] = xs
  extend xs (y ∷ ys) = extend (insert y xs) ys
