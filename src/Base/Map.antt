-- ===== src/Base/Map.antt =====
-- `HashMap` of the standard library as an association list in the order of its iteration.
pub mod Counts
use mathlib.Core.Path.{◌≡◌, refl}
use mathlib.Core.Bool.{Bool, true, false}
use mathlib.Core.Logic.{◌↔◌}
use mathlib.Core.List.{List, [], ◌∷◌}
use mathlib.Core.Option.{Option, none, some}
use native.Mathlib.Omega.{arith}
use libp2p_bittorrent_protoc.Base.Tests.{Eq, same, same_iff, if◌then◌else◌}

module _ {ℓ κ} {K : Type ℓ} {V : Type κ} ⦃e : Eq K⦄ where
  unfoldable pub get : K → List (K × V) → Option V
  get k [] = none
  get k ((j, v) ∷ m) = if same j k then some v else get k m

  -- A present key keeps its place.
  unfoldable pub insert : K → V → List (K × V) → List (K × V)
  insert k v [] = (k, v) ∷ []
  insert k v ((j, w) ∷ m) = if same j k then (k, v) ∷ m else (j, w) ∷ insert k v m

  unfoldable pub remove : K → List (K × V) → List (K × V)
  remove k [] = []
  remove k ((j, w) ∷ m) = if same j k then remove k m else (j, w) ∷ remove k m

  unfoldable pub contains_key : K → List (K × V) → Bool
  contains_key k [] = false
  contains_key k ((j, w) ∷ m) = if same j k then true else contains_key k m

  pub get-insert :
      (k j : K) (v : V) (m : List (K × V))
      → get j (insert k v m) ≡ (if same k j then some v else get j m)
  unfolding get insert
  get-insert k j v [] = refl
  get-insert k j v ((i, w) ∷ m) =
      ground (arith, same_iff k j, same_iff i k, same_iff i j, get-insert k j v m)

  pub get-remove :
      (k j : K) (m : List (K × V)) → get j (remove k m) ≡ (if same k j then none else get j m)
  unfolding get remove
  get-remove k j [] = ground arith
  get-remove k j ((i, w) ∷ m) =
      ground (arith, same_iff k j, same_iff i k, same_iff i j, get-remove k j m)

  pub contains_key-insert :
      (k j : K) (a : V) (m : List (K × V))
      → contains_key j (insert k a m) ≡ (if same k j then true else contains_key j m)
  unfolding contains_key insert
  contains_key-insert k j a [] = refl
  contains_key-insert k j a ((i, w) ∷ m) =
      ground (arith, same_iff i k, same_iff i j, same_iff k j, contains_key-insert k j a m)

  pub contains_key-remove :
      (k j : K) (m : List (K × V))
      → contains_key j (remove k m) ≡ (if same k j then false else contains_key j m)
  unfolding contains_key remove
  contains_key-remove k j [] = ground arith
  contains_key-remove k j ((i, w) ∷ m) =
      ground (arith, same_iff i k, same_iff i j, same_iff k j, contains_key-remove k j m)

  pub contains_key-get : (k : K) (m : List (K × V)) → (get k m ≡ none) ↔ (contains_key k m ≡ false)
  unfolding contains_key get
  contains_key-get k [] = ground arith
  contains_key-get k ((i, w) ∷ m) = ground (arith, contains_key-get k m)

abbrev pub values {ℓ κ} : {K : Type ℓ} {V : Type κ} → List (K × V) → List V
values [] = []
values ((k, v) ∷ m) = v ∷ values m

abbrev pub keys {ℓ κ} : {K : Type ℓ} {V : Type κ} → List (K × V) → List K
keys [] = []
keys ((k, v) ∷ m) = k ∷ keys m
