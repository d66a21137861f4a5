-- ===== src/Base/Map/Counts.antt =====
-- How often keys and values stand in a map, before and after each operation.
use Prim.Native.Nat.{suc, ◌+◌, ◌≤◌}
use mathlib.Core.Path.{◌≡◌, refl}
use mathlib.Core.Logic.{inl, inr}
use mathlib.Core.List.{List, [], ◌∷◌}
use mathlib.Core.Option.{none, some}
use native.Mathlib.Omega.{arith}
use libp2p_bittorrent_protoc.Base.Tests.{Eq, same, same_iff, if◌then◌else◌, Bool-cases}
use libp2p_bittorrent_protoc.Base.Vec.{count, hit}
use libp2p_bittorrent_protoc.Base.Lists.{length}
use libp2p_bittorrent_protoc.Base.Map.{get, insert, remove, keys, values}

module _ {ℓ κ} {K : Type ℓ} {V : Type κ} ⦃e : Eq K⦄ where
  pub count_of_get : (k : K) (m : List (K × V)) → get k m ≡ none → count k (keys m) ≡ 0
  unfolding get
  count_of_get k [] h = refl
  count_of_get k ((j, v) ∷ m) h = ground (arith, count_of_get k m)

  pub get_of_count : (k : K) (m : List (K × V)) → count k (keys m) ≡ 0 → get k m ≡ none
  unfolding get
  get_of_count k [] h = refl
  get_of_count k ((j, v) ∷ m) h = ground (arith, get_of_count k m)

  pub remove_absent : (k : K) (m : List (K × V)) → count k (keys m) ≡ 0 → remove k m ≡ m
  unfolding remove
  remove_absent k [] h = refl
  remove_absent k ((j, v) ∷ m) h = ground (arith, remove_absent k m)

  pub count-keys-remove :
      (k j : K) (m : List (K × V))
      → count j (keys (remove k m)) ≡ (if same k j then 0 else count j (keys m))
  unfolding remove
  count-keys-remove k j [] = ground arith
  count-keys-remove k j ((i, v) ∷ m) =
      ground (arith, same_iff i k, same_iff i j, same_iff k j, count-keys-remove k j m)

  pub count-values-remove :
      ⦃f : Eq V⦄ (k : K) (v a : V) (m : List (K × V))
      → count k (keys m) ≤ 1
      → get k m ≡ some v
      → count a (values m) ≡ count a (values (remove k m)) + hit v a
  unfolding get remove
  count-values-remove k v a [] h g = cc
  count-values-remove k v a ((j, w) ∷ m) h g = elim (Bool-cases (same j k)) [
    | inl y ↦ ground (arith, remove_absent k m)
    | inr n ↦ ground (arith, count-values-remove k v a m)
  ]

  pub length-values-remove :
      (k : K) (v : V) (m : List (K × V))
      → count k (keys m) ≤ 1
      → get k m ≡ some v
      → length (values m) ≡ suc (length (values (remove k m)))
  unfolding get remove
  length-values-remove k v [] h g = cc
  length-values-remove k v ((j, w) ∷ m) h g = elim (Bool-cases (same j k)) [
    | inl y ↦ ground (arith, remove_absent k m)
    | inr n ↦ ground (arith, length-values-remove k v m)
  ]

  pub count-keys-insert :
      (k j : K) (v : V) (m : List (K × V))
      → get k m ≡ none
      → count j (keys (insert k v m)) ≡ count j (keys m) + hit k j
  unfolding get insert
  count-keys-insert k j v [] h = ground arith
  count-keys-insert k j v ((i, w) ∷ m) h = ground (arith, count-keys-insert k j v m)

  pub count-values-insert :
      ⦃f : Eq V⦄ (k : K) (v a : V) (m : List (K × V))
      → get k m ≡ none
      → count a (values (insert k v m)) ≡ count a (values m) + hit v a
  unfolding get insert
  count-values-insert k v a [] h = ground arith
  count-values-insert k v a ((i, w) ∷ m) h = ground (arith, count-values-insert k v a m)

  pub length-values-insert :
      (k : K) (v : V) (m : List (K × V))
      → get k m ≡ none
      → length (values (insert k v m)) ≡ suc (length (values m))
  unfolding get insert
  length-values-insert k v [] h = refl
  length-values-insert k v ((i, w) ∷ m) h = ground (arith, length-values-insert k v m)

  -- Where the key is there already its old value is replaced.
  pub count-values-replace :
      ⦃f : Eq V⦄ (k : K) (v old a : V) (m : List (K × V))
      → get k m ≡ some old
      → count a (values (insert k v m)) + hit old a ≡ count a (values m) + hit v a
  unfolding get insert
  count-values-replace k v old a [] h = cc
  count-values-replace k v old a ((i, w) ∷ m) h = elim (Bool-cases (same i k)) [
    | inl y ↦ ground arith
    | inr n ↦ ground (arith, count-values-replace k v old a m)
  ]
