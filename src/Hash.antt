-- ===== src/Hash.antt =====
-- `src/util.rs`: the SHA-1 wrapper. The digest itself is the `sha1` package's, a parameter.
use libp2p_bittorrent_protoc.Base.{
  ℕ, Bool, ◌&&◌, List, [], ◌∷◌, ltb, ◌==◌, if◌then◌else◌, length, take, Result, ok, err, Eq, ◌≡◌,
  ◌↔◌, true, eq_bytes, arith,
}

abbrev pub sha_hash_len : ℕ
sha_hash_len = 20

pub record ShaHash : Type 0 where
  pub hash : List ℕ

-- `TryFrom<&[u8]>`
unfoldable pub try_from : List ℕ → Result ShaHash (Unit {0})
try_from value =
    if ltb (length value) sha_hash_len
    then err tt
    else ok (record { hash = take sha_hash_len value })

-- `PartialEq<[u8]>`: the lengths agree, and the fold over the zipped bytes finds no difference.
fold_eq : Bool → List ℕ → List ℕ → Bool
fold_eq prev [] ys = prev
fold_eq prev (x ∷ xs) [] = prev
fold_eq prev (h ∷ xs) (o ∷ ys) = fold_eq (prev && h == o) xs ys

pub eq_slice : ShaHash → List ℕ → Bool
unfolding fold_eq
eq_slice sha other = fold_eq (length other == length sha.hash) sha.hash other

-- `derive(PartialEq)`
unfoldable pub eq_hash : ShaHash → ShaHash → Bool
eq_hash a b = eq_bytes a.hash b.hash

eq_bytes_iff : (xs ys : List ℕ) → (eq_bytes xs ys ≡ true) ↔ (xs ≡ ys)
eq_bytes_iff [] [] = ground arith
eq_bytes_iff [] (y ∷ ys) = ground arith
eq_bytes_iff (x ∷ xs) [] = ground arith
eq_bytes_iff (x ∷ xs) (y ∷ ys) = ground (arith, eq_bytes_iff xs ys)

pub eq_hash_iff : (a b : ShaHash) → (eq_hash a b ≡ true) ↔ (a ≡ b)
unfolding eq_hash
eq_hash_iff a b = ground (arith, eq_bytes_iff a.hash b.hash)

instance abbrev pub hash_eq : Eq ShaHash
unfolding eq_hash
hash_eq = record { eqb = eq_hash; eqb_iff = eq_hash_iff }
