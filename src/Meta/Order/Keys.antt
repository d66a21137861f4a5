-- ===== src/Meta/Order/Keys.antt =====
-- Dictionaries whose keys are in order, as the encoder of the package wants them.
use libp2p_bittorrent_protoc.Base.{
  inl, inr, ℕ, ◌≡◌, refl, true, List, [], ◌∷◌, ◌++◌, Option, none, some, arith, ◌==◌, Bool-cases,
}
use libp2p_bittorrent_protoc.Crates.Bendy.{Encoder, lt_bytes, are_sorted, sorted_from, codes}
use libp2p_bittorrent_protoc.Meta.Encode.{optional, non_empty}
use Prim.Native.String.{String}

lt_bytes_trans :
    (xs ys zs : List ℕ) → lt_bytes xs ys ≡ true → lt_bytes ys zs ≡ true → lt_bytes xs zs ≡ true
lt_bytes_trans [] [] zs h g = absurd (ground (arith, h))
lt_bytes_trans [] (y ∷ ys) [] h g = absurd (ground (arith, g))
lt_bytes_trans [] (y ∷ ys) (z ∷ zs) h g = refl
lt_bytes_trans (x ∷ xs) [] zs h g = absurd (ground (arith, h))
lt_bytes_trans (x ∷ xs) (y ∷ ys) [] h g = absurd (ground (arith, g))
lt_bytes_trans (x ∷ xs) (y ∷ ys) (z ∷ zs) h g = elim (Bool-cases (x == y)) [
  | inl e ↦ elim (Bool-cases (y == z)) [
    | inl f ↦ ground (arith, lt_bytes_trans xs ys zs)
    | inr f ↦ ground arith
  ]
  | inr e ↦ ground arith
]

pub sorted_later :
    {V : Type 0} (k : List ℕ) (ps : List (List ℕ × V))
    → sorted_from k ps ≡ true
    → are_sorted ps ≡ true
sorted_later k [] h = refl
sorted_later k ((j, v) ∷ ps) h = ground arith

sorted_below :
    {V : Type 0} (j k : List ℕ) (ps : List (List ℕ × V))
    → lt_bytes j k ≡ true
    → sorted_from k ps ≡ true
    → sorted_from j ps ≡ true
sorted_below j k [] h s = refl
sorted_below j k ((i, v) ∷ ps) h s = ground (arith, lt_bytes_trans j k i h)

module _ {V B E : Type 0} (encoder : Encoder V B E) where
  pub sorted-optional :
      {A : Type 0} (k : List ℕ) (name : String) (f : A → V) (o : Option A) (ps : List (List ℕ × V))
      → lt_bytes k (codes name) ≡ true
      → sorted_from (codes name) ps ≡ true
      → sorted_from k (optional encoder name f o ++ ps) ≡ true
  sorted-optional k name f none ps h s = sorted_below k (codes name) ps h s
  sorted-optional k name f (some a) ps h s = rw (h, s) refl

  -- the first pair of a dictionary
  pub first_optional :
      {A : Type 0} (name : String) (f : A → V) (o : Option A) (ps : List (List ℕ × V))
      → sorted_from (codes name) ps ≡ true
      → are_sorted (optional encoder name f o ++ ps) ≡ true
  first_optional name f none ps s = sorted_later (codes name) ps s
  first_optional name f (some a) ps s = s

  pub sorted-non_empty :
      {A : Type 0} (k : List ℕ) (name : String) (f : A → V) (xs : List A) (ps : List (List ℕ × V))
      → lt_bytes k (codes name) ≡ true
      → sorted_from (codes name) ps ≡ true
      → sorted_from k (non_empty encoder name f xs ++ ps) ≡ true
  sorted-non_empty k name f [] ps h s = sorted_below k (codes name) ps h s
  sorted-non_empty k name f (x ∷ xs) ps h s = rw (h, s) refl
