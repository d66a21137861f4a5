-- ===== src/Meta/Create/Blocks.antt =====
-- Bytes as pieces of one length and a shorter rest.
use libp2p_bittorrent_protoc.Base.{
  ℕ, zero, suc, ◌≤◌, ◌<◌, ◌≡◌, refl, List, [], ◌∷◌, ◌++◌, flat_map, All, arith, length, chunks,
  chunks-append, append_assoc, length-append, take_all, drop_all, chunks-nil,
}

abbrev pub flat : List (List ℕ) → List ℕ
flat blocks = flat_map (λ block. block) blocks

-- bytes as blocks of `p` and a shorter rest
pub record IsSplit (p : ℕ) (whole : List ℕ) (blocks : List (List ℕ)) (rest : List ℕ) : Type 0 where
  pub all : flat blocks ++ rest ≡ whole
  pub full : All (λ block. length block ≡ p) blocks
  pub short : length rest < p

abbrev pub last : List ℕ → List (List ℕ)
last [] = []
last (x ∷ xs) = (x ∷ xs) ∷ []

-- The blocks and the rest are the chunks.
pub chunks-IsSplit :
    (p fuel : ℕ) (blocks : List (List ℕ)) (rest : List ℕ)
    → All (λ block. length block ≡ suc p) blocks
    → length rest < suc p
    → length (flat blocks ++ rest) ≤ fuel
    → chunks fuel (suc p) (flat blocks ++ rest) ≡ blocks ++ last rest
chunks-IsSplit p zero [] [] a s h = refl
chunks-IsSplit p (suc fuel) [] [] a s h = refl
chunks-IsSplit p zero [] (x ∷ rest) a s h = absurd (omega (arith, h))
chunks-IsSplit p (suc fuel) [] (x ∷ rest) a s h =
    rw
      (
        take_all p rest (omega (arith, s)),
        drop_all p rest (omega (arith, s)),
        chunks-nil {A = ℕ} fuel (suc p),
      )
      refl
chunks-IsSplit p zero (block ∷ blocks) rest a s h = absurd (
    omega
      (arith, h, a.0, length-append block (flat blocks), length-append (block ++ flat blocks) rest))
chunks-IsSplit p (suc fuel) (block ∷ blocks) rest a s h =
    let shorter : length (flat blocks ++ rest) ≤ fuel = omega (
      arith,
      h,
      a.0,
      length-append block (flat blocks),
      length-append (block ++ flat blocks) rest,
      length-append (flat blocks) rest,
    ) in
    rw
      (
        append_assoc block (flat blocks) rest,
        chunks-append fuel p block (flat blocks ++ rest) a.0,
        chunks-IsSplit p fuel blocks rest a.1 s shorter,
      )
      refl
