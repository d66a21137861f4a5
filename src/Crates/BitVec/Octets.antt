-- ===== src/Crates/BitVec/Octets.antt =====
-- Bits in bytes, the high-order bit first: how `bit_vec` documents `from_bytes` and `to_bytes`.
use libp2p_bittorrent_protoc.Base.{
  ℕ, ◌+◌, ◌*◌, ◌/◌, ◌%◌, ◌≤◌, ◌≡◌, refl, Bool, true, false, List, [], ◌∷◌, arith, ◌==◌, length,
  take, ap, ◌∙◌, ltb, if◌then◌else◌,
}

abbrev bit : Bool → ℕ
bit true = 1
bit false = 0

octet : Bool → Bool → Bool → Bool → Bool → Bool → Bool → Bool → ℕ
octet a b c d e f g h =
    bit a * 128 + bit b * 64 + bit c * 32 + bit d * 16 + bit e * 8 + bit f * 4 + bit g * 2 + bit h

abbrev pub bits_of : List ℕ → List Bool
bits_of [] = []
bits_of (n ∷ ns) =
    (n / 128 % 2 == 1)
    ∷ (n / 64 % 2 == 1)
    ∷ (n / 32 % 2 == 1)
    ∷ (n / 16 % 2 == 1)
    ∷ (n / 8 % 2 == 1)
    ∷ (n / 4 % 2 == 1)
    ∷ (n / 2 % 2 == 1)
    ∷ (n % 2 == 1)
    ∷ bits_of ns

-- The last byte is filled up with zeros.
unfoldable pub bytes_of : List Bool → List ℕ
unfolding octet
bytes_of [] = []
bytes_of (a ∷ []) = octet a false false false false false false false ∷ []
bytes_of (a ∷ b ∷ []) = octet a b false false false false false false ∷ []
bytes_of (a ∷ b ∷ c ∷ []) = octet a b c false false false false false ∷ []
bytes_of (a ∷ b ∷ c ∷ d ∷ []) = octet a b c d false false false false ∷ []
bytes_of (a ∷ b ∷ c ∷ d ∷ e ∷ []) = octet a b c d e false false false ∷ []
bytes_of (a ∷ b ∷ c ∷ d ∷ e ∷ f ∷ []) = octet a b c d e f false false ∷ []
bytes_of (a ∷ b ∷ c ∷ d ∷ e ∷ f ∷ g ∷ []) = octet a b c d e f g false ∷ []
bytes_of (a ∷ b ∷ c ∷ d ∷ e ∷ f ∷ g ∷ h ∷ rest) = octet a b c d e f g h ∷ bytes_of rest

eq_bit : (x : ℕ) (a : Bool) → x ≡ bit a → (x == 1) ≡ a
eq_bit x true e = ground arith
eq_bit x false e = ground arith

bit-le : (a : Bool) → bit a ≤ 1
bit-le true = omega arith
bit-le false = omega arith

bits_of-octet :
    (a b c d e f g h : Bool) (ns : List ℕ)
    → bits_of (octet a b c d e f g h ∷ ns) ≡ a ∷ b ∷ c ∷ d ∷ e ∷ f ∷ g ∷ h ∷ bits_of ns
bits_of-octet a b c d e f g h ns = cc (
  eq_bit (octet a b c d e f g h / 128 % 2) a (unfold octet in omega (arith, bit-le)),
  eq_bit (octet a b c d e f g h / 64 % 2) b (unfold octet in omega (arith, bit-le)),
  eq_bit (octet a b c d e f g h / 32 % 2) c (unfold octet in omega (arith, bit-le)),
  eq_bit (octet a b c d e f g h / 16 % 2) d (unfold octet in omega (arith, bit-le)),
  eq_bit (octet a b c d e f g h / 8 % 2) e (unfold octet in omega (arith, bit-le)),
  eq_bit (octet a b c d e f g h / 4 % 2) f (unfold octet in omega (arith, bit-le)),
  eq_bit (octet a b c d e f g h / 2 % 2) g (unfold octet in omega (arith, bit-le)),
  eq_bit (octet a b c d e f g h % 2) h (unfold octet in omega (arith, bit-le)),
)

-- Reading the bytes back and cutting the filled-in bits off gives the bits.
pub take-bits_of : (l : List Bool) → take (length l) (bits_of (bytes_of l)) ≡ l
unfolding bytes_of
take-bits_of [] = refl
take-bits_of (a ∷ []) = ap (take 1) (bits_of-octet a false false false false false false false [])
take-bits_of (a ∷ b ∷ []) = ap (take 2) (bits_of-octet a b false false false false false false [])
take-bits_of (a ∷ b ∷ c ∷ []) = ap (take 3) (bits_of-octet a b c false false false false false [])
take-bits_of (a ∷ b ∷ c ∷ d ∷ []) = ap (take 4) (bits_of-octet a b c d false false false false [])
take-bits_of (a ∷ b ∷ c ∷ d ∷ e ∷ []) = ap (take 5) (bits_of-octet a b c d e false false false [])
take-bits_of (a ∷ b ∷ c ∷ d ∷ e ∷ f ∷ []) = ap (take 6) (bits_of-octet a b c d e f false false [])
take-bits_of (a ∷ b ∷ c ∷ d ∷ e ∷ f ∷ g ∷ []) = ap (take 7) (bits_of-octet a b c d e f g false [])
take-bits_of (a ∷ b ∷ c ∷ d ∷ e ∷ f ∷ g ∷ h ∷ rest) =
    let r = bytes_of rest in
    ap (take (length (a ∷ b ∷ c ∷ d ∷ e ∷ f ∷ g ∷ h ∷ rest))) (bits_of-octet a b c d e f g h r)
    ∙ ap (λ t. a ∷ b ∷ c ∷ d ∷ e ∷ f ∷ g ∷ h ∷ t) (take-bits_of rest)

-- The number of bytes, in the form in which the codec computes it.
pub length-bytes_of :
    (l : List Bool)
    → length (bytes_of l) ≡ (if ltb 0 (length l % 8) then length l / 8 + 1 else length l / 8)
unfolding bytes_of
length-bytes_of [] = refl
length-bytes_of (a ∷ []) = refl
length-bytes_of (a ∷ b ∷ []) = refl
length-bytes_of (a ∷ b ∷ c ∷ []) = refl
length-bytes_of (a ∷ b ∷ c ∷ d ∷ []) = refl
length-bytes_of (a ∷ b ∷ c ∷ d ∷ e ∷ []) = refl
length-bytes_of (a ∷ b ∷ c ∷ d ∷ e ∷ f ∷ []) = refl
length-bytes_of (a ∷ b ∷ c ∷ d ∷ e ∷ f ∷ g ∷ []) = refl
length-bytes_of (a ∷ b ∷ c ∷ d ∷ e ∷ f ∷ g ∷ h ∷ rest) = ground (arith, length-bytes_of rest)
