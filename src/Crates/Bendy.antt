-- ===== src/Crates/Bendy.antt =====
-- Objects of the `bendy` package, as its decoders give them. `O` are its objects, `E` its errors.
pub mod Values
use libp2p_bittorrent_protoc.Base.{
  ℕ, suc, ℤ, ◌<◌, ◌≤◌, ◌≡◌, ◌^◌, map, All, Bool, true, false, ◌&&◌, List, [], ◌∷◌, Result, ok, ltb,
  ◌==◌, if◌then◌else◌, IsIn,
}
use Prim.Native.String.{String}
use Prim.Native.Char.{code}

-- The bytes of a text of ASCII characters.
abbrev pub codes : String → List ℕ
codes String.[] = []
codes (String.◌∷◌ c s) = code c ∷ codes s

-- `try_into_dictionary` with the results of `next_pair` up to the `None` or the first error, and what
-- the decoders of bytes, texts and numbers give. `context` adds a name to an error.
pub record Bendy (O E : Type 0) : Type 0 where
  pub try_into_dictionary : O → Result (List (Result (List ℕ × O) E)) E
  pub try_into_bytes : O → Result (List ℕ) E
  pub decode_string : O → Result String E
  pub decode_usize : O → Result ℕ E
  pub context : String → E → E
  pub unexpected_field : String → E
  pub missing_field : String → E

-- What the decoders of nested objects use besides: lists as `try_into_list` and `next_object` give
-- them, numbers of other widths, the bytes of a dictionary, and the object that bytes hold, with at
-- most so many levels of lists and dictionaries. `B` are strings of bytes.
pub record BendyTree (O B E : Type 0) : Type 0 where
  pub bendy : Bendy O E
  pub try_into_list : O → Result (List (Result O E)) E
  pub decode_u64 : O → Result ℕ E
  pub decode_u32 : O → Result ℕ E
  pub decode_i64 : O → Result ℤ E
  pub into_raw : O → Result B E
  pub read_object : ℕ → B → Result O E

-- Bytes in the order of the keys of a dictionary.
abbrev pub lt_bytes : List ℕ → List ℕ → Bool
lt_bytes [] [] = false
lt_bytes [] (y ∷ ys) = true
lt_bytes (x ∷ xs) [] = false
lt_bytes (x ∷ xs) (y ∷ ys) = if ltb x y then true else if x == y then lt_bytes xs ys else false

abbrev pub sorted_from : {V : Type 0} → List ℕ → List (List ℕ × V) → Bool
sorted_from k [] = true
sorted_from k ((j, v) ∷ ps) = lt_bytes k j && sorted_from j ps

abbrev pub are_sorted : {V : Type 0} → List (List ℕ × V) → Bool
are_sorted [] = true
are_sorted ((k, v) ∷ ps) = sorted_from k ps

-- The encoder of the package: `V` is what the calls for one value give. `to_bencode` gives the bytes of
-- a value that has at most so many levels.
pub record Encoder (V B E : Type 0) : Type 0 where
  pub emit_int : ℕ → V
  pub emit_i64 : ℤ → V
  pub emit_str : String → V
  pub emit_bytes : List ℕ → V
  pub emit_list : List V → V
  pub emit_dict : List (List ℕ × V) → Result V E
  pub to_bencode : ℕ → V → Result B E
  -- a dictionary is emitted if its keys are in order
  pub emit_dict-ok :
      (ps : List (List ℕ × V)) → are_sorted ps ≡ true → (v : V) × (emit_dict ps ≡ ok v)
  pub emit_dict-sorted :
      (ps : List (List ℕ × V)) (v : V) → emit_dict ps ≡ ok v → are_sorted ps ≡ true
  -- lists and dictionaries take a level, and all else takes none
  pub depth : V → ℕ
  pub depth-emit_list : (xs : List V) (v : V) → IsIn v xs → depth v < depth (emit_list xs)
  pub depth-emit_list_pos : (xs : List V) → 0 < depth (emit_list xs)
  pub depth-emit_dict :
      (ps : List (List ℕ × V)) (v w : V) (k : List ℕ)
      → emit_dict ps ≡ ok w
      → IsIn (k, v) ps
      → depth v < depth w
  pub depth-emit_dict_le :
      (ps : List (List ℕ × V)) (w : V) (n : ℕ)
      → emit_dict ps ≡ ok w
      → All (λ p. depth p.1 ≤ n) ps
      → depth w ≤ suc n
  pub depth-emit_int : (n : ℕ) → depth (emit_int n) ≡ 0
  pub depth-emit_str : (s : String) → depth (emit_str s) ≡ 0
  pub depth-emit_bytes : (bs : List ℕ) → depth (emit_bytes bs) ≡ 0
  pub to_bencode-ok : (n : ℕ) (v : V) → depth v ≤ n → (bs : B) × (to_bencode n v ≡ ok bs)
  pub to_bencode-deep : (n : ℕ) (v : V) (bs : B) → to_bencode n v ≡ ok bs → depth v ≤ n

-- What the decoder makes of what the encoder gave: `read` are the objects of the values, and `raw` their
-- bytes.
pub record IsReadBack {V O B E : Type 0} (encoder : Encoder V B E) (tree : BendyTree O B E)
    (read : V → O) (raw : V → B) : Type 0 where
  pub dict :
      (ps : List (List ℕ × V)) (v : V)
      → encoder.emit_dict ps ≡ ok v
      → tree.bendy.try_into_dictionary (read v) ≡ ok (map (λ p. ok (p.0, read p.1)) ps)
  pub list :
      (vs : List V)
      → tree.try_into_list (read (encoder.emit_list vs)) ≡ ok (map (λ v. ok (read v)) vs)
  pub u64 : (n : ℕ) → n < 2 ^ 64 → tree.decode_u64 (read (encoder.emit_int n)) ≡ ok n
  pub u32 : (n : ℕ) → n < 2 ^ 32 → tree.decode_u32 (read (encoder.emit_int n)) ≡ ok n
  pub i64 : (z : ℤ) → tree.decode_i64 (read (encoder.emit_i64 z)) ≡ ok z
  pub str : (s : String) → tree.bendy.decode_string (read (encoder.emit_str s)) ≡ ok s
  pub bytes : (bs : List ℕ) → tree.bendy.try_into_bytes (read (encoder.emit_bytes bs)) ≡ ok bs
  pub into_raw : (v : V) → tree.into_raw (read v) ≡ ok (raw v)
  pub read_object : (n : ℕ) (v : V) → encoder.depth v ≤ n → tree.read_object n (raw v) ≡ ok (read v)
