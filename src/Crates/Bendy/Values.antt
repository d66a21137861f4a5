-- ===== src/Crates/Bendy/Values.antt =====
-- A concrete bencoder: its values are trees, which stand for their own bytes and objects, and its
-- errors are texts.
use libp2p_bittorrent_protoc.Base.{
  ℕ, suc, ◌≤◌, ◌<◌, ◌≡◌, refl, ap, inl, inr, true, List, [], ◌∷◌, map, ℤ, Result, ok, err, leb,
  if◌then◌else◌, All, IsIn, arith,
}
use libp2p_bittorrent_protoc.Crates.Bendy.{BendyTree, Encoder, IsReadBack, are_sorted}
use Prim.Native.Nat.{max}
use Prim.Native.String.{String}

mutual
  pub data Value : Type 0 where
    int : ℕ → Value
    i64 : ℤ → Value
    str : String → Value
    bytes : List ℕ → Value
    list : Items → Value
    dict : Fields → Value

  pub data Items : Type 0 where
    end : Items
    item : Value → Items → Items

  pub data Fields : Type 0 where
    stop : Fields
    field : List ℕ → Value → Fields → Fields

abbrev items : List Value → Items
items [] = end
items (v ∷ vs) = item v (items vs)

abbrev values : Items → List Value
values end = []
values (item v vs) = v ∷ values vs

abbrev fields : List (List ℕ × Value) → Fields
fields [] = stop
fields ((k, v) ∷ ps) = field k v (fields ps)

abbrev pairs : Fields → List (List ℕ × Value)
pairs stop = []
pairs (field k v ps) = (k, v) ∷ pairs ps

values-items : (vs : List Value) → values (items vs) ≡ vs
values-items [] = refl
values-items (v ∷ vs) = ap (λ l. v ∷ l) (values-items vs)

pairs-fields : (ps : List (List ℕ × Value)) → pairs (fields ps) ≡ ps
pairs-fields [] = refl
pairs-fields ((k, v) ∷ ps) = ap (λ l. (k, v) ∷ l) (pairs-fields ps)

unfoldable mutual
  pub levels : Value → ℕ
  levels (int n) = 0
  levels (i64 z) = 0
  levels (str s) = 0
  levels (bytes bs) = 0
  levels (list vs) = suc (item_levels vs)
  levels (dict ps) = suc (field_levels ps)

  item_levels : Items → ℕ
  item_levels end = 0
  item_levels (item v vs) = max (levels v) (item_levels vs)

  field_levels : Fields → ℕ
  field_levels stop = 0
  field_levels (field k v ps) = max (levels v) (field_levels ps)

item_deeper : (vs : List Value) (v : Value) → IsIn v vs → levels v ≤ item_levels (items vs)
unfolding levels
item_deeper [] v i = absurd i
item_deeper (w ∷ vs) v (inl e) = rw (e) (omega arith)
item_deeper (w ∷ vs) v (inr i) = omega (arith, item_deeper vs v i)

field_deeper :
    (ps : List (List ℕ × Value)) (v : Value) (k : List ℕ)
    → IsIn (k, v) ps
    → levels v ≤ field_levels (fields ps)
unfolding levels
field_deeper [] v k i = absurd i
field_deeper ((j, w) ∷ ps) v k (inl e) =
    let same : v ≡ w = ap (λ p. p.1) e in rw (same) (omega arith)
field_deeper ((j, w) ∷ ps) v k (inr i) = omega (arith, field_deeper ps v k i)

field_levels-le :
    (ps : List (List ℕ × Value)) (n : ℕ)
    → All (λ p. levels p.1 ≤ n) ps
    → field_levels (fields ps) ≤ n
unfolding levels
field_levels-le [] n a = omega arith
field_levels-le ((k, v) ∷ ps) n a = omega (arith, a.0, field_levels-le ps n a.1)

-- A value as bytes is itself, if it has no more levels than are allowed.
abbrev within : ℕ → Value → Result Value String
within n v = if leb (levels v) n then ok v else err "too deep"

abbrev emit_fields : List (List ℕ × Value) → Result Value String
emit_fields ps = if are_sorted ps then ok (dict (fields ps)) else err "not sorted"

emit_fields-ok :
    (ps : List (List ℕ × Value)) (v : Value)
    → emit_fields ps ≡ ok v
    → (are_sorted ps ≡ true) × (dict (fields ps) ≡ v)
emit_fields-ok ps v h = ground arith

pub sorted-emit_fields :
    (ps : List (List ℕ × Value)) → are_sorted ps ≡ true → (v : Value) × (emit_fields ps ≡ ok v)
sorted-emit_fields ps h = (dict (fields ps), rw (h) refl)

pub emit_fields-sorted :
    (ps : List (List ℕ × Value)) (v : Value) → emit_fields ps ≡ ok v → are_sorted ps ≡ true
emit_fields-sorted ps v h = (emit_fields-ok ps v h).0

pub levels-list : (vs : List Value) (v : Value) → IsIn v vs → levels v < levels (list (items vs))
unfolding levels
levels-list vs v i = omega (arith, item_deeper vs v i)

pub levels-list_pos : (vs : List Value) → 0 < levels (list (items vs))
unfolding levels
levels-list_pos vs = omega arith

pub levels-emit_fields :
    (ps : List (List ℕ × Value)) (v w : Value) (k : List ℕ)
    → emit_fields ps ≡ ok w
    → IsIn (k, v) ps
    → levels v < levels w
unfolding levels
levels-emit_fields ps v w k h i =
    let same = (emit_fields-ok ps w h).1 in rw (← same) (omega (arith, field_deeper ps v k i))

pub levels-emit_fields_le :
    (ps : List (List ℕ × Value)) (w : Value) (n : ℕ)
    → emit_fields ps ≡ ok w
    → All (λ p. levels p.1 ≤ n) ps
    → levels w ≤ suc n
unfolding levels
levels-emit_fields_le ps w n h a =
    let same = (emit_fields-ok ps w h).1 in rw (← same) (omega (arith, field_levels-le ps n a))

pub levels-int : (n : ℕ) → levels (int n) ≡ 0
unfolding levels
levels-int n = refl

pub levels-str : (s : String) → levels (str s) ≡ 0
unfolding levels
levels-str s = refl

pub levels-bytes : (bs : List ℕ) → levels (bytes bs) ≡ 0
unfolding levels
levels-bytes bs = refl

pub within-levels : (n : ℕ) (v bs : Value) → within n v ≡ ok bs → levels v ≤ n
within-levels n v bs h = ground arith

pub read_within : (n : ℕ) (v : Value) → levels v ≤ n → within n v ≡ ok v
read_within n v h = ground arith

abbrev pub value_encoder : Encoder Value Value String
value_encoder = record {
  emit_int = int;
  emit_i64 = i64;
  emit_str = str;
  emit_bytes = bytes;
  emit_list = λ vs. list (items vs);
  emit_dict = emit_fields;
  to_bencode = within;
  emit_dict-ok = sorted-emit_fields;
  emit_dict-sorted = emit_fields-sorted;
  depth = levels;
  depth-emit_list = levels-list;
  depth-emit_list_pos = levels-list_pos;
  depth-emit_dict = levels-emit_fields;
  depth-emit_dict_le = levels-emit_fields_le;
  depth-emit_int = levels-int;
  depth-emit_str = levels-str;
  depth-emit_bytes = levels-bytes;
  to_bencode-ok = λ n v h. (v, read_within n v h);
  to_bencode-deep = within-levels;
}

-- the parts of a value
abbrev pub pairs_of : Value → Result (List (Result (List ℕ × Value) String)) String
pairs_of (dict ps) = ok (map (λ p. ok p) (pairs ps))
pairs_of _ = err "not a dictionary"

abbrev pub values_of : Value → Result (List (Result Value String)) String
values_of (list vs) = ok (map (λ v. ok v) (values vs))
values_of _ = err "not a list"

abbrev pub bytes_of : Value → Result (List ℕ) String
bytes_of (bytes bs) = ok bs
bytes_of _ = err "not bytes"

abbrev pub text_of : Value → Result String String
text_of (str s) = ok s
text_of _ = err "not a text"

abbrev pub number_of : Value → Result ℕ String
number_of (int n) = ok n
number_of _ = err "not a number"

abbrev pub signed_of : Value → Result ℤ String
signed_of (i64 z) = ok z
signed_of _ = err "not a number"

abbrev pub value_reader : BendyTree Value Value String
value_reader = record {
  bendy = record {
    try_into_dictionary = pairs_of;
    try_into_bytes = bytes_of;
    decode_string = text_of;
    decode_usize = number_of;
    context = λ name e. e;
    unexpected_field = λ name. name;
    missing_field = λ name. name;
  };
  try_into_list = values_of;
  decode_u64 = number_of;
  decode_u32 = number_of;
  decode_i64 = signed_of;
  into_raw = λ v. ok v;
  read_object = within;
}

pub read_pairs :
    (ps : List (List ℕ × Value)) (v : Value)
    → emit_fields ps ≡ ok v
    → pairs_of v ≡ ok (map (λ p. ok (p.0, p.1)) ps)
read_pairs ps v h = let same = (emit_fields-ok ps v h).1 in rw (← same, pairs-fields ps) refl

pub read_values : (vs : List Value) → values_of (list (items vs)) ≡ ok (map (λ v. ok v) vs)
read_values vs = rw (values-items vs) refl

abbrev pub values_read_back : IsReadBack value_encoder value_reader (λ v. v) (λ v. v)
values_read_back = record {
  dict = read_pairs;
  list = read_values;
  u64 = λ n h. refl;
  u32 = λ n h. refl;
  i64 = λ z. refl;
  str = λ s. refl;
  bytes = λ bs. refl;
  into_raw = λ v. refl;
  read_object = read_within;
}
