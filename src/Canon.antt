-- ===== src/Canon.antt =====
-- hub/record-canon-v1.mjs: the frozen text that every digest of a helm record is taken over.
use ainumbers_helm.Json.{Json, null, bool, num, str, arr, obj, Items, nil, cons, Fields, end, field}
use ainumbers_helm.Prelude.{
  ℕ, ◌+◌, ◌-◌, ◌*◌, ◌/◌, ◌%◌, ◌^◌, String, ◌≡◌, refl, Bool, true, false, not, ◌&&◌, ◌||◌, Option,
  none, some, List, [], ◌∷◌, ◌++◌, ltb, leb, ◌==◌, str_eq, if◌then◌else◌, keep,
}
use ainumbers_helm.Prelude.Bytes.{codes, decimal}

-- A code point as UTF-16 code units: the order of Array.prototype.sort is by these.
utf16_units : List ℕ → List ℕ
utf16_units [] = []
utf16_units (c ∷ cs) =
    let rest = utf16_units cs in
    if ltb c 0x10000
    then c ∷ rest
    else (0xd800 + (c - 0x10000) / 1024) ∷ (0xdc00 + (c - 0x10000) % 1024) ∷ rest

units_lt : List ℕ → List ℕ → Bool
units_lt _ [] = false
units_lt [] (d ∷ ds) = true
units_lt (c ∷ cs) (d ∷ ds) =
    let rest = units_lt cs ds in if ltb c d then true else if c == d then rest else false

-- a < b for two keys, as Object.keys(v).sort() compares them
unfoldable pub key_lt : String → String → Bool
unfolding utf16_units units_lt
key_lt a b = units_lt (utf16_units (codes a)) (utf16_units (codes b))

number_of : ℕ → List ℕ → Option ℕ
number_of acc [] = some acc
number_of acc (c ∷ cs) =
    let rest = number_of (acc * 10 + (c - b'0')) cs in
    if leb b'0' c && leb c b'9' then rest else none

below_limit : Option ℕ → Option ℕ
below_limit none = none
below_limit (some n) = if ltb n (2 ^ 32 - 1) then some n else none

index_of_codes : List ℕ → Option ℕ
unfolding number_of below_limit
index_of_codes [] = none
index_of_codes (c ∷ []) = below_limit (number_of 0 (c ∷ []))
index_of_codes (c ∷ d ∷ cs) = if c == b'0' then none else below_limit (number_of 0 (c ∷ d ∷ cs))

-- The value of an array-index name: these are enumerated first, in numeric order.
unfoldable pub array_index : String → Option ℕ
unfolding index_of_codes
array_index k = index_of_codes (codes k)

-- Enumeration order of the rebuilt object: indices by value, then the other keys as sorted.
enumerated_before : Option ℕ → Option ℕ → String → String → Bool
enumerated_before (some m) (some n) a b = ltb m n
enumerated_before (some m) none a b = true
enumerated_before none (some n) a b = false
enumerated_before none none a b = key_lt a b

unfoldable pub before : String → String → Bool
unfolding enumerated_before array_index key_lt
before a b = enumerated_before (array_index a) (array_index b) a b

abbrev pub Member : Type 0
Member = String × List ℕ

unfoldable pub place : Member → List Member → List Member
place m [] = m ∷ []
place m (n ∷ ns) = let rest = place m ns in if before m.0 n.0 then m ∷ n ∷ ns else n ∷ rest

unfoldable pub order : List Member → List Member
unfolding place
order [] = []
order (m ∷ ms) = place m (order ms)

-- `o["__proto__"] = v` sets the prototype, so the member leaves the text.
unfoldable pub visible : Member → Bool
visible m = not (str_eq m.0 "__proto__")

hex_digit : ℕ → ℕ
hex_digit n = if ltb n 10 then b'0' + n else b'a' + (n - 10)

escape : ℕ → List ℕ
unfolding hex_digit
escape c =
    if c == 34 || c == 92
    then 92 ∷ c ∷ []
    else if c == 8
    then codes "\\b"
    else if c == 9
    then codes "\\t"
    else if c == 10
    then codes "\\n"
    else if c == 12
    then codes "\\f"
    else if c == 13
    then codes "\\r"
    else if ltb c 32
    then codes "\\u00" ++ hex_digit (c / 16) ∷ hex_digit (c % 16) ∷ []
    else c ∷ []

escape_all : List ℕ → List ℕ
unfolding escape
escape_all [] = []
escape_all (c ∷ cs) = escape c ++ escape_all cs

-- JSON.stringify of a text
unfoldable pub quote : String → List ℕ
unfolding escape_all
quote s = 34 ∷ escape_all (codes s) ++ 34 ∷ []

join_members : List Member → List ℕ
join_members [] = []
join_members ((k, v) ∷ []) = quote k ++ b':' ∷ v
join_members ((k, v) ∷ m ∷ ms) = quote k ++ b':' ∷ v ++ b',' ∷ join_members (m ∷ ms)

unfoldable pub print_object : List Member → List ℕ
unfolding join_members quote order before visible
print_object ms = b'{' ∷ join_members (order (keep visible ms)) ++ b'}' ∷ []

join_items : List (List ℕ) → List ℕ
join_items [] = []
join_items (v ∷ []) = v
join_items (v ∷ w ∷ vs) = v ++ b',' ∷ join_items (w ∷ vs)

unfoldable mutual
  unfolding quote decimal print_object join_items

  pub canon : Json → List ℕ
  canon null = codes "null"
  canon (bool true) = codes "true"
  canon (bool false) = codes "false"
  canon (num n) = decimal n
  canon (str s) = quote s
  canon (arr xs) = b'[' ∷ join_items (canon_items xs) ++ b']' ∷ []
  canon (obj fs) = print_object (canon_fields fs)

  pub canon_items : Items → List (List ℕ)
  canon_items nil = []
  canon_items (cons x xs) = canon x ∷ canon_items xs

  pub canon_fields : Fields → List Member
  canon_fields end = []
  canon_fields (field k v fs) = (k, canon v) ∷ canon_fields fs

-- The text of a record, as code points.
unfoldable pub record_canon_v1 : Json → List ℕ
unfolding canon canon_items canon_fields
record_canon_v1 v = canon v

-- The two behaviours that hub/record-canon-v1.test.mjs pins.
canon_index_run :
    record_canon_v1 (obj (field "10" (num 2) (field "b" null (field "9" (num 1) end))))
    ≡ codes "{\"9\":1,\"10\":2,\"b\":null}"
unfolding record_canon_v1
canon_index_run = refl

canon_proto_run :
    record_canon_v1 (obj (field "__proto__" (obj (field "x" (num 1) end)) (field "a" (num 2) end)))
    ≡ codes "{\"a\":2}"
unfolding record_canon_v1
canon_proto_run = refl
