-- ===== src/Events/Json.antt =====
-- The `Deserialize` that serde_derive makes of the structs of src/events/input: how a struct and its
-- fields are read from a JSON document. A document is a `Value` whose entries are in the order of its
-- text, where a key may stand more than once.
pub mod Structs
pub mod Steps
pub mod Documents
pub mod Bounds
pub mod Entries
pub mod RoundTrip
use xorc_gateway.Base.{
  ℕ, zero, suc, ◌^◌, Bool, true, false, Option, none, some, List, [], ◌∷◌, Text, ◌==◌, text_eq,
  ℕ_eq, if◌then◌else◌, ltb, leb, ℤ, pos, negsuc, map_option,
}
use xorc_gateway.Crates.{Number}
use xorc_gateway.Events.Event.{
  Value, null, boolean, number, string, array, object, Items, nil, cons, Fields, end, field,
}

-- What a struct has for a field: a value; nothing, in an object; or nothing, at the end of an array.
pub data Slot : Type 0 where
  present : Value → Slot
  absent short : Slot

unfoldable pub has_key : Text → Fields → Bool
has_key name end = false
has_key name (field key v rest) = if key == name then true else has_key name rest

-- The value of a field in an object; a field that is there twice is an error.
unfoldable pub field_slot : Text → Fields → Option Slot
unfolding has_key
field_slot name end = some absent
field_slot name (field key v rest) =
    let later = field_slot name rest in
    if key == name then (if has_key name rest then none else some (present v)) else later

unfoldable pub item_slot : ℕ → Items → Slot
item_slot n nil = short
item_slot zero (cons v items) = present v
item_slot (suc n) (cons v items) = item_slot n items

-- A struct is read from an object by the names of its fields, or from an array by their order.
unfoldable pub slot : Value → Text → ℕ → Option Slot
unfolding field_slot item_slot
slot (object fields) name i = field_slot name fields
slot (array items) name i = some (item_slot i items)
slot _ name i = none

unfoldable pub count_items : Items → ℕ
count_items nil = 0
count_items (cons v items) = suc (count_items items)

-- An array has no more items than the struct has fields.
unfoldable pub check_length : ℕ → Value → Option (Unit {0})
unfolding count_items
check_length n (array items) = if leb (count_items items) n then some tt else none
check_length n _ = some tt

-- `?` on a result whose error is not looked at.
infixl 5 ◌>>=◌
unfoldable pub ◌>>=◌ : {A B : Type 0} → Option A → (A → Option B) → Option B
none >>= f = none
some a >>= f = f a

-- `String`, `bool` and `i32`
abbrev pub read_text : Value → Option Text
read_text (string s) = some s
read_text _ = none

abbrev pub read_bool : Value → Option Bool
read_bool (boolean b) = some b
read_bool _ = none

abbrev pub is_i32 : ℤ → Bool
is_i32 (pos n) = ltb n (2 ^ 31)
is_i32 (negsuc n) = ltb n (2 ^ 31)

unfoldable pub read_i32 : Value → Option ℤ
read_i32 (number n) = elim n.as_i64 [ none ↦ none | some i ↦ if is_i32 i then some i else none ]
read_i32 _ = none

-- A required field, a field of type `Option`, and a field with a default.
unfoldable pub required {ℓ} : {A : Type ℓ} → (Value → Option A) → Slot → Option A
required read (present v) = read v
required read absent = none
required read short = none

unfoldable pub optional {ℓ} : {A : Type ℓ} → (Value → Option A) → Slot → Option (Option A)
optional read (present null) = some none
optional read (present v) = map_option some (read v)
optional read absent = some none
optional read short = none

unfoldable pub defaulted {ℓ} : {A : Type ℓ} → A → (Value → Option A) → Slot → Option A
defaulted d read (present v) = read v
defaulted d read absent = some d
defaulted d read short = some d

-- The order of texts by their bytes, in which a `Map` of serde_json keeps its keys.
unfoldable pub text_lt : Text → Text → Bool
text_lt s [] = false
text_lt [] (b ∷ t) = true
text_lt (a ∷ s) (b ∷ t) = let rest = text_lt s t in if a == b then rest else ltb a b

-- `Map::insert`, which replaces the value of a key that is there.
unfoldable pub insert_entry : Text → Value → Fields → Fields
unfolding text_lt
insert_entry k v end = field k v end
insert_entry k v (field k' v' rest) =
    let later = field k' v' (insert_entry k v rest) in
    if k == k' then field k v rest else if text_lt k k' then field k v (field k' v' rest) else later

-- The `Value` and the `Map` that a document gives.
unfoldable mutual
  unfolding insert_entry

  pub to_value : Value → Value
  to_value (object fields) = object (collect fields end)
  to_value (array items) = array (to_items items)
  to_value null = null
  to_value (boolean b) = boolean b
  to_value (number n) = number n
  to_value (string s) = string s

  pub to_items : Items → Items
  to_items nil = nil
  to_items (cons v items) = cons (to_value v) (to_items items)

  pub collect : Fields → Fields → Fields
  collect end acc = acc
  collect (field k v rest) acc = collect rest (insert_entry k (to_value v) acc)

-- `Map<String, Value>`
unfoldable pub read_map : Value → Option Fields
unfolding collect
read_map (object fields) = some (collect fields end)
read_map _ = none
