-- ===== src/Units/Assertions.antt =====
-- What the unit tests of src assert.
use xorc_gateway.Base.{
  ℕ, ◌+◌, Bool, true, false, Option, none, some, List, [], ◌∷◌, Text, ◌==◌, text_eq, ℕ_eq, ℤ, pos,
  negsuc, Outcome, returned, panicked, if◌then◌else◌, leb, ◌&&◌, map,
}
use xorc_gateway.Crates.{HeaderMap, F64}
use xorc_gateway.Events.Event.{
  Value, null, boolean, number, string, array, object, Items, nil, cons, Fields, end, field,
}

-- `unwrap`, and what is asserted then.
abbrev pub check {ℓ} : {A : Type ℓ} → Option A → (A → Bool) → Bool
check none asserts = false
check (some a) asserts = asserts a

abbrev pub returns {ℓ} : {A : Type ℓ} → Outcome A → (A → Bool) → Bool
returns panicked asserts = false
returns (returned a) asserts = asserts a

-- `assert_eq!` on texts, integers and Booleans.
abbrev pub is_text : Option Text → Text → Bool
is_text none t = false
is_text (some s) t = s == t

abbrev pub is_int : Option ℤ → ℤ → Bool
is_int (some (pos m)) (pos n) = m == n
is_int (some (negsuc m)) (negsuc n) = m == n
is_int _ _ = false

abbrev pub is_bool : Option Bool → Bool → Bool
is_bool (some true) true = true
is_bool (some false) false = true
is_bool _ _ = false

-- A `HeaderMap` of the entries that were inserted; the case of a name does not count.
abbrev lower : ℕ → ℕ
lower b = if leb b'A' b && leb b b'Z' then b + 32 else b

abbrev find_header : Text → List (Text × Text) → Option Text
find_header name [] = none
find_header name ((key, value) ∷ entries) =
    if map lower key == map lower name then some value else find_header name entries

abbrev pub header_map : List (Text × Text) → HeaderMap
header_map entries = record { get = λ name. find_header name entries }

-- `json!` of a number that an `i64` holds, for its value as a float.
abbrev pub json_number : ℕ → Option F64 → Value
json_number n x = number (record { as_i64 = some (pos n); as_u64 = some n; as_f64 = x })

-- `assert_eq!` on documents that hold no numbers.
unfoldable mutual
  pub same_value : Value → Value → Bool
  same_value null null = true
  same_value (boolean true) (boolean true) = true
  same_value (boolean false) (boolean false) = true
  same_value (string s) (string t) = s == t
  same_value (array items) (array items') = same_items items items'
  same_value (object fields) (object fields') = same_fields fields fields'
  same_value _ _ = false

  pub same_items : Items → Items → Bool
  same_items nil nil = true
  same_items (cons v items) (cons w items') = same_value v w && same_items items items'
  same_items _ _ = false

  pub same_fields : Fields → Fields → Bool
  same_fields end end = true
  same_fields (field k v rest) (field l w rest') =
      k == l && (same_value v w && same_fields rest rest')
  same_fields _ _ = false
