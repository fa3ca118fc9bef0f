-- ===== src/Events/Event/Leaves.antt =====
-- The properties of an event, src/events/input/sdk_event.rs, against the leaves of its document.
use mathlib.Core.List.{append_assoc, append-nil}
use mathlib.Core.Path.{fun_ext}
use xorc_gateway.Base.{
  ◌≡◌, refl, ap, ◌∙◌, Bool, some, List, [], ◌∷◌, ◌++◌, map, Text, text, Outcome, returned, and_then,
  Outcome-cases, and_then_returned, inl, inr,
}
use xorc_gateway.Crates.{Casts, Number}
use xorc_gateway.Events.Event.{
  Value, null, boolean, number, string, array, object, Fields, end, field, Property, string_value,
  bool_value, number_value, number_as_f64, flatten_value, flatten_properties, SdkEvent, properties,
}

-- What a property can hold.
pub data Scalar : Type 0 where
  text_of : Text → Scalar
  bool_of : Bool → Scalar
  number_of : Number → Scalar

-- The leaves of a document with their paths, in order; a path below an entry starts with its key.
-- Nulls and arrays are no leaves.
unfoldable mutual
  pub leaves_below : Value → List (List Text × Scalar)
  leaves_below (string s) = ([], text_of s) ∷ []
  leaves_below (boolean b) = ([], bool_of b) ∷ []
  leaves_below (number n) = ([], number_of n) ∷ []
  leaves_below (object fs) = leaves fs
  leaves_below null = []
  leaves_below (array items) = []

  pub leaves : Fields → List (List Text × Scalar)
  leaves end = []
  leaves (field k v rest) = map (λ (path, s). (k ∷ path, s)) (leaves_below v) ++ leaves rest

-- The key for the rest of a path below an entry, for the entry's prefix and prefixed key: each level
-- puts the prefix and the prefixed key before it, and `__` behind.
unfoldable pub key_below : Text → Text → List Text → Text
key_below prefix prefixed_key [] = prefixed_key
key_below prefix prefixed_key (k ∷ path) =
    let below = prefix ++ (prefixed_key ++ text "__") in key_below below (below ++ k) path

-- The key for a path from a prefix on.
unfoldable pub key_for : Text → List Text → Text
unfolding key_below
key_for prefix [] = prefix
key_for prefix (k ∷ path) = key_below prefix (prefix ++ k) path

module _ (casts : Casts) where
  unfoldable pub emit : Text → Scalar → Outcome Property
  emit key (text_of s) = returned (record { key = key; type_ = some (string_value s) })
  emit key (bool_of b) = returned (record { key = key; type_ = some (bool_value b) })
  emit key (number_of n) =
      and_then (number_as_f64 casts n)
        λ x. returned (record { key = key; type_ = some (number_value x) })

  -- The properties for leaves, with their keys by `key_of`; a number that is none panics.
  unfoldable pub emit_all : (List Text → Text) → List (List Text × Scalar) → Outcome (List Property)
  unfolding emit
  emit_all key_of [] = returned []
  emit_all key_of ((path, s) ∷ ls) =
      and_then (emit (key_of path) s) λ p. and_then (emit_all key_of ls) λ ps. returned (p ∷ ps)

  emit_onto :
      (List Text → Text) → List Property → List (List Text × Scalar) → Outcome (List Property)
  emit_onto key_of container [] = returned container
  emit_onto key_of container ((path, s) ∷ ls) =
      and_then (emit (key_of path) s) λ p. emit_onto key_of (container ++ p ∷ []) ls

  emit_onto-emit_all :
      (key_of : List Text → Text) (container : List Property) (ls : List (List Text × Scalar))
      → emit_onto key_of container ls
        ≡ and_then (emit_all key_of ls) λ ps. returned (container ++ ps)
  unfolding emit_all emit_onto
  emit_onto-emit_all key_of container [] = rw append-nil
  emit_onto-emit_all key_of container ((path, s) ∷ ls) =
      elim (Outcome-cases (emit (key_of path) s)) [
        | inl stops ↦ rw stops
        | inr (p, emitted) ↦
            rw (emitted, emit_onto-emit_all key_of (container ++ p ∷ []) ls)
              (elim (Outcome-cases (emit_all key_of ls)) [
                | inl stops ↦ rw stops
                | inr (ps, rest) ↦ rw (rest, append_assoc)
              ])
      ]

  emit_onto-append :
      (key_of : List Text → Text) (container : List Property) (xs ys : List (List Text × Scalar))
      → emit_onto key_of container (xs ++ ys)
        ≡ and_then (emit_onto key_of container xs) λ c. emit_onto key_of c ys
  unfolding emit_onto
  emit_onto-append key_of container [] ys = refl
  emit_onto-append key_of container ((path, s) ∷ xs) ys =
      elim (Outcome-cases (emit (key_of path) s)) [
        | inl stops ↦ rw stops
        | inr (p, emitted) ↦ rw emitted (emit_onto-append key_of (container ++ p ∷ []) xs ys)
      ]

  emit_onto-map :
      (f g : List Text → Text) (k : Text)
      → ((path : List Text) → f (k ∷ path) ≡ g path)
      → (container : List Property) (ls : List (List Text × Scalar))
      → emit_onto f container (map (λ (path, s). (k ∷ path, s)) ls) ≡ emit_onto g container ls
  unfolding emit_onto
  emit_onto-map f g k same container [] = refl
  emit_onto-map f g k same container ((path, s) ∷ ls) = rw (same path) (
      ap (and_then (emit (g path) s))
        (fun_ext λ p. emit_onto-map f g k same (container ++ p ∷ []) ls))

  mutual
    unfolding flatten_value leaves_below emit_onto key_below key_for emit

    flatten_value-leaves :
        (v : Value) (prefix prefixed_key : Text) (container : List Property)
        → flatten_value casts v prefix prefixed_key container
          ≡ emit_onto (key_below prefix prefixed_key) container (leaves_below v)
    flatten_value-leaves (string s) prefix pk container = refl
    flatten_value-leaves (boolean b) prefix pk container = refl
    flatten_value-leaves (number n) prefix pk container =
        elim (Outcome-cases (number_as_f64 casts n)) [
          | inl stops ↦ rw stops
          | inr (x, found) ↦ rw found
        ]
    flatten_value-leaves (object fs) prefix pk container =
        flatten_properties-leaves fs (prefix ++ (pk ++ text "__")) (key_below prefix pk)
          (λ k path. refl) container
    flatten_value-leaves null prefix pk container = refl
    flatten_value-leaves (array items) prefix pk container = refl

    flatten_properties-leaves :
        (fs : Fields) (prefix : Text) (key_of : List Text → Text)
        → ((k : Text) (path : List Text) → key_of (k ∷ path) ≡ key_for prefix (k ∷ path))
        → (container : List Property)
        → flatten_properties casts fs prefix container ≡ emit_onto key_of container (leaves fs)
    flatten_properties-leaves end prefix key_of same container = refl
    flatten_properties-leaves (field k v rest) prefix key_of same container =
        rw
          (
            flatten_value-leaves v prefix (prefix ++ k) container,
            emit_onto-append,
            emit_onto-map key_of (key_below prefix (prefix ++ k)) k (same k) container
                (leaves_below v),
          )
          (ap (and_then (emit_onto (key_below prefix (prefix ++ k)) container (leaves_below v)))
            (fun_ext λ c. flatten_properties-leaves rest prefix key_of same c))

  -- The properties of an event are those of the leaves of its document, in order and each once, under
  -- the keys that `key_for` gives their paths: the texts, the Booleans and the numbers, at any depth.
  -- Nulls and arrays give none.
  pub properties-emit_all :
      (e : SdkEvent) → properties casts e ≡ emit_all (key_for []) (leaves e.properties)
  unfolding properties
  properties-emit_all e =
      flatten_properties-leaves e.properties [] (key_for []) (λ k path. refl) []
      ∙ emit_onto-emit_all (key_for []) [] (leaves e.properties)
      ∙ and_then_returned (emit_all (key_for []) (leaves e.properties))
