-- ===== src/Events/Event/Keys.antt =====
-- The keys of nested properties, src/events/input/sdk_event.rs, against the paths joined by `__`.
use mathlib.Core.List.{append_assoc}
use xorc_gateway.Base.{
  ℕ, ◌+◌, ◌∙◌, some, returned, ◌≤◌, ◌<◌, ◌≡◌, ◌↔◌, refl, ap, List, [], ◌∷◌, ◌++◌, length,
  length-append, Text, text, arith,
}
use xorc_gateway.Crates.{Casts}
use xorc_gateway.Events.Event.{
  Fields, field, end, string, object, SdkEvent, string_value, properties,
}
use xorc_gateway.Events.Event.Leaves.{
  key_below, key_for, leaves, leaves_below, emit, emit_all, text_of, properties-emit_all,
}

pub join_keys : List Text → Text
join_keys [] = []
join_keys (k ∷ []) = k
join_keys (k ∷ l ∷ path) = k ++ (text "__" ++ join_keys (l ∷ path))

-- The bytes that the keys after the first add to a joined path.
added : List Text → ℕ
added [] = 0
added (k ∷ path) = 2 + length k + added path

length-join_keys :
    (k : Text) (path : List Text) → length (join_keys (k ∷ path)) ≡ length k + added path
unfolding join_keys added
length-join_keys k [] = omega arith
length-join_keys k (l ∷ path) =
    omega (arith, length-append k (text "__" ++ join_keys (l ∷ path)), length-join_keys l path)

length-key_below :
    (prefix pk : Text) (path : List Text)
    → length pk + added path ≤ length (key_below prefix pk path)
unfolding key_below added
length-key_below prefix pk [] = omega arith
length-key_below prefix pk (k ∷ path) =
    let below = prefix ++ (pk ++ text "__") in
    omega (
      arith,
      length-key_below below (below ++ k) path,
      length-append below k,
      length-append prefix (pk ++ text "__"),
      length-append pk (text "__"),
    )

key_for-longer :
    (a b c : Text) (path : List Text)
    → length (join_keys (a ∷ b ∷ c ∷ path)) < length (key_for [] (a ∷ b ∷ c ∷ path))
unfolding key_for key_below added
key_for-longer a b c path =
    let p = a ++ text "__" in
    let q = p ++ ((p ++ b) ++ text "__") in
    omega (
      arith,
      length-join_keys a (b ∷ c ∷ path),
      length-key_below q (q ++ c) path,
      length-append q c,
      length-append p ((p ++ b) ++ text "__"),
      length-append (p ++ b) (text "__"),
      length-append p b,
      length-append a (text "__"),
    )

-- The key that a path gets is the path joined by `__` exactly if it has at most two keys.
key_for-eq-join_keys_iff :
    (path : List Text) → (key_for [] path ≡ join_keys path) ↔ (length path ≤ 2)
unfolding key_for key_below join_keys
key_for-eq-join_keys_iff [] = (λ _. omega arith, λ _. refl)
key_for-eq-join_keys_iff (a ∷ []) = (λ _. omega arith, λ _. refl)
key_for-eq-join_keys_iff (a ∷ b ∷ []) = (λ _. omega arith, λ _. append_assoc a (text "__") b)
key_for-eq-join_keys_iff (a ∷ b ∷ c ∷ path) = (
  λ same. absurd (omega (arith, ap length same, key_for-longer a b c path)),
  λ short. absurd (omega arith),
)

-- The document that has a text at the end of a path, and nothing else.
abbrev pub nest : Text → List Text → Text → Fields
nest k [] s = field k (string s) end
nest k (l ∷ path) s = field k (object (nest l path s)) end

leaves-nest :
    (k : Text) (path : List Text) (s : Text) → leaves (nest k path s) ≡ (k ∷ path, text_of s) ∷ []
unfolding leaves leaves_below
leaves-nest k [] s = refl
leaves-nest k (l ∷ path) s = rw (leaves-nest l path s)

properties-nest :
    (casts : Casts) (e : SdkEvent) (k : Text) (path : List Text) (s : Text)
    → properties casts (record e { properties = nest k path s })
      ≡ returned (record { key = key_for [] (k ∷ path); type_ = some (string_value s) } ∷ [])
unfolding emit_all emit
properties-nest casts e k path s =
    properties-emit_all casts (record e { properties = nest k path s }) ∙ rw (leaves-nest k path s)

-- A text below a path of keys becomes the property whose key is the path joined by `__` exactly if
-- the path has at most two keys.
pub properties-nest_iff :
    (casts : Casts) (e : SdkEvent) (k : Text) (path : List Text) (s : Text)
    → (properties casts (record e { properties = nest k path s })
        ≡ returned (record { key = join_keys (k ∷ path); type_ = some (string_value s) } ∷ []))
      ↔ (length (k ∷ path) ≤ 2)
properties-nest_iff casts e k path s =
    let (to, from) = key_for-eq-join_keys_iff (k ∷ path) in
    (
      λ h. to (ground (arith, properties-nest casts e k path s)),
      λ short. properties-nest casts e k path s ∙ rw (from short),
    )
