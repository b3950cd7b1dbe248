-- ===== src/Ovn/Deserialization.antt =====
-- src/interfaces/ovn/deserialization.rs: the database's encodings of UUIDs, maps and sets.
-- A shape that the code asserts and does not find is a panic.
pub mod RoundTrip
use cluster_controller.Prelude.{
  ℕ, zero, suc, ◌+◌, ◌-◌, ◌*◌, ◌≤◌, ◌<◌, String, ◌≡◌, refl, sym, ap, Bool, true, false, ◌&&◌, ◌||◌,
  not, Option, none, some, List, [], ◌∷◌, ◌++◌, map, arith, ltb, leb, nat_eq, ◌==◌, if◌then◌else◌,
  is_some, get_or, and_then, map_option, length, get_elem?, head?, retain, find, any, lookup,
  insert,
}
use cluster_controller.Errors.{
  Error, ovn_deserialization_failed, Outcome, ok, err, panic, ◌>>=◌, ok_or, expect, assert, collect,
}
use cluster_controller.Json.{Value, as_array, as_object, as_str, is_text}

abbrev pub JsonMap : Type 0
JsonMap = List (String × Value)

unfoldable pub deserialize_object : Value → Outcome JsonMap
deserialize_object value = ok_or (as_object value) ovn_deserialization_failed

unfoldable pub deserialize_uuid : JsonMap → Outcome String
deserialize_uuid object =
    ok_or
      (and_then (and_then (and_then (lookup "_uuid" object) as_array) (λ a. get_elem? a 1)) as_str)
      ovn_deserialization_failed

unfoldable pub deserialize_string : JsonMap → String → Outcome String
deserialize_string object field =
    ok_or (and_then (lookup field object) as_str) ovn_deserialization_failed

-- ["map", entries]: exactly two items, the first the tag.
abbrev pub map_payload : List Value → Outcome Value
map_payload map_as_array = assert (nat_eq (length map_as_array) 2) >>= λ _.
    expect (head? map_as_array) >>= λ tag.
    assert (is_text "map" tag) >>= λ _. expect (get_elem? map_as_array 1)

-- [k, v]
abbrev pub map_entry : Value → Outcome (String × String)
map_entry entry = expect (as_array entry) >>= λ k_v_array.
    assert (nat_eq (length k_v_array) 2) >>= λ _.
    expect (and_then (get_elem? k_v_array 0) as_str) >>= λ k.
    expect (and_then (get_elem? k_v_array 1) as_str) >>= λ v. ok (k, v)

-- `HashMap::from_iter`: a later entry replaces an earlier one of its key.
abbrev pub from_iter : List (String × String) → List (String × String) → List (String × String)
from_iter acc [] = acc
from_iter acc ((k, v) ∷ rest) = from_iter (insert k v acc) rest

abbrev pub map_entries : Option (List Value) → Outcome (List (String × String))
map_entries none = err ovn_deserialization_failed
map_entries (some entries) = collect map_entry entries >>= λ kvs. ok (from_iter [] kvs)

unfoldable pub deserialize_map : JsonMap → String → Outcome (List (String × String))
deserialize_map object field = elim (and_then (lookup field object) as_array) [
  | none ↦ err ovn_deserialization_failed
  | some map_as_array ↦ map_payload map_as_array >>= λ payload. map_entries (as_array payload)
]

-- ["uuid", id] inside a set
abbrev pub set_element : Value → Outcome String
set_element uuid = expect (as_array uuid) >>= λ array. expect (head? array) >>= λ tag.
    assert (is_text "uuid" tag) >>= λ _. expect (and_then (get_elem? array 1) as_str)

abbrev pub uuids_of_set : List Value → Outcome (List String)
uuids_of_set set =
    let subtype = get_or (and_then (head? set) as_str) "unknown" in
    if subtype == "uuid"
    then expect (and_then (get_elem? set 1) as_str) >>= (λ uuid. ok (uuid ∷ []))
    else if subtype == "set"
    then expect (and_then (get_elem? set 1) as_array) >>= collect set_element
    else panic

unfoldable pub deserialize_uuid_set : JsonMap → String → Outcome (List String)
deserialize_uuid_set object field = elim (and_then (lookup field object) as_array) [
  | none ↦ err ovn_deserialization_failed
  | some set ↦ uuids_of_set set
]
