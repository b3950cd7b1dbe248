-- ===== src/Ovn/Deserialization/RoundTrip.antt =====
-- What the database's encoding writes, the deserialization reads back.
use cluster_controller.Prelude.{
  String, ◌≡◌, refl, Option, none, some, List, [], ◌∷◌, map, arith, ◌==◌, if◌then◌else◌, lookup,
  insert, eq_iff,
}
use cluster_controller.Errors.{ok, collect}
use cluster_controller.Json.{Value, str, array, to_list-of_list}
use cluster_controller.Ovn.Deserialization.{
  JsonMap, deserialize_map, deserialize_uuid_set, map_entry, from_iter, set_element,
}

-- RFC 7047: a map is ["map", [[k, v], ...]].
abbrev pub encode_pair : String × String → Value
encode_pair (k, v) = array (str k ∷ str v ∷ [])

abbrev pub encode_map : List (String × String) → Value
encode_map kvs = array (str "map" ∷ array (map encode_pair kvs) ∷ [])

-- A set of one UUID is ["uuid", id], any other is ["set", [["uuid", id], ...]].
abbrev pub encode_uuid : String → Value
encode_uuid uuid = array (str "uuid" ∷ str uuid ∷ [])

abbrev pub encode_set : List String → Value
encode_set [] = array (str "set" ∷ array [] ∷ [])
encode_set (uuid ∷ []) = encode_uuid uuid
encode_set (uuid ∷ more ∷ rest) =
    array (str "set" ∷ array (map encode_uuid (uuid ∷ more ∷ rest)) ∷ [])

collect-map_entry :
    (kvs : List (String × String)) → collect map_entry (map encode_pair kvs) ≡ ok kvs
collect-map_entry [] = refl
collect-map_entry ((k, v) ∷ rest) = rw (collect-map_entry rest) refl

collect-set_element : (uuids : List String) → collect set_element (map encode_uuid uuids) ≡ ok uuids
collect-set_element [] = refl
collect-set_element (u ∷ rest) = rw (collect-set_element rest) refl

-- The last value of a key in a list of entries.
abbrev pub last_value : String → List (String × String) → Option String → Option String
last_value k [] before = before
last_value k ((j, v) ∷ rest) before = last_value k rest (if j == k then some v else before)

lookup-insert :
    (k j v : String) (acc : List (String × String))
    → lookup j (insert k v acc) ≡ (if k == j then some v else lookup j acc)
lookup-insert k j v [] = refl
lookup-insert k j v ((i, w) ∷ acc) =
    ground (arith, eq_iff k j, eq_iff i k, eq_iff i j, lookup-insert k j v acc)

lookup-from_iter :
    (k : String) (kvs acc : List (String × String))
    → lookup k (from_iter acc kvs) ≡ last_value k kvs (lookup k acc)
lookup-from_iter k [] acc = refl
lookup-from_iter k ((j, v) ∷ rest) acc =
    rw (lookup-from_iter k rest (insert j v acc), lookup-insert j k v acc) refl

-- An encoded map is read back: for every key, the value of its last entry.
pub deserialize_map-encode :
    (row : JsonMap) (field : String) (kvs : List (String × String))
    → lookup field row ≡ some (encode_map kvs)
    → (m : List (String × String)) × (deserialize_map row field ≡ ok m)
      × ((k : String) → lookup k m ≡ last_value k kvs none)
unfolding deserialize_map
deserialize_map-encode row field kvs e = (
  from_iter [] kvs,
  rw (e, deserialize_map, to_list-of_list, collect-map_entry) refl,
  λ k. lookup-from_iter k kvs [],
)

-- Both encodings of a set of UUIDs are read back.
pub deserialize_uuid_set-encode :
    (row : JsonMap) (field : String) (uuids : List String)
    → lookup field row ≡ some (encode_set uuids)
    → deserialize_uuid_set row field ≡ ok uuids
unfolding deserialize_uuid_set
deserialize_uuid_set-encode row field [] e = rw (e, deserialize_uuid_set) refl
deserialize_uuid_set-encode row field (u ∷ []) e = rw (e, deserialize_uuid_set) refl
deserialize_uuid_set-encode row field (u ∷ more ∷ rest) e =
    rw (e, deserialize_uuid_set, to_list-of_list, collect-set_element) refl
