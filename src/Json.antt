-- ===== src/Json.antt =====
-- JSON values, as `serde_json::Value` has them, with the accessors that the program calls.
-- The order of a map's entries is not observed by the program, so a map is an association list.
use cluster_controller.Prelude.{
  ℕ, String, Bool, true, false, Option, none, some, List, [], ◌∷◌, ◌==◌, nat_eq, lookup, and_then,
  ◌≡◌, refl, ap,
}

mutual
  pub data Value : Type 0 where
    null : Value
    bool : Bool → Value
    num : ℕ → Value
    -- a number that is no unsigned integer, by its text
    real : String → Value
    str : String → Value
    arr : Items → Value
    obj : Fields → Value

  pub data Fields : Type 0 where
    end : Fields
    field : String → Value → Fields → Fields

  pub data Items : Type 0 where
    nil : Items
    cons : Value → Items → Items

abbrev pub to_list : Items → List Value
to_list nil = []
to_list (cons v vs) = v ∷ to_list vs

abbrev pub of_list : List Value → Items
of_list [] = nil
of_list (v ∷ vs) = cons v (of_list vs)

abbrev pub to_map : Fields → List (String × Value)
to_map end = []
to_map (field k v fs) = (k, v) ∷ to_map fs

abbrev pub of_map : List (String × Value) → Fields
of_map [] = end
of_map ((k, v) ∷ m) = field k v (of_map m)

-- `json!([...])` and `json!({...})`
abbrev pub array : List Value → Value
array vs = arr (of_list vs)

abbrev pub object : List (String × Value) → Value
object m = obj (of_map m)

abbrev pub as_array : Value → Option (List Value)
as_array (arr vs) = some (to_list vs)
as_array _ = none

abbrev pub as_object : Value → Option (List (String × Value))
as_object (obj fs) = some (to_map fs)
as_object _ = none

abbrev pub as_str : Value → Option String
as_str (str s) = some s
as_str _ = none

abbrev pub is_null : Value → Bool
is_null null = true
is_null _ = false

-- The member at a path of keys, and the text there.
abbrev pub member : String → Value → Option Value
member key (obj fs) = lookup key (to_map fs)
member key _ = none

abbrev pub get : List String → Value → Option Value
get [] value = some value
get (key ∷ keys) value = and_then (member key value) (λ inner. get keys inner)

abbrev pub get_path : List String → Value → Option String
get_path keys value = and_then (get keys value) as_str

-- `value == "text"` and `value == n`
abbrev pub is_text : String → Value → Bool
is_text s (str t) = t == s
is_text s _ = false

abbrev pub is_number : ℕ → Value → Bool
is_number n (num m) = nat_eq m n
is_number n _ = false

pub to_list-of_list : (vs : List Value) → to_list (of_list vs) ≡ vs
to_list-of_list [] = refl
to_list-of_list (v ∷ vs) = ap (λ l. v ∷ l) (to_list-of_list vs)

pub to_map-of_map : (m : List (String × Value)) → to_map (of_map m) ≡ m
to_map-of_map [] = refl
to_map-of_map ((k, v) ∷ m) = ap (λ l. (k, v) ∷ l) (to_map-of_map m)
