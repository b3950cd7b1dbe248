-- ===== src/Ceph/Locations.antt =====
-- src/utils/libvirt_storage.rs: where a volume is stored.
pub mod Parsing
use cluster_controller.Prelude.{
  ℕ, zero, suc, ◌+◌, ◌-◌, ◌*◌, ◌%◌, ◌^◌, ◌≤◌, ◌<◌, String, ◌≡◌, ◌≢◌, ◌⊎◌, inl, inr, refl, sym, ap,
  Bool, true, false, ◌&&◌, ◌||◌, not, Option, none, some, List, [], ◌∷◌, ◌++◌, map, arith, ltb, leb,
  nat_eq, ◌==◌, option_eq, if◌then◌else◌, is_some, get_or, and_then, map_option, length, get_elem?,
  head?, retain, find, any, filter_map, contains, lookup, insert, remove, format, join, split,
  has_substring, ends_with, to_decimal, Bool-cases, Option-cases, eq_iff, All, In, find-some,
  find-none, All-find-none, any-true, any-In, any-false, In-retain, retain-In, ◌↔◌, IsFree,
  split_free, split_at,
}
use cluster_controller.Errors
use cluster_controller.Errors.{
  Outcome, ok, err, panic, Error, ok_or, or_default, expect, assert, is_ok, collect, ovn_not_found,
  ovn_conflict, ovn_deserialization_failed,
}

pub data StorageType : Type 0 where
  ceph filesystem : StorageType

-- The `match` on the first part.
abbrev pub schema_of : String → String → Outcome StorageType
schema_of location scheme =
    if scheme == "ceph"
    then ok ceph
    else if scheme == "fs"
    then ok filesystem
    else err (Error.storage_location_parse location)

abbrev pub of_parts : String → List String → Outcome (StorageType × String)
of_parts location [] = err (Error.storage_location_parse location)
of_parts location (whole ∷ []) = ok (ceph, whole)
of_parts location (scheme ∷ rest ∷ []) =
    Errors.◌>>=◌ (schema_of location scheme) λ schema. ok (schema, rest)
of_parts location (scheme ∷ rest ∷ more ∷ parts) = err (Error.storage_location_parse location)

-- `split(':')` gives at least one part.
unfoldable pub parse_storage_location : String → Outcome (StorageType × String)
parse_storage_location location = of_parts location (split b':' location)
