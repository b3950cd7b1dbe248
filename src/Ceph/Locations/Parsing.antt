-- ===== src/Ceph/Locations/Parsing.antt =====
-- What the texts of storage locations mean.
use Prim.Native.String
use Prim.Native.Char.{Char}
use text.Mathlib.TextLemmas.{append-nil, nil-append, cons-append}
use cluster_controller.Prelude.{
  String, ◌≡◌, refl, ap, false, [], ◌∷◌, ◌==◌, format, split, IsFree, split_free, split_at,
  split-cons, ◌∙◌,
}
use cluster_controller.Errors.{ok, err, Error}
use cluster_controller.Ceph.Locations.{
  StorageType, ceph, filesystem, parse_storage_location, schema_of,
}

colon : Char
colon = ":"

abbrev pub scheme : StorageType → String
scheme ceph = "ceph"
scheme filesystem = "fs"

-- A location as it is written with its scheme.
abbrev pub print : StorageType → String → String
print kind rest = format (scheme kind ∷ ":" ∷ rest ∷ [])

cons_colon : (s : String) → String.◌++◌ ":" s ≡ String.◌∷◌ colon s
unfolding colon
cons_colon s = cons-append ":" String.[] s ∙ ap (String.◌∷◌ ":") (nil-append s)

format-colon : (s t : String) → format (s ∷ ":" ∷ t ∷ []) ≡ String.◌++◌ s (String.◌∷◌ colon t)
format-colon s t = rw (append-nil t, cons_colon t) refl

scheme-IsFree : (kind : StorageType) → IsFree b':' (scheme kind)
scheme-IsFree ceph = (refl, (refl, (refl, (refl, tt))))
scheme-IsFree filesystem = (refl, (refl, tt))

scheme_known : (location : String) (kind : StorageType) → schema_of location (scheme kind) ≡ ok kind
scheme_known location ceph = refl
scheme_known location filesystem = refl

split_print :
    (s t : String) → IsFree b':' s → split b':' (format (s ∷ ":" ∷ t ∷ [])) ≡ s ∷ split b':' t
unfolding colon
split_print s t h = rw (format-colon s t) (split_at b':' s colon t h refl)

-- A location without a colon is a volume in Ceph of that name. A location that is printed with its
-- scheme is parsed as that, for a location without a further colon. Any location with two colons or
-- more, of whatever parts, is an error.
pub parse-print :
    (kind : StorageType) (rest first second others : String)
    → IsFree b':' rest
    → IsFree b':' first
    → IsFree b':' second
    → (parse_storage_location rest ≡ ok (ceph, rest))
      × (parse_storage_location (print kind rest) ≡ ok (kind, rest))
      × (let location = format (first ∷ ":" ∷ format (second ∷ ":" ∷ others ∷ []) ∷ []) in
          parse_storage_location location ≡ err (Error.storage_location_parse location))
unfolding parse_storage_location
parse-print kind rest first second others h f g =
    let (part, parts, e) = split-cons b':' others in
    (
      rw (split_free b':' rest h) refl,
      rw
          (
            split_print (scheme kind) rest (scheme-IsFree kind),
            split_free b':' rest h,
            scheme_known (print kind rest) kind,
          )
          refl,
      rw (split_print first (format (second ∷ ":" ∷ others ∷ [])) f, split_print second others g, e)
          refl,
    )

-- A scheme other than "ceph" and "fs" is an error.
pub parse_unknown :
    (other rest : String)
    → IsFree b':' other
    → IsFree b':' rest
    → (other == "ceph") ≡ false
    → (other == "fs") ≡ false
    → parse_storage_location (format (other ∷ ":" ∷ rest ∷ []))
      ≡ err (Error.storage_location_parse (format (other ∷ ":" ∷ rest ∷ [])))
unfolding parse_storage_location
parse_unknown other rest h k e e' =
    rw (split_print other rest h, split_free b':' rest k, e, e') refl
