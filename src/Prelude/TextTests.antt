-- ===== src/Prelude/TextTests.antt =====
-- The text functions at small inputs.
use cluster_controller.Prelude.{
  [], ◌∷◌, ◌≡◌, refl, true, false, split, to_decimal, has_substring, ends_with, lowercase, codes,
  codes_eq, format, join,
}

split_two : split b':' "fs:/a" ≡ "fs" ∷ "/a" ∷ []
unfolding split
split_two = refl

split_none : split b' ' "" ≡ "" ∷ []
unfolding split
split_none = refl

decimals : to_decimal 6641 ≡ "6641"
unfolding to_decimal
decimals = refl

substring_found : has_substring "02:00 dynamic" "00 d" ≡ true
unfolding has_substring
substring_found = refl

suffix_found : ends_with "/a.qcow2" ".qcow2" ≡ true
unfolding ends_with
suffix_found = refl

suffix_missing : ends_with "/a.qcow2x" ".qcow2" ≡ false
unfolding ends_with
suffix_missing = refl

lower_true : codes_eq (lowercase "TrUe") (codes "true") ≡ true
unfolding lowercase
lower_true = refl

joined : join "," ("a" ∷ "b" ∷ []) ≡ format ("a,b" ∷ [])
joined = refl
