-- ===== src/Metadata/Networking/Names.antt =====
-- The names of the interfaces fit in what the kernel takes.
use Prim.Native.String
use Prim.Native.String.{String}
use text.Mathlib.TextLemmas.{cons-append, nil-append}
use cluster_controller.Prelude.{
  ℕ, zero, suc, ◌+◌, ◌≤◌, ◌≡◌, List, [], ◌∷◌, length, codes, arith, format,
}
use cluster_controller.Metadata.Networking.{
  take_text, generate_interface_prefix, host_interface, ns_interface,
}

codes-append :
    (s t : String) → length (codes (String.◌++◌ s t)) ≡ length (codes s) + length (codes t)
codes-append String.[] t = rw (nil-append t) omega arith
codes-append (String.◌∷◌ c s) t = rw (cons-append c s t) omega (arith, codes-append s t)

length-take_text : (n : ℕ) (s : String) → length (codes (take_text n s)) ≤ n
unfolding take_text
length-take_text zero s = omega arith
length-take_text (suc n) String.[] = omega arith
length-take_text (suc n) (String.◌∷◌ c s) = omega (arith, length-take_text n s)

-- Whatever the digest, the namespace and the router: the names of both ends of the interface pair
-- are at most 14 characters long, and Linux takes 15.
pub interface_names_bounded :
    (sha256_hex : List String → String) (namespace router : String)
    → let prefix = generate_interface_prefix sha256_hex namespace router in
      (length (codes (host_interface prefix)) ≤ 14) × (length (codes (ns_interface prefix)) ≤ 14)
unfolding generate_interface_prefix
interface_names_bounded sha256_hex namespace router =
    let prefix = take_text 9 (sha256_hex (namespace ∷ router ∷ [])) in
    let short = length-take_text 9 (sha256_hex (namespace ∷ router ∷ [])) in
    (
      omega (arith, short, codes-append prefix (format ("-host" ∷ []))),
      omega (arith, short, codes-append prefix (format ("-ns" ∷ []))),
    )
