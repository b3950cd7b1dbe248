-- ===== src/Prelude/Text.antt =====
-- Texts as the program builds and takes apart: `format!`, `split`, `contains`, `to_lowercase`.
use Prim.Native.Nat.{ℕ, zero, suc, ◌+◌, ◌/◌, ◌%◌}
use Prim.Native.Char.{Char, code}
use Prim.Native.String
use Prim.Native.String.{String}
use mathlib.Core.Bool.{Bool, true, false, ◌&&◌, ◌||◌}
use mathlib.Core.List.{List, [], ◌∷◌}
use text.Mathlib.Text.{starts_with}
use cluster_controller.Prelude.Tests.{leb, ltb, nat_eq, if◌then◌else◌}

-- `format!` and `+`: the pieces one after the other.
abbrev pub format : List String → String
format [] = String.[]
format (s ∷ ss) = String.◌++◌ s (format ss)

-- `[String]::join`
abbrev pub join : String → List String → String
join sep [] = String.[]
join sep (s ∷ []) = s
join sep (s ∷ t ∷ ss) = String.◌++◌ s (String.◌++◌ sep (join sep (t ∷ ss)))

abbrev grow : Char → List String → List String
grow c [] = String.◌∷◌ c String.[] ∷ []
grow c (p ∷ ps) = String.◌∷◌ c p ∷ ps

-- `str::split` at a one-character separator, by its code point: always at least one part.
unfoldable pub split : ℕ → String → List String
split sep String.[] = String.[] ∷ []
split sep (String.◌∷◌ c s) =
    let parts = split sep s in if nat_eq (code c) sep then String.[] ∷ parts else grow c parts

-- `str::contains` with a text as the pattern
unfoldable pub has_substring : String → String → Bool
has_substring String.[] t = starts_with String.[] t
has_substring (String.◌∷◌ c s) t = starts_with (String.◌∷◌ c s) t || has_substring s t

-- `str::ends_with`
unfoldable pub ends_with : String → String → Bool
ends_with String.[] t = starts_with String.[] t && starts_with t String.[]
ends_with (String.◌∷◌ c s) t =
    (starts_with (String.◌∷◌ c s) t && starts_with t (String.◌∷◌ c s)) || ends_with s t

-- The code points of a text.
abbrev pub codes : String → List ℕ
codes String.[] = []
codes (String.◌∷◌ c s) = code c ∷ codes s

abbrev lower_code : ℕ → ℕ
lower_code c = if leb b'A' c && leb c b'Z' then c + 32 else c

-- `str::to_lowercase`, as code points. Only the letters A to Z are mapped: the program compares
-- the result with "true", "managed" and "unmanaged", and no other character has an i, a, d, e, g,
-- m, n, r, t or u alone for its lower case.
unfoldable pub lowercase : String → List ℕ
lowercase String.[] = []
lowercase (String.◌∷◌ c s) = lower_code (code c) ∷ lowercase s

abbrev pub codes_eq : List ℕ → List ℕ → Bool
codes_eq [] [] = true
codes_eq [] (d ∷ ds) = false
codes_eq (c ∷ cs) [] = false
codes_eq (c ∷ cs) (d ∷ ds) = nat_eq c d && codes_eq cs ds

-- One decimal digit.
abbrev digit : ℕ → String
digit zero = "0"
digit (suc zero) = "1"
digit (suc (suc zero)) = "2"
digit (suc (suc (suc zero))) = "3"
digit (suc (suc (suc (suc zero)))) = "4"
digit (suc (suc (suc (suc (suc zero))))) = "5"
digit (suc (suc (suc (suc (suc (suc zero)))))) = "6"
digit (suc (suc (suc (suc (suc (suc (suc zero))))))) = "7"
digit (suc (suc (suc (suc (suc (suc (suc (suc zero)))))))) = "8"
digit _ = "9"

-- One hexadecimal digit.
abbrev hex_digit : ℕ → String
hex_digit n =
    if ltb n 10
    then digit n
    else if nat_eq n 10
    then "a"
    else if nat_eq n 11
    then "b"
    else if nat_eq n 12
    then "c"
    else if nat_eq n 13
    then "d"
    else if nat_eq n 14
    then "e"
    else "f"

-- `{:x}` of a byte: no leading zero
unfoldable pub to_hex : ℕ → String
to_hex n = if ltb n 16 then hex_digit n else String.◌++◌ (hex_digit (n / 16)) (hex_digit (n % 16))

-- Decimal digits of `n`, most significant first, before `rest`. A 64-bit number has at most 20.
decimal_onto : ℕ → ℕ → String → String
decimal_onto zero n rest = rest
decimal_onto (suc fuel) n rest =
    let text = String.◌++◌ (digit (n % 10)) rest in
    let more = decimal_onto fuel (n / 10) text in if nat_eq (n / 10) 0 then text else more

-- `u64::to_string` and `{}` of an unsigned integer
unfoldable pub to_decimal : ℕ → String
unfolding decimal_onto
to_decimal n = decimal_onto 20 n String.[]
