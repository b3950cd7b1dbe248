-- ===== src/Ceph/Lowlevel/Names.antt =====
-- The lists of names that librados and librbd return.
use cluster_controller.Prelude.{
  ℕ, zero, suc, String, ◌≡◌, ◌≢◌, refl, false, Option, some, List, [], ◌∷◌, ◌++◌, nat_eq, All,
}
use mathlib.Core.List.{append_assoc, append-nil}
use cluster_controller.Errors.{ok}
use cluster_controller.Ceph.Lowlevel.{split_bytes, collect_names, null_separated_to_vec}

-- The bytes of a name: at least one, and none of them zero.
abbrev pub IsName : List ℕ → Type 0
IsName bytes = (bytes ≢ []) × All (λ b. nat_eq b 0 ≡ false) bytes

-- Names as the libraries write them: each ends with a zero byte.
abbrev pub encode : List (List ℕ) → List ℕ → List ℕ
encode [] padding = padding
encode (name ∷ names) padding = name ++ 0 ∷ encode names padding

split_name :
    (item name rest : List ℕ)
    → All (λ b. nat_eq b 0 ≡ false) name
    → split_bytes item (name ++ 0 ∷ rest) ≡ (item ++ name) ∷ split_bytes [] rest
split_name item [] rest h = rw (append-nil item) refl
split_name item (zero ∷ name) rest h = absurd (let no_zero : ⊥ = cc h.0 in no_zero)
split_name item (suc b ∷ name) rest h =
    rw (split_name (item ++ suc b ∷ []) name rest h.1, append_assoc item (suc b ∷ []) name) refl

collect_name :
    (from_utf8 : List ℕ → Option String) (name : List ℕ) (items : List (List ℕ)) {text : String}
    {texts : List String}
    → name ≢ []
    → from_utf8 name ≡ some text
    → collect_names from_utf8 items ≡ ok texts
    → collect_names from_utf8 (name ∷ items) ≡ ok (text ∷ texts)
collect_name from_utf8 [] items h e e' = absurd (h refl)
collect_name from_utf8 (b ∷ name) items h e e' = rw (e, e') refl

-- The names and the texts that they stand for.
abbrev pub Decodes : (List ℕ → Option String) → List (List ℕ) → List String → Type 0
Decodes from_utf8 [] [] = Unit
Decodes from_utf8 [] (text ∷ texts) = Unit × ⊥
Decodes from_utf8 (name ∷ names) [] = Unit × ⊥
Decodes from_utf8 (name ∷ names) (text ∷ texts) =
    (from_utf8 name ≡ some text) × Decodes from_utf8 names texts

-- A buffer with names of at least one byte, none of them zero, each ended by a zero byte, and more
-- zero bytes behind them, is read as the texts of the names, if the names are UTF-8.
pub null_separated_to_vec-encode :
    (from_utf8 : List ℕ → Option String) (names : List (List ℕ)) (texts : List String)
    (padding : List ℕ)
    → All IsName names
    → Decodes from_utf8 names texts
    → null_separated_to_vec from_utf8 (encode names (0 ∷ padding)) ≡ ok texts
unfolding null_separated_to_vec
null_separated_to_vec-encode from_utf8 [] [] padding h d = refl
null_separated_to_vec-encode from_utf8 [] (text ∷ texts) padding h d = absurd d.1
null_separated_to_vec-encode from_utf8 (name ∷ names) [] padding h d = absurd d.1
null_separated_to_vec-encode from_utf8 (name ∷ names) (text ∷ texts) padding h d =
    rw (split_name [] name (encode names (0 ∷ padding)) h.0.1) (
      collect_name from_utf8 name _ h.0.0 d.0
        (null_separated_to_vec-encode from_utf8 names texts padding h.1 d.1))
