-- ===== src/Sort.antt =====
-- The order of Go's strings, and sort.Strings.
pub mod Laws
use kube_csr.Base.{ℕ, String, Bool, true, false, List, [], ◌∷◌, ltb, ◌==◌, codes, if◌then◌else◌}

-- The order of the bytes, which UTF-8 makes the order of the code points.
unfoldable pub lex_less : List ℕ → List ℕ → Bool
lex_less [] [] = false
lex_less [] (b ∷ m) = true
lex_less (a ∷ l) [] = false
lex_less (a ∷ l) (b ∷ m) =
    let rest = lex_less l m in if ltb a b then true else if a == b then rest else false

unfoldable pub text_less : String → String → Bool
unfolding lex_less
text_less s t = lex_less (codes s) (codes t)

unfoldable pub insert_sorted : String → List String → List String
insert_sorted s [] = s ∷ []
insert_sorted s (t ∷ ts) =
    let rest = insert_sorted s ts in if text_less t s then t ∷ rest else s ∷ t ∷ ts

-- Equal strings are one string, so that every correct sort has this result.
unfoldable pub sort_strings : List String → List String
unfolding insert_sorted
sort_strings [] = []
sort_strings (s ∷ ss) = insert_sorted s (sort_strings ss)
