-- ===== src/Sort/Laws.antt =====
-- Strings are ordered strictly and totally, and a strictly sorted list is known by its members.
use Prim.Native.Char.{Char, code}
use text.Mathlib.TextEquality.{codes_equal}
use text.Mathlib.TextPositions.{eq_refl}
use mathlib.Core.Path.{ap₂}
use kube_csr.Base.{
  ℕ, String, ◌≡◌, refl, ◌∙◌, inl, inr, true, false, ◌||◌, List, [], ◌∷◌, arith, codes, str_eq,
  eq_iff, All, has, Bool-cases,
}
use kube_csr.Sort.{lex_less, text_less, insert_sorted, sort_strings}

lex_less_irrefl : (l : List ℕ) → lex_less l l ≡ false
unfolding lex_less
lex_less_irrefl [] = refl
lex_less_irrefl (a ∷ l) = ground (arith, lex_less_irrefl l)

lex_less_trans : (l m n : List ℕ) → lex_less l m ≡ true → lex_less m n ≡ true → lex_less l n ≡ true
unfolding lex_less
lex_less_trans [] [] n h k = cc
lex_less_trans [] (b ∷ m) [] h k = cc
lex_less_trans [] (b ∷ m) (c ∷ n) h k = refl
lex_less_trans (a ∷ l) [] n h k = cc
lex_less_trans (a ∷ l) (b ∷ m) [] h k = cc
lex_less_trans (a ∷ l) (b ∷ m) (c ∷ n) h k = ground (arith, lex_less_trans l m n)

lex_less_total : (l m : List ℕ) → lex_less l m ≡ false → lex_less m l ≡ false → l ≡ m
unfolding lex_less
lex_less_total [] [] h k = refl
lex_less_total [] (b ∷ m) h k = cc
lex_less_total (a ∷ l) [] h k = cc
lex_less_total (a ∷ l) (b ∷ m) h k = ground (arith, lex_less_total l m)

code-injective : (c d : Char) → code c ≡ code d → c ≡ d
code-injective c d h = codes_equal c d (ground arith)

codes-injective : (s t : String) → codes s ≡ codes t → s ≡ t
codes-injective String.[] String.[] h = refl
codes-injective String.[] (String.◌∷◌ d t) h = cc
codes-injective (String.◌∷◌ c s) String.[] h = cc
codes-injective (String.◌∷◌ c s) (String.◌∷◌ d t) h =
    cc (code-injective c d (ground arith), codes-injective s t (ground arith))

pub text_less_irrefl : (s : String) → text_less s s ≡ false
unfolding text_less
text_less_irrefl s = lex_less_irrefl (codes s)

pub text_less_trans :
    (s t u : String) → text_less s t ≡ true → text_less t u ≡ true → text_less s u ≡ true
unfolding text_less
text_less_trans s t u = lex_less_trans (codes s) (codes t) (codes u)

text_less_total : (s t : String) → text_less s t ≡ false → text_less t s ≡ false → s ≡ t
unfolding text_less
text_less_total s t h k = codes-injective s t (lex_less_total (codes s) (codes t) h k)

-- Every string stands in front of those behind it, so that none stands twice.
abbrev pub IsSorted : List String → Type 0
IsSorted [] = Unit
IsSorted (s ∷ l) = All (λ t. text_less s t ≡ true) l × IsSorted l

above-has :
    (s x : String) (l : List String)
    → All (λ t. text_less s t ≡ true) l
    → has x l ≡ true
    → text_less s x ≡ true
unfolding has
above-has s x [] h k = cc
above-has s x (t ∷ l) h k = ground (arith, eq_iff t x, above-has s x l h.1)

above_trans :
    (s t : String) (l : List String)
    → text_less s t ≡ true
    → All (λ u. text_less t u ≡ true) l
    → All (λ u. text_less s u ≡ true) l
above_trans s t [] h k = tt
above_trans s t (u ∷ l) h k = (text_less_trans s t u h k.0, above_trans s t l h k.1)

above-insert_sorted :
    (s x : String) (l : List String)
    → text_less s x ≡ true
    → All (λ t. text_less s t ≡ true) l
    → All (λ t. text_less s t ≡ true) (insert_sorted x l)
unfolding insert_sorted
above-insert_sorted s x [] h k = (h, tt)
above-insert_sorted s x (t ∷ l) h k = elim (Bool-cases (text_less t x)) [
  | inl e ↦ rw e (k.0, above-insert_sorted s x l h k.1)
  | inr e ↦ rw e (h, (k.0, k.1))
]

pub has-insert_sorted :
    (x y : String) (l : List String) → has y (insert_sorted x l) ≡ (str_eq x y || has y l)
unfolding insert_sorted has
has-insert_sorted x y [] = refl
has-insert_sorted x y (t ∷ l) = ground (arith, has-insert_sorted x y l)

pub insert_sorted-IsSorted :
    (x : String) (l : List String) → has x l ≡ false → IsSorted l → IsSorted (insert_sorted x l)
unfolding insert_sorted has
insert_sorted-IsSorted x [] new h = (tt, tt)
insert_sorted-IsSorted x (t ∷ l) new h = elim (Bool-cases (text_less t x)) [
  | inl e ↦ rw e (above-insert_sorted t x l e h.0, insert_sorted-IsSorted x l (ground arith) h.1)
  | inr e ↦ rw e ((before e, above_trans x t l (before e) h.0), h)
]
  where
    before : text_less t x ≡ false → text_less x t ≡ true
    before e = ground (arith, text_less_total x t, eq_iff t x)

-- Two strictly sorted lists with the same members are one list.
pub IsSorted-unique :
    (l m : List String) → IsSorted l → IsSorted m → ((x : String) → has x l ≡ has x m) → l ≡ m
unfolding has
IsSorted-unique [] [] h k same = refl
IsSorted-unique [] (t ∷ m) h k same = ground (arith, same t, eq_refl t)
IsSorted-unique (s ∷ l) [] h k same = ground (arith, same s, eq_refl s)
IsSorted-unique (s ∷ l) (t ∷ m) h k same = elim (Bool-cases (str_eq s t)) [
  | inl e ↦ ap₂ ◌∷◌ ((eq_iff s t).0 e) (IsSorted-unique l m h.1 k.1 (tails e))
  | inr e ↦ absurd (heads e)
]
  where
    tails : str_eq s t ≡ true → (x : String) → has x l ≡ has x m
    tails e x = ground (
      arith,
      same x,
      above-has s x l h.0,
      above-has t x m k.0,
      text_less_irrefl s,
      text_less_irrefl t,
      eq_iff s x,
      eq_iff t x,
      eq_iff s t,
    )

    heads : str_eq s t ≡ false → ⊥
    heads e = ground (
      arith,
      same s,
      same t,
      above-has s t l h.0,
      above-has t s m k.0,
      text_less_trans s t s,
      text_less_irrefl s,
      eq_refl s,
      eq_refl t,
      eq_iff s t,
      eq_iff t s,
    )

pub has-sort_strings : (y : String) (l : List String) → has y (sort_strings l) ≡ has y l
unfolding sort_strings has
has-sort_strings y [] = refl
has-sort_strings y (s ∷ l) = has-insert_sorted s y (sort_strings l) ∙ rw (has-sort_strings y l)

abbrev pub IsDistinct : List String → Type 0
IsDistinct [] = Unit
IsDistinct (s ∷ l) = (has s l ≡ false) × IsDistinct l

pub sort_strings-IsSorted : (l : List String) → IsDistinct l → IsSorted (sort_strings l)
unfolding sort_strings
sort_strings-IsSorted [] h = tt
sort_strings-IsSorted (s ∷ l) h =
    insert_sorted-IsSorted s (sort_strings l) (has-sort_strings s l ∙ h.0)
      (sort_strings-IsSorted l h.1)
