-- ===== src/Fetch/Annotations.antt =====
-- How the annotations record the fetches of a certificate.
use kube_csr.Base.{
  ℕ, suc, ◌+◌, ◌^◌, ◌<◌, String, ◌≡◌, refl, true, false, none, some, List, [], ◌∷◌, arith, str_eq,
  lookup, insert, lookup-insert, length, if◌then◌else◌,
}
use kube_csr.Base.Int.{pos, ◌+ℤ◌, wrap64, wrap64-eq_of_IsInt64}
use kube_csr.Strconv.{atoi, itoa}
use kube_csr.Strconv.RoundTrip.{atoi-itoa}
use kube_csr.Fetch.{annotation_date, annotation_count, text_at, annotations_after}

-- A fetch dates the annotations, and leaves every annotation as it was but the date and the count.
pub annotations_after-lookup :
    (now : String) (m : List (String × String)) (key : String)
    → str_eq annotation_count key ≡ false
    → lookup key (annotations_after now (some m))
      ≡ (if str_eq annotation_date key then some now else lookup key m)
unfolding annotations_after
annotations_after-lookup now m key other = rw (lookup-insert, other, lookup-insert)

-- The annotations of a request that had none, after a fetch at each time, the last one first.
pub fetched_at : String → List String → List (String × String)
fetched_at first [] = annotations_after first none
fetched_at first (now ∷ times) = annotations_after now (some (fetched_at first times))

text_at-insert :
    (k j v : String) (m : List (String × String))
    → text_at j (insert k v m) ≡ (if str_eq k j then v else text_at j m)
unfolding text_at
text_at-insert k j v m = ground (arith, lookup-insert k j v m)

count_step : (n : ℕ) → n + 1 < 2 ^ 63 → atoi (itoa (wrap64 (pos n +ℤ pos 1))) ≡ (pos (suc n), true)
unfolding ◌+ℤ◌
count_step n h =
    let e : pos n +ℤ pos 1 ≡ pos (suc n) = ground arith in
    rw (wrap64-eq_of_IsInt64 (pos n +ℤ pos 1) (ground arith))
      (rw (e) (atoi-itoa (pos (suc n)) (ground arith)))

annotations_after-count :
    (now : String) (m : List (String × String)) (n : ℕ)
    → atoi (text_at annotation_count m) ≡ (pos n, true)
    → n + 1 < 2 ^ 63
    → (atoi (text_at annotation_count (annotations_after now (some m))) ≡ (pos (suc n), true))
      × (text_at annotation_date (annotations_after now (some m)) ≡ now)
unfolding annotations_after
annotations_after-count now m n count small =
    simp text_at-insert (rw count (count_step n small), refl)

abbrev pub last_of : String → List String → String
last_of first [] = first
last_of first (now ∷ times) = now

-- After n fetches of a request that had no annotations, n < 2^63, the count reads as n and the date
-- is that of the last fetch.
pub fetched_at-count :
    (first : String) (times : List String)
    → length times + 1 < 2 ^ 63
    → let m = fetched_at first times in
      (atoi (text_at annotation_count m) ≡ (pos (suc (length times)), true))
      × (text_at annotation_date m ≡ last_of first times)
unfolding fetched_at annotations_after text_at lookup atoi
fetched_at-count first [] small = (refl, refl)
fetched_at-count first (now ∷ times) small =
    annotations_after-count now (fetched_at first times) (suc (length times))
      (fetched_at-count first times (omega arith)).0 (omega arith)
