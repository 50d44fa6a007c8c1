-- ===== src/Strconv/RoundTrip.antt =====
-- `Atoi` reads back what `Itoa` writes.
use Prim.Native.Char.{code}
use kube_csr.Base.{
  ℕ, zero, suc, ◌+◌, ◌*◌, ◌/◌, ◌%◌, ◌^◌, ◌≤◌, ◌<◌, ◌≡◌, refl, ◌∙◌, String, Bool, true, false, List,
  ◌∷◌, arith, codes, ltb, Bool-cases, inl, inr,
}
use kube_csr.Base.Int.{ℤ, pos, negsuc, IsInt64}
use kube_csr.Strconv.{
  number, is_digit, parse_uint, signed, parse_digits, parse_int, atoi, digit, format_digits, itoa,
}

code-digit : (d : ℕ) → d < 10 → code (digit d) ≡ b'0' + d
unfolding digit
code-digit zero h = refl
code-digit (suc zero) h = refl
code-digit (suc (suc zero)) h = refl
code-digit (suc (suc (suc zero))) h = refl
code-digit (suc (suc (suc (suc zero)))) h = refl
code-digit (suc (suc (suc (suc (suc zero))))) h = refl
code-digit (suc (suc (suc (suc (suc (suc zero)))))) h = refl
code-digit (suc (suc (suc (suc (suc (suc (suc zero))))))) h = refl
code-digit (suc (suc (suc (suc (suc (suc (suc (suc zero)))))))) h = refl
code-digit (suc (suc (suc (suc (suc (suc (suc (suc (suc zero))))))))) h = refl
code-digit (suc (suc (suc (suc (suc (suc (suc (suc (suc (suc n)))))))))) h = absurd (omega arith)

parse_uint-digit :
    (d n m : ℕ) (s : String)
    → d < 10
    → n * 10 + d ≡ m
    → m < 2 ^ 64
    → parse_uint (codes (String.◌∷◌ (digit d) s)) n ≡ parse_uint (codes s) m
unfolding parse_uint is_digit
parse_uint-digit d n m s h e k = ground (arith, code-digit d h)

parse_uint-format_digits :
    (f n : ℕ) (s : String)
    → n < f
    → n < 2 ^ 64
    → parse_uint (codes (format_digits f n s)) 0 ≡ parse_uint (codes s) n
unfolding format_digits
parse_uint-format_digits zero n s h k = absurd (omega arith)
parse_uint-format_digits (suc f) n s h k = elim (Bool-cases (ltb n 10)) [
  | inl last ↦ rw last (parse_uint-digit n 0 n s (ground arith) (omega arith) k)
  | inr more ↦ rw more (
      parse_uint-format_digits f (n / 10) (String.◌∷◌ (digit (n % 10)) s) (ground arith)
        (omega arith)
      ∙ parse_uint-digit (n % 10) (n / 10) n s (omega arith) (omega arith) k)
]

-- The text begins with a digit, so it is read as a number without a sign.
starts :
    (f n : ℕ) (s : String)
    → n < f
    → (c : ℕ) × (cs : List ℕ) × (codes (format_digits f n s) ≡ c ∷ cs) × (48 ≤ c)
unfolding format_digits
starts zero n s h = absurd (omega arith)
starts (suc f) n s h = elim (Bool-cases (ltb n 10)) [
  | inl last ↦ rw last (code (digit n), codes s, refl, omega (arith, code-digit n (ground arith)))
  | inr more ↦ rw more (starts f (n / 10) (String.◌∷◌ (digit (n % 10)) s) (ground arith))
]

parse_digits-format_digits :
    (minus : Bool) (f n : ℕ)
    → n < f
    → n < 2 ^ 64
    → parse_digits minus (codes (format_digits f n "")) ≡ signed minus (number n)
unfolding parse_digits
parse_digits-format_digits minus f n h k =
    let (c, cs, e, _) = starts f n "" h in
    let step : parse_uint (c ∷ cs) 0 ≡ number n =
      rw (← e) (parse_uint-format_digits f n "" h k ∙ (unfold parse_uint in refl)) in
    rw (e, step)

parse_int-format_digits :
    (f n : ℕ)
    → n < f
    → n < 2 ^ 64
    → parse_int (codes (format_digits f n "")) ≡ signed false (number n)
unfolding parse_int
parse_int-format_digits f n h k =
    let (c, cs, e, above) = starts f n "" h in
    let step : parse_digits false (c ∷ cs) ≡ signed false (number n) =
      rw (← e) (parse_digits-format_digits false f n h k) in
    rw e (ground (arith, step))

atoi_lem : (s : String) → atoi s ≡ parse_int (codes s)
unfolding atoi
atoi_lem s = refl

itoa-pos : (n : ℕ) → itoa (pos n) ≡ format_digits (suc n) n ""
unfolding itoa
itoa-pos n = refl

atoi-itoa_negsuc :
    (n : ℕ)
    → atoi (itoa (negsuc n)) ≡ parse_digits true (codes (format_digits (suc (suc n)) (suc n) ""))
unfolding atoi itoa
atoi-itoa_negsuc n = refl

signed_pos : (n : ℕ) → n < 2 ^ 63 → signed false (number n) ≡ (pos n, true)
unfolding signed
signed_pos n h = ground arith

signed_neg : (n : ℕ) → n < 2 ^ 63 → signed true (number (suc n)) ≡ (negsuc n, true)
unfolding signed
signed_neg n h = ground arith

-- `Atoi` gives back every `int` from the text that `Itoa` writes for it, with no error.
pub atoi-itoa : (a : ℤ) → IsInt64 a → atoi (itoa a) ≡ (a, true)
atoi-itoa (pos n) h =
    rw (itoa-pos, atoi_lem)
      (parse_int-format_digits (suc n) n (omega arith) (omega arith) ∙ signed_pos n (omega arith))
atoi-itoa (negsuc n) h =
    atoi-itoa_negsuc n
    ∙ parse_digits-format_digits true (suc (suc n)) (suc n) (omega arith) (omega arith)
    ∙ signed_neg n (omega arith)
