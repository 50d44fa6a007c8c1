-- ===== src/Purge/Days.antt =====
-- durationFormat of pkg/operation/purge/purge.go: the loop that counts days.
use mathlib.Core.Option
use kube_csr.Base.{
  ℕ, zero, suc, ◌+◌, ◌-◌, ◌/◌, ◌%◌, ◌^◌, ◌<◌, ◌≤◌, String, ◌<>◌, ◌≡◌, refl, ◌∙◌, true, false,
  Option, none, some, arith, ltb, ◌==◌, Bool-cases, inl, inr, if◌then◌else◌,
}
use kube_csr.Base.Int.{pos, negsuc, ◌+ℤ◌, ◌-ℤ◌, neg, wrap64, ltb_ℤ, leb_ℤ}
use kube_csr.Env.{Env, Duration}
use kube_csr.Strconv.{itoa}

abbrev day : ℕ
day = 86_400_000_000_000

abbrev second : ℕ
second = 1_000_000_000

-- More rounds than a duration of 64 bits has days.
abbrev rounds : ℕ
rounds = 106_752

-- The loop, on fuel: the days counted and what is left.
unfoldable pub count_days : ℕ → Duration → ℕ → Option (ℕ × Duration)
count_days zero d days = none
count_days (suc fuel) d days =
    let rest = count_days fuel (d -ℤ pos day) (days + 1) in
    if leb_ℤ (pos day) d then rest else some (days, d)

-- d.Round(time.Second): half a second is rounded away from zero, and a result out of range is
-- clamped.
unfoldable pub round_second : Duration → Duration
round_second (pos n) =
    let r = n % second in
    let d = wrap64 (pos (n + second - r)) in
    if ltb (r + r) second then pos (n - r) else if ltb_ℤ (pos n) d then d else pos (2 ^ 63 - 1)
round_second (negsuc n) =
    let r = (n + 1) % second in
    let d = wrap64 (negsuc n -ℤ pos second +ℤ pos r) in
    if ltb (r + r) second
    then negsuc n +ℤ pos r
    else if ltb_ℤ d (negsuc n)
    then d
    else negsuc (2 ^ 63 - 1)

-- The text of a count of days and what is left.
unfoldable pub shown : Env → ℕ → Duration → String
shown E days d =
    let text = E.duration_text (round_second d) in
    if days == 0 then text else itoa (pos days) <> " days and " <> text

unfoldable pub absolute : Duration → Duration
absolute d = if ltb_ℤ d (pos 0) then wrap64 (neg d) else d

-- None where the rounds do not suffice.
unfoldable pub duration_format : Env → Duration → Option String
duration_format E d =
    Option.map (λ (days, left). shown E days left) (count_days rounds (absolute d) 0)

day-less : (n : ℕ) → n < day → leb_ℤ (pos day) (pos n) ≡ false
day-less n h = ground arith

day-more : (n : ℕ) → day ≤ n → (leb_ℤ (pos day) (pos n) ≡ true) × (pos n -ℤ pos day ≡ pos (n - day))
unfolding ◌-ℤ◌
day-more n h = ground arith

-- With as much fuel as there are days, the loop divides by the length of a day.
count_days_lem :
    (fuel n days : ℕ)
    → n / day < fuel
    → count_days fuel (pos n) days ≡ some (days + n / day, pos (n % day))
unfolding count_days
count_days_lem zero n days h = absurd (omega arith)
count_days_lem (suc fuel) n days h = elim (Bool-cases (ltb n day)) [
  | inl less ↦
      let below : n < day = ground arith in
      let quotient : n / day ≡ 0 = omega arith in
      let remainder : n % day ≡ n = omega arith in
      rw (day-less n below) (ground (arith, quotient, remainder))
  | inr more ↦
      let above : day ≤ n = ground arith in
      let (test, left) = day-more n above in
      let quotient : days + 1 + (n - day) / day ≡ days + n / day = omega arith in
      let remainder : (n - day) % day ≡ n % day = omega arith in
      rw (test, left)
        (count_days_lem fuel (n - day) (days + 1) (omega arith) ∙ rw (quotient, remainder))
]

absolute-pos : (n : ℕ) → absolute (pos n) ≡ pos n
unfolding absolute
absolute-pos n = ground arith

absolute-neg : (n : ℕ) → n < 2 ^ 63 → absolute (neg (pos n)) ≡ pos n
unfolding absolute neg wrap64
absolute-neg n h = ground arith

-- Every duration but the least one is shown, with or without its sign, as its whole days and the
-- rest of a day: the loop ends, and it divides.
pub duration_format-shown :
    (E : Env) (n : ℕ)
    → n < 2 ^ 63
    → (duration_format E (pos n) ≡ some (shown E (n / day) (pos (n % day))))
      × (duration_format E (neg (pos n)) ≡ some (shown E (n / day) (pos (n % day))))
unfolding duration_format
duration_format-shown E n h =
    let plain : 0 + n / day ≡ n / day = omega arith in
    let counted : count_days rounds (pos n) 0 ≡ some (n / day, pos (n % day)) =
      count_days_lem rounds n 0 (omega arith) ∙ rw plain in
    (rw (absolute-pos n, counted) refl, rw (absolute-neg n h, counted) refl)
