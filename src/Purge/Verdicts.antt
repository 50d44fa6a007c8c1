-- ===== src/Purge/Verdicts.antt =====
-- When each verdict says that a request can be collected.
use kube_csr.Base.{
  ℕ, suc, ◌+◌, ◌^◌, ◌<◌, String, ◌≡◌, ◌↔◌, true, false, none, some, List, [], ◌∷◌, arith, str_eq,
  fine, ok, panic, length,
}
use kube_csr.Base.Int.{ℤ, pos, ◌+ℤ◌, ◌≤ℤ◌, neg, wrap64-eq_of_IsInt64, ltb_ℤ}
use kube_csr.Env.{Env, World, Time, Csr, Condition, Block, Bytes}
use kube_csr.Fetch.{certificate_denied, annotation_date, annotation_count, text_at}
use kube_csr.Fetch.Annotations.{fetched_at, last_of, fetched_at-count}
use kube_csr.Strconv.{atoi}
use kube_csr.Purge.{
  grace_limit, is_before_limit, is_first_denied, is_condition_denied, is_past,
  is_certificate_expired, is_map_fetched, is_fetched_at, is_block_expired, is_annotation_fetched,
}

grace_limit_lem :
    (now t : Time) (g : ℕ)
    → g < 2 ^ 63
    → (ltb_ℤ (grace_limit now (pos g)) t ≡ false) ↔ (t +ℤ pos g ≤ℤ now)
unfolding ◌+ℤ◌ neg
grace_limit_lem now t g h = rw (wrap64-eq_of_IsInt64 (neg (pos g)) (ground arith)) (ground arith)

-- The first condition is a denial, and the grace period since its last update is over.
abbrev pub DeniedBefore : List Condition → ℕ → Time → Type 0
DeniedBefore [] g now = ⊥
DeniedBefore (c ∷ cs) g now =
    (str_eq c.kind certificate_denied ≡ true) × (c.last_update_time +ℤ pos g ≤ℤ now)

module _ (E : Env) where
  is_before_limit_iff :
      (t : Time) (g : ℕ) (w : World E)
      → g < 2 ^ 63
      → ((is_before_limit E t (pos g) w).0 ≡ ok true) ↔ (t +ℤ pos g ≤ℤ (E.now w.host).0)
  unfolding is_before_limit
  is_before_limit_iff t g w h = (
    λ yes. (grace_limit_lem (E.now w.host).0 t g h).0 (ground arith),
    λ past. rw ((grace_limit_lem (E.now w.host).0 t g h).1 past),
  )

  first_denied_iff :
      (conditions : List Condition) (g : ℕ) (w : World E)
      → g < 2 ^ 63
      → ((is_first_denied E conditions (pos g) w).0 ≡ ok true)
        ↔ DeniedBefore conditions g (E.now w.host).0
  unfolding is_first_denied
  first_denied_iff [] g w h = (λ e. cc, λ e. absurd e)
  first_denied_iff (c ∷ cs) g w h = ground (arith, is_before_limit_iff c.last_update_time g w h)

  -- A request is collected as denied exactly when its first condition is a denial and the grace
  -- period since that condition's last update is over.
  pub is_condition_denied_iff :
      (csr : Csr) (g : ℕ) (w : World E)
      → g < 2 ^ 63
      → ((is_condition_denied E csr (pos g) w).0 ≡ ok true)
        ↔ DeniedBefore csr.conditions g (E.now w.host).0
  unfolding is_condition_denied
  is_condition_denied_iff csr g w h = first_denied_iff csr.conditions g w h

  is_map_fetched_iff :
      (m : List (String × String)) (t : Time) (g : ℕ) (w : World E)
      → g < 2 ^ 63
      → (n : ℕ) → atoi (text_at annotation_count m) ≡ (pos n, true)
      → 0 < n
      → str_eq (text_at annotation_date m) "" ≡ false
      → E.parse_time (text_at annotation_date m) ≡ fine t
      → ((is_map_fetched E m (pos g) w).0 ≡ ok true) ↔ (t +ℤ pos g ≤ℤ (E.now w.host).0)
  unfolding is_map_fetched is_fetched_at
  is_map_fetched_iff m t g w h n count some_fetch dated parsed =
      ground (arith, is_before_limit_iff t g w h)

  -- A request fetched as often as there are times, and annotated at each, is collected as fetched
  -- exactly when the grace period since the last of these times is over.
  pub is_annotation_fetched_iff :
      (csr : Csr) (first : String) (times : List String) (t : Time) (g : ℕ) (w : World E)
      → g < 2 ^ 63
      → length times + 1 < 2 ^ 63
      → csr.annotations ≡ some (fetched_at first times)
      → str_eq (last_of first times) "" ≡ false
      → E.parse_time (last_of first times) ≡ fine t
      → ((is_annotation_fetched E csr (pos g) w).0 ≡ ok true) ↔ (t +ℤ pos g ≤ℤ (E.now w.host).0)
  unfolding is_annotation_fetched
  is_annotation_fetched_iff csr first times t g w h few annotated dated parsed = ground (
    arith,
    is_map_fetched_iff (fetched_at first times) t g w h (suc (length times))
        (fetched_at-count first times few).0 (omega arith)
        (rw ((fetched_at-count first times few).1) dated)
        (rw ((fetched_at-count first times few).1) parsed),
  )

  is_past_iff :
      (end : Time) (g : ℕ) (w : World E)
      → g < 2 ^ 63
      → ((is_past E end (pos g) w).0 ≡ ok true)
        ↔ ((end ≤ℤ (E.now w.host).0) × (end +ℤ pos g ≤ℤ (E.now w.host).0))
  unfolding is_past
  is_past_iff end g w h = ground (arith, grace_limit_lem (E.now w.host).0 end g h)

  -- A certificate that parses is collected as expired exactly when it has ended and the grace
  -- period since its end is over.
  pub is_certificate_expired_iff :
      (csr : Csr) (b : Bytes) (block : Block) (end : Time) (g : ℕ) (w : World E)
      → g < 2 ^ 63
      → csr.certificate ≡ some b
      → E.pem_decode b ≡ (some block, [])
      → E.parse_certificate block.bytes ≡ fine end
      → ((is_certificate_expired E csr (pos g) w).0 ≡ ok true)
        ↔ ((end ≤ℤ (E.now w.host).0) × (end +ℤ pos g ≤ℤ (E.now w.host).0))
  unfolding is_certificate_expired is_block_expired
  is_certificate_expired_iff csr b block end g w h has decoded parsed =
      ground (arith, is_past_iff end g w h)

  -- A certificate that is there, has no PEM block and leaves no rest, such as one of no bytes, makes
  -- the verdict panic instead of answering.
  pub is_certificate_expired-panics :
      (csr : Csr) (b : Bytes) (grace : ℤ) (w : World E)
      → csr.certificate ≡ some b
      → E.pem_decode b ≡ (none, [])
      → (is_certificate_expired E csr grace w).0 ≡ panic
  unfolding is_certificate_expired is_block_expired
  is_certificate_expired-panics csr b grace w has decoded = ground arith
