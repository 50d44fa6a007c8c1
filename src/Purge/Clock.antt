-- ===== src/Purge/Clock.antt =====
-- In the course of a collection the clock is not set back.
use kube_csr.Base.{
  ℕ, String, Bool, true, false, Option, none, some, List, [], ◌∷◌, arith, fine, failed,
  bind-carries, ◌>>=◌, All, Option-cases, Reply-cases, inl, inr, Reply,
}
use kube_csr.Base.Int.{◌≤ℤ◌}
use kube_csr.Env.{Env, World, Eff, Time, Duration, Csr, Condition, Block, read_host}
use kube_csr.Env.Laws.{ClockLaws}
use kube_csr.Fetch.{text_at, annotation_date}
use kube_csr.Purge.{
  Verdict, is_past, is_block_expired, is_certificate_expired, is_before_limit, is_first_denied,
  is_condition_denied, is_fetched_at, is_map_fetched, is_annotation_fetched, delete, purge_if,
  purge_item,
}

module _ (E : Env) (C : ClockLaws E) (time : Time) where
  -- The clock has reached the time.
  abbrev pub Reached : World E → Type 0
  Reached w = time ≤ℤ (E.now w.host).0

  -- An action after which the clock has still reached it.
  abbrev Keeps : {A : Type 0} → Eff E A → Type 0
  Keeps m = (w : World E) → Reached w → Reached (m w).1

  bind-Keeps :
      {A B : Type 0} (m : Eff E A) (f : A → Eff E B)
      → Keeps m
      → ((a : A) → Keeps (f a))
      → Keeps (m >>= f)
  bind-Keeps m f h k w =
      bind-carries (λ u v. Reached u → Reached v) m f w (λ a b c p q r. q (p r)) (h w)
        (λ a _. k a (m w).1)

  pub now-Keeps : Keeps (read_host E E.now)
  now-Keeps w reached = omega (arith, C.no_return w.host)

  is_past-Keeps : (t : Time) (grace : Duration) → Keeps (is_past E t grace)
  unfolding is_past
  is_past-Keeps t grace w reached =
      ground (arith, now-Keeps w reached, now-Keeps (read_host E E.now w).1 (now-Keeps w reached))

  is_before_limit-Keeps : (t : Time) (grace : Duration) → Keeps (is_before_limit E t grace)
  unfolding is_before_limit
  is_before_limit-Keeps t grace w reached = now-Keeps w reached

  is_block_expired-Keeps :
      (block : Option Block) (grace : Duration) → Keeps (is_block_expired E block grace)
  unfolding is_block_expired
  is_block_expired-Keeps none grace w reached = reached
  is_block_expired-Keeps (some b) grace w reached =
      elim (Reply-cases (E.parse_certificate b.bytes)) [
        | inl (t, e) ↦ ground (arith, is_past-Keeps t grace w reached)
        | inr (f, e) ↦ ground arith
      ]

  pub is_certificate_expired-Keeps :
      (c : Csr) (grace : Duration) → Keeps (is_certificate_expired E c grace)
  unfolding is_certificate_expired
  is_certificate_expired-Keeps c grace w reached = elim (Option-cases c.certificate) [
    | inl absent ↦ rw absent reached
    | inr (b, e) ↦ rw e (ground (arith, is_block_expired-Keeps (E.pem_decode b).0 grace w reached))
  ]

  is_first_denied-Keeps :
      (conditions : List Condition) (grace : Duration) → Keeps (is_first_denied E conditions grace)
  unfolding is_first_denied
  is_first_denied-Keeps [] grace w reached = reached
  is_first_denied-Keeps (c ∷ cs) grace w reached =
      ground (arith, is_before_limit-Keeps c.last_update_time grace w reached)

  pub is_condition_denied-Keeps :
      (c : Csr) (grace : Duration) → Keeps (is_condition_denied E c grace)
  unfolding is_condition_denied
  is_condition_denied-Keeps c grace = is_first_denied-Keeps c.conditions grace

  is_fetched_at-Keeps :
      (reply : Reply E.Failure Time) (grace : Duration) → Keeps (is_fetched_at E reply grace)
  unfolding is_fetched_at
  is_fetched_at-Keeps (fine t) grace w reached = is_before_limit-Keeps t grace w reached
  is_fetched_at-Keeps (failed f) grace w reached = reached

  is_map_fetched-Keeps :
      (m : List (String × String)) (grace : Duration) → Keeps (is_map_fetched E m grace)
  unfolding is_map_fetched
  is_map_fetched-Keeps m grace w reached =
      ground (arith, is_fetched_at-Keeps (E.parse_time (text_at annotation_date m)) grace w reached)

  pub is_annotation_fetched-Keeps :
      (c : Csr) (grace : Duration) → Keeps (is_annotation_fetched E c grace)
  unfolding is_annotation_fetched
  is_annotation_fetched-Keeps c grace w reached = elim (Option-cases c.annotations) [
    | inl absent ↦ rw absent reached
    | inr (m, e) ↦ rw e (is_map_fetched-Keeps m grace w reached)
  ]

  pub purge_if-Keeps : (b : Bool) (name : String) (purged : ℕ) → Keeps (purge_if E b name purged)
  unfolding purge_if delete
  purge_if-Keeps false name purged w reached = reached
  purge_if-Keeps true name purged w reached = ground arith

  abbrev pub VerdictKeeps : Verdict E → Type 0
  VerdictKeeps fn = (c : Csr) (grace : Duration) → Keeps (fn c grace)

  pub purge_item-Keeps :
      (fns : List (Verdict E)) (grace : Duration) (c : Csr) (purged : ℕ)
      → All VerdictKeeps fns
      → Keeps (purge_item E fns grace c purged)
  unfolding purge_item
  purge_item-Keeps [] grace c purged keep = λ w reached. reached
  purge_item-Keeps (fn ∷ fns) grace c purged keep = bind-Keeps (fn c grace) _ (keep.0 c grace) (λ b.
      bind-Keeps (purge_if E b c.name purged) (purge_item E fns grace c)
        (purge_if-Keeps b c.name purged) (λ p. purge_item-Keeps fns grace c p keep.1))
