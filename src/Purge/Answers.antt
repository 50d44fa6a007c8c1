-- ===== src/Purge/Answers.antt =====
-- The answers that the verdicts give in the course of a collection, and what one request makes of them.
use text.Mathlib.TextPositions.{eq_refl}
use kube_csr.Base.{
  ap, ℕ, suc, ◌+◌, ◌≤◌, ◌<◌, String, ◌≡◌, refl, ◌∙◌, subst, ◌≢◌, Bool, true, false, ◌&&◌, ◌||◌,
  none, List, [], ◌∷◌, ◌++◌, arith, str_eq, ltb, ok, returned-ok, bind-ok, pure, ◌>>=◌, ◌>>◌, All,
  if◌then◌else◌,
}
use kube_csr.Env.{Env, World, Duration, Csr, inc, emit}
use kube_csr.Env.Laws.{ClusterLaws}
use kube_csr.Lifecycle.Loops.{Leaves}
use kube_csr.Purge.{Verdict, delete, purge_if, purge_item, delete_counter}

-- The world after an answer: a request that is to go has been deleted, and the deletion counted.
abbrev pub after_answer : (E : Env) → Bool → String → World E → World E
after_answer E false name w = w
after_answer E true name w = record w {
  cluster = (E.delete name w.cluster).1;
  metrics = w.metrics ++ (inc delete_counter ∷ []);
}

-- The verdicts on one request, each asked in the world that the ones before it have left: their
-- answers, and the world after the last.
pub data Answers (E : Env) (grace : Duration) (c : Csr)
    : List (Verdict E) → World E → List Bool → World E → Type 0 where
  none_left : (w : World E) → Answers E grace c [] w [] w
  answer :
      {fn : Verdict E} {fns : List (Verdict E)} {w v : World E} {b : Bool} {bs : List Bool}
      → (fn c grace w).0 ≡ ok b
      → Answers E grace c fns (after_answer E b c.name (fn c grace w).1) bs v
      → Answers E grace c (fn ∷ fns) w (b ∷ bs) v

-- The same for the requests of a list, one after the other: a row of answers for each.
pub data Rows (E : Env) (grace : Duration) (fns : List (Verdict E))
    : List Csr → World E → List (List Bool) → World E → Type 0 where
  none_left : (w : World E) → Rows E grace fns [] w [] w
  row :
      {c : Csr} {items : List Csr} {w v u : World E} {bs : List Bool} {rows : List (List Bool)}
      → Answers E grace c fns w bs v
      → Rows E grace fns items v rows u
      → Rows E grace fns (c ∷ items) w (bs ∷ rows) u

-- How many answers are yes.
abbrev pub hits : List Bool → ℕ
hits [] = 0
hits (b ∷ bs) = if b then suc (hits bs) else hits bs

-- Some request of the list has the name and got a yes.
abbrev pub collected : List Csr → List (List Bool) → String → Bool
collected (c ∷ items) (bs ∷ rows) name =
    (ltb 0 (hits bs) && str_eq c.name name) || collected items rows name
collected _ _ name = false

abbrev pub total_hits : List (List Bool) → ℕ
total_hits [] = 0
total_hits (bs ∷ rows) = hits bs + total_hits rows

module _ (E : Env) (K : ClusterLaws E) where
  open K use {stored}

  pub record Purged (hit : ℕ) (name : String) (purged : ℕ) (before : World E) (after : World E)
      (n : ℕ) : Type 0 where
    pub counted : n ≡ purged + hit
    pub once : hit ≤ 1
    pub there : 0 < hit → stored before.cluster name ≢ none
    pub at :
        (j : String)
        → stored after.cluster j
          ≡ (if ltb 0 hit && str_eq name j then none else stored before.cluster j)

  pub purge_if-Purged :
      (b : Bool) (name : String) (purged : ℕ) (w : World E) {n : ℕ}
      → (purge_if E b name purged w).0 ≡ ok n
      → Purged (if b then 1 else 0) name purged w (purge_if E b name purged w).1 n
  unfolding purge_if delete
  purge_if-Purged false name purged w done = record {
    counted = ground arith;
    once = omega arith;
    there = λ h. absurd (omega arith);
    at = λ j. refl;
  }
  purge_if-Purged true name purged w done =
      let (_, deleted, rest, e) =
        bind-ok (delete E name) (λ _. emit E (inc delete_counter) >> pure (purged + 1)) w done in
      let (there, at) = K.delete_done name w.cluster (returned-ok _ deleted) in
      rw e
        (record { counted = ground arith; once = omega arith; there = λ _. there; at = λ j. at j })

  -- A request that is gone cannot be deleted again.
  Purged-then :
      (b : Bool) (name : String) {p n m h : ℕ} {w w' w'' : World E}
      → Purged (if b then 1 else 0) name p w w' n
      → Purged h name n w' w'' m
      → Purged (if b then suc h else h) name p w w'' m
  Purged-then false name first later = record {
    counted = omega (arith, first.counted, later.counted);
    once = later.once;
    there = λ pos_h. ground (arith, later.there pos_h, first.at name);
    at = λ j. ground (arith, later.at j, first.at j);
  }
  Purged-then true name {h} first later = record {
    counted = omega (arith, first.counted, later.counted);
    once = omega (arith, last);
    there = λ _. first.there (omega arith);
    at = λ j. ground (arith, last, later.at j, first.at j);
  }
    where
      last : h ≤ 0
      last = grind (arith, first.at name, later.there, eq_refl name)

  Purged-from :
      (name : String) (w w' : World E) {h p n : ℕ} {after : World E}
      → w'.cluster ≡ w.cluster
      → Purged h name p w' after n
      → Purged h name p w after n
  Purged-from name w w' same step = record {
    counted = step.counted;
    once = step.once;
    there = λ h. rw (← same) (step.there h);
    at = λ j. step.at j ∙ rw same;
  }

  -- A deletion that succeeds leaves the world after its answer.
  purge_if-after :
      (b : Bool) (name : String) (purged : ℕ) (w : World E) {n : ℕ}
      → (purge_if E b name purged w).0 ≡ ok n
      → (purge_if E b name purged w).1 ≡ after_answer E b name w
  unfolding purge_if delete
  purge_if-after false name purged w done = refl
  purge_if-after true name purged w done =
      let (_, _, _, e) =
        bind-ok (delete E name) (λ _. emit E (inc delete_counter) >> pure (purged + 1)) w done in
      ap (λ x. x.1) e

  pub purge_item-Purged :
      (grace : Duration) (fns : List (Verdict E)) (c : Csr) (purged : ℕ) (w : World E) {n : ℕ}
      → All (Leaves E) fns
      → (purge_item E fns grace c purged w).0 ≡ ok n
      → let w' = (purge_item E fns grace c purged w).1 in
        (bs : List Bool) × Answers E grace c fns w bs w' × Purged (hits bs) c.name purged w w' n
  unfolding purge_item
  purge_item-Purged grace [] c purged w leave done = (
    [],
    none_left w,
    record {
      counted = ground arith;
      once = omega arith;
      there = λ h. absurd (omega arith);
      at = λ j. refl;
    },
  )
  purge_item-Purged grace (fn ∷ fns) c purged w {n} leave done =
      let step = λ (verdict : Bool). purge_if E verdict c.name purged in
      let rest = λ (p : ℕ). purge_item E fns grace c p in
      let w' = (fn c grace w).1 in
      let (b, answered, chosen, e) = bind-ok (fn c grace) (λ v. step v >>= rest) w done in
      let (p, first, later, e') = bind-ok (step b) rest w' chosen in
      let (bs, answers, purges) = purge_item-Purged grace fns c p (step b w').1 leave.1 later in
      (
        b ∷ bs,
        rw (e, e')
            (answer answered (
              subst (λ u. Answers E grace c fns u bs (rest p (step b w').1).1)
                (purge_if-after b c.name purged w' first) answers)),
        rw (e, e')
            (Purged-from c.name w w' (leave.0 c grace w)
              (Purged-then b c.name (purge_if-Purged b c.name purged w' first) purges)),
      )
