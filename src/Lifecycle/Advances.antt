-- ===== src/Lifecycle/Advances.antt =====
-- What a part of a run does: it keeps the configuration of the operation, and moves the requests of
-- the names of one kind by steps of their life.
use kube_csr.Base.{String, ◌≡◌, refl, ap, ◌∙◌, Bool, Option, List, ok, bind-carries, pure, ◌>>=◌}
use kube_csr.Env.{Env, Eff}
use kube_csr.Env.Laws.{ClusterLaws}
use kube_csr.Generate
use kube_csr.Query.{Query}
use kube_csr.Operation.{Operation, Process, Run, within, modify}
use kube_csr.Lifecycle.{Action, Reach, here, Reach-trans}
use kube_csr.Lifecycle.Parts.{Moves}

-- All of an operation but its name, its hosts, its services and the mark of the approval.
pub record IsKept {E : Env} (before after : Operation E) : Type 0 where
  pub source : after.source_config ≡ record before.source_config {
    name = after.source_config.name;
    hosts = after.source_config.hosts;
  }
  pub generate : after.generate ≡ before.generate
  pub submit : after.submit ≡ before.submit
  pub approve : after.approve ≡ before.approve
  pub fetch : after.fetch ≡ before.fetch
  pub purge : after.purge ≡ before.purge

-- Every action, on the names of one kind.
abbrev pub OnlyTo : (String → Type 0) → Action → String → Type 0
OnlyTo Named action name = Named name

module _ (E : Env) (K : ClusterLaws E) (Named : String → Type 0) where
  open K use {stored}

  abbrev pub name_of : Process E → String
  name_of p = p.operation.source_config.name

  pub record Advances (p q : Process E) : Type 0 where
    pub kept : IsKept p.operation q.operation
    pub name : Named (name_of p) → Named (name_of q)
    pub moves :
        Named (name_of p) → Reach (OnlyTo Named) (stored p.world.cluster) (stored q.world.cluster)

  -- What a run may change in its operation.
  abbrev pub changed : Operation E → String → List String → Option (Query E) → Bool → Operation E
  changed o name hosts query approved = record o {
    source_config = record o.source_config { name = name; hosts = hosts };
    query = query;
    approved = approved;
  }

  pub changed-IsKept :
      (o : Operation E) (name : String) (hosts : List String) (query : Option (Query E))
      (approved : Bool)
      → IsKept o (changed o name hosts query approved)
  changed-IsKept o name hosts query approved = record {
    source = refl;
    generate = refl;
    submit = refl;
    approve = refl;
    fetch = refl;
    purge = refl;
  }

  IsKept-refl : (o : Operation E) → IsKept o o
  IsKept-refl o = changed-IsKept o o.source_config.name o.source_config.hosts o.query o.approved

  IsKept-trans : (a b c : Operation E) → IsKept a b → IsKept b c → IsKept a c
  IsKept-trans a b c h k = record {
    source =
        k.source
        ∙ ap {A = Generate.Config}
            (λ s. record s { name = c.source_config.name; hosts = c.source_config.hosts }) h.source;
    generate = k.generate ∙ h.generate;
    submit = k.submit ∙ h.submit;
    approve = k.approve ∙ h.approve;
    fetch = k.fetch ∙ h.fetch;
    purge = k.purge ∙ h.purge;
  }

  pub Advances-trans : (a b c : Process E) → Advances a b → Advances b c → Advances a c
  Advances-trans a b c h k = record {
    kept = IsKept-trans a.operation b.operation c.operation h.kept k.kept;
    name = λ n. k.name (h.name n);
    moves = λ n. Reach-trans (h.moves n) (k.moves (h.name n));
  }

  abbrev pub Does : {A : Type 0} → Run E A → Process E → Type 0
  Does m p = Advances p (m p).1

  pub bind-Does :
      {A B : Type 0} (m : Run E A) (f : A → Run E B) (p : Process E)
      → Does m p
      → ((a : A) → (m p).0 ≡ ok a → Does (f a) (m p).1)
      → Does (m >>= f) p
  bind-Does m f p = bind-carries Advances m f p Advances-trans

  -- A part that leaves the operation alone.
  pub within-Does :
      {A : Type 0} (m : Eff E A) (p : Process E)
      → (Named (name_of p) → Moves E K (OnlyTo Named) m p.world)
      → Does (within E m) p
  within-Does m p moved = record { kept = IsKept-refl p.operation; name = λ n. n; moves = moved }

  -- A change of the operation that leaves the world and the name alone.
  pub modify-Does :
      (p : Process E) (hosts : List String) (query : Option (Query E)) (approved : Bool)
      → Does (modify E (λ o. changed o (name_of p) hosts query approved)) p
  modify-Does p hosts query approved = record {
    kept = changed-IsKept p.operation (name_of p) hosts query approved;
    name = λ n. n;
    moves = λ n. here;
  }

  pub pure-Does : {A : Type 0} (a : A) (p : Process E) → Does (pure a) p
  pure-Does a p = record { kept = IsKept-refl p.operation; name = λ n. n; moves = λ n. here }
