-- ===== src/Query/Names.antt =====
-- The names that a query returns are those of the services that had not been queried before.
use kube_csr.Base.{ℕ, suc, ◌+◌, String, ◌≡◌, List, [], ◌∷◌, str_eq, fine, ok, if◌then◌else◌}
use kube_csr.Env.{Env, ServiceSpec}
use kube_csr.Query.{Query, ServiceToQuery, sans_of, tally, Round}

-- How often a name stands in a list.
abbrev pub occurrences : String → List String → ℕ
occurrences x [] = 0
occurrences x (y ∷ l) = if str_eq y x then suc (occurrences x l) else occurrences x l

-- What the kube-apiserver says of each service, as often as it is asked and finds it.
pub record Answers (E : Env) : Type 0 where
  pub spec : String → String → ServiceSpec
  pub given :
      (ns svc : String) (k : E.Cluster) {s : ServiceSpec}
      → (E.get_service ns svc k).0 ≡ fine s
      → s ≡ spec ns svc

module _ (E : Env) (A : Answers E) where
  -- How often a name is given by a service, if it has not been queried yet.
  abbrev pub owed : String → ServiceToQuery → ℕ
  owed x s = if s.done then 0 else occurrences x (sans_of (A.spec s.ns s.svc))

  abbrev pub pending : String → List ServiceToQuery → ℕ
  pending x [] = 0
  pending x (s ∷ ss) = owed x s + pending x ss

  -- The count of a name that a call keeps: found and still owed.
  Keeps : String → List String → List ServiceToQuery → Round E (List String) → Type 0
  Keeps x sans ss round =
      (found : List String)
      → round.result ≡ ok found
      → occurrences x found + pending x round.services ≡ occurrences x sans + pending x ss

  -- The loop ends by an answer only when nothing is owed.
  Settles : String → List String → List ServiceToQuery → Round E (List String) → Type 0
  Settles x sans ss round =
      (found : List String)
      → round.result ≡ ok found
      → (occurrences x found ≡ occurrences x sans + pending x ss) × ((tally round.services).0 ≡ 0)
