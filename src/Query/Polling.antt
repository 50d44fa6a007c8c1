-- ===== src/Query/Polling.antt =====
-- How the query's loop ends, and how the services are named.
use Prim.Native.Char.{Char, code}
use mathlib.Core.Option
use kube_csr.Base.{
  ℕ, String, ◌≡◌, refl, ◌≢◌, ap, ◌⊎◌, Option, none, some, List, [], ◌∷◌, ◌++◌, arith, codes, ◌==◌,
  Result, ok, err, panic, waits, All, Bool-cases, inl, inr,
}
use kube_csr.Env.{Env, World}
use kube_csr.Query.{
  Config, Query, ServiceToQuery, Event, tick, timeout, Round, after_get, query_service, pass_on,
  query_services, after_pass, poll, get_subject_alternative_names, cut, from_parts, to_query,
}

-- The events hold the end of the timeout.
pub data Ends : List Event → Type 0 where
  by_timeout : (events : List Event) → Ends (timeout ∷ events)
  later : {events : List Event} → Ends events → Ends (tick ∷ events)

module _ (E : Env) where
  query_service-ne-waits :
      (s : ServiceToQuery) (sans : List String) (w : World E) → (query_service E s sans w).0 ≢ waits
  unfolding query_service after_get
  query_service-ne-waits s sans w = ground arith

  pass_on-ne-waits :
      (result : Result E.Failure (List String)) (s : ServiceToQuery) (ss : List ServiceToQuery)
      (w : World E) (more : List String → Round E (List String))
      → result ≢ waits
      → ((sans : List String) → (more sans).result ≢ waits)
      → (pass_on E result s ss w more).result ≢ waits
  unfolding pass_on
  pass_on-ne-waits (ok sans) s ss w more h k = k sans
  pass_on-ne-waits (err e) s ss w more h k = λ p. cc
  pass_on-ne-waits panic s ss w more h k = λ p. cc
  pass_on-ne-waits waits s ss w more h k = λ p. h refl

  query_services-ne-waits :
      (ss : List ServiceToQuery) (sans : List String) (w : World E)
      → (query_services E ss sans w).result ≢ waits
  unfolding query_services
  query_services-ne-waits [] sans w = λ p. cc
  query_services-ne-waits (s ∷ ss) sans w =
      let (result, s', w') = query_service E s sans w in
      pass_on-ne-waits result s' ss w' _ (query_service-ne-waits s sans w)
        (λ sans'. query_services-ne-waits ss sans' w')

  after_pass-ne-waits :
      (result : Result E.Failure (List String)) (pass : Round E (List String))
      (more : List String → Round E (List String))
      → pass.result ≢ waits
      → ((sans : List String) → (more sans).result ≢ waits)
      → (after_pass E result pass more).result ≢ waits
  unfolding after_pass
  after_pass-ne-waits (ok sans) pass more h k = ground (arith, k sans)
  after_pass-ne-waits (err e) pass more h k = h
  after_pass-ne-waits panic pass more h k = h
  after_pass-ne-waits waits pass more h k = h

  poll-ne-waits :
      (conf : Config) (ss : List ServiceToQuery) (sans : List String) (w : World E)
      {events : List Event}
      → Ends events
      → (poll E conf events ss sans w).result ≢ waits
  unfolding poll
  poll-ne-waits conf ss sans w (by_timeout events) = λ p. cc
  poll-ne-waits conf ss sans w (later ends) =
      let pass = query_services E ss sans w in
      after_pass-ne-waits pass.result pass _ (query_services-ne-waits ss sans w)
        (λ sans'. poll-ne-waits conf pass.services sans' pass.world ends)

  -- A query returns as soon as its timeout ends, if not before.
  pub get_subject_alternative_names-returns :
      (q : Query E) (w : World E) {events : List Event}
      → Ends events
      → (get_subject_alternative_names E events q w).result ≢ waits
  unfolding get_subject_alternative_names
  get_subject_alternative_names-returns q w ends =
      ground (arith, poll-ne-waits q.conf q.services [] w ends)

-- What is known of the two parts of a text around the first byte of a kind.
abbrev CutAt : ℕ → String → Option (String × String) → Type 0
CutAt byte s none = All (λ c. c ≢ byte) (codes s)
CutAt byte s (some (front, back)) =
    All (λ c. c ≢ byte) (codes front) × (codes s ≡ codes front ++ byte ∷ codes back)

CutAt-further :
    (byte : ℕ) (c : Char) (s : String) (r : Option (String × String))
    → code c ≢ byte
    → CutAt byte s r
    → CutAt byte (String.◌∷◌ c s) (Option.map (λ (front, back). (String.◌∷◌ c front, back)) r)
CutAt-further byte c s none h k = (h, k)
CutAt-further byte c s (some (front, back)) h (free, e) = ((h, free), ap (λ l. code c ∷ l) e)

cut-CutAt : (byte : ℕ) (s : String) → CutAt byte s (cut byte s)
unfolding cut
cut-CutAt byte String.[] = tt
cut-CutAt byte (String.◌∷◌ c s) = elim (Bool-cases (code c == byte)) [
  | inl e ↦ rw e (tt, ap (λ n. n ∷ codes s) (ground arith))
  | inr e ↦ rw e (CutAt-further byte c s (cut byte s) (ground arith) (cut-CutAt byte s))
]

-- What an element of the list of services stands for.
abbrev pub Names : String → String → ServiceToQuery → Type 0
Names current elt q =
    (All (λ c. c ≢ b'/') (codes elt) × (q.ns ≡ current) × (q.svc ≡ elt))
    ⊎ (All (λ c. c ≢ b'/') (codes q.ns) × (codes elt ≡ codes q.ns ++ b'/' ∷ codes q.svc))

from_parts-Names :
    (current elt : String) (r : Option (String × String))
    → CutAt b'/' elt r
    → Names current elt (from_parts current elt r)
unfolding from_parts
from_parts-Names current elt none h = inl (h, refl, refl)
from_parts-Names current elt (some (front, back)) h = inr h

-- An element of the list of services that holds a slash names the service behind its first slash in
-- the namespace in front of it; any other names a service in the current namespace.
pub to_query-Names : (current elt : String) → Names current elt (to_query current elt)
unfolding to_query
to_query-Names current elt = from_parts-Names current elt (cut b'/' elt) (cut-CutAt b'/' elt)
