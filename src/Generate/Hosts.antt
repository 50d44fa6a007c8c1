-- ===== src/Generate/Hosts.antt =====
-- How the hosts are split into names and addresses.
use kube_csr.Base.{
  String, ◌≡◌, refl, ◌∙◌, Bool, true, false, ◌&&◌, ◌||◌, none, some, List, [], ◌∷◌, ◌++◌, arith,
  eq_iff, has, Option-cases, Bool-cases, inl, inr,
}
use kube_csr.Env.{Env}
use kube_csr.Sort.Laws.{
  IsSorted, IsDistinct, IsSorted-unique, has-sort_strings, sort_strings-IsSorted,
}
use kube_csr.Generate.{Config, split_hosts, categorize_hosts}

has-append : (x : String) (l m : List String) → has x (l ++ m) ≡ (has x l || has x m)
unfolding has
has-append x [] m = refl
has-append x (y ∷ l) m = ground (arith, has-append x l m)

IsDistinct-append_one :
    (l : List String) (x : String) → IsDistinct l → has x l ≡ false → IsDistinct (l ++ x ∷ [])
unfolding has
IsDistinct-append_one [] x h new = (refl, tt)
IsDistinct-append_one (y ∷ l) x h new = (
  ground (arith, has-append y l (x ∷ []), eq_iff y x, eq_iff x y),
  IsDistinct-append_one l x h.1 (ground arith),
)

module _ (E : Env) where
  abbrev pub is_name : String → Bool
  is_name h = elim (E.parse_ip h) [ none ↦ true | some ip ↦ false ]

  -- The names collected so far are distinct, and are the names among the hosts seen.
  record AreNames (seen dns : List String) : Type 0 where
    distinct : IsDistinct dns
    named : (x : String) → has x dns ≡ (has x seen && is_name x)

  abbrev IsSplit : List String → List String → List String → Type 0
  IsSplit seen hosts dns =
      IsDistinct dns × ((x : String) → has x dns ≡ ((has x seen || has x hosts) && is_name x))

  -- One more name, or one more address, among the hosts seen.
  AreNames-name :
      (h : String) (seen dns : List String)
      → has h seen ≡ false
      → E.parse_ip h ≡ none
      → AreNames seen dns
      → AreNames (h ∷ seen) (dns ++ h ∷ [])
  unfolding has
  AreNames-name h seen dns new name n = record {
    distinct = IsDistinct-append_one dns h n.distinct (ground (arith, n.named h));
    named = λ x. ground (arith, has-append x dns (h ∷ []), n.named x, eq_iff h x);
  }

  AreNames-address :
      (h : String) (seen dns : List String) {ip : E.Ip}
      → E.parse_ip h ≡ some ip
      → AreNames seen dns
      → AreNames (h ∷ seen) dns
  unfolding has
  AreNames-address h seen dns address n = record {
    distinct = n.distinct;
    named = λ x. ground (arith, n.named x, eq_iff h x);
  }

  IsSplit-seen :
      (h : String) (seen hosts dns : List String)
      → IsSplit (h ∷ seen) hosts dns
      → IsSplit seen (h ∷ hosts) dns
  unfolding has
  IsSplit-seen h seen hosts dns (distinct, members) = (distinct, λ x. ground (arith, members x))

  IsSplit-known :
      (h : String) (seen hosts dns : List String)
      → has h seen ≡ true
      → IsSplit seen hosts dns
      → IsSplit seen (h ∷ hosts) dns
  unfolding has
  IsSplit-known h seen hosts dns old (distinct, members) =
      (distinct, λ x. ground (arith, members x, eq_iff h x))

  split_hosts-IsSplit :
      (hosts seen dns : List String) (ips : List E.Ip)
      → AreNames seen dns
      → IsSplit seen hosts (split_hosts E hosts seen dns ips).0
  unfolding split_hosts
  split_hosts-IsSplit [] seen dns ips n = unfold has in (n.distinct, λ x. ground (arith, n.named x))
  split_hosts-IsSplit (h ∷ hosts) seen dns ips n = elim (Bool-cases (has h seen)) [
    | inl old ↦ rw old (IsSplit-known h seen hosts _ old (split_hosts-IsSplit hosts seen dns ips n))
    | inr new ↦ elim (Option-cases (E.parse_ip h)) [
      | inl name ↦
          rw (new, name)
            (IsSplit-seen h seen hosts _ (
              split_hosts-IsSplit hosts (h ∷ seen) (dns ++ h ∷ []) ips
                (AreNames-name h seen dns new name n)))
      | inr (ip, address) ↦
          rw (new, address)
            (IsSplit-seen h seen hosts _ (
              split_hosts-IsSplit hosts (h ∷ seen) dns (ips ++ ip ∷ [])
                (AreNames-address h seen dns address n)))
    ]
  ]

  split_hosts-start : (hosts : List String) → IsSplit [] hosts (split_hosts E hosts [] [] []).0
  split_hosts-start hosts =
      split_hosts-IsSplit hosts [] [] [] (record { distinct = tt; named = λ x. unfold has in refl })

  -- The DNS names of a request are strictly sorted, so that none is given twice, and they are exactly
  -- the configured hosts that are no addresses.
  pub categorize_hosts-names :
      (conf : Config)
      → let dns = (categorize_hosts E conf).0 in
        IsSorted dns × ((x : String) → has x dns ≡ (has x conf.hosts && is_name x))
  unfolding categorize_hosts
  categorize_hosts-names conf =
      let (distinct, members) = split_hosts-start conf.hosts in
      (
        sort_strings-IsSorted _ distinct,
        λ x. has-sort_strings x _ ∙ members x ∙ (unfold has in refl),
      )

  -- The DNS names depend on the set of the hosts alone: neither their order nor their repetition
  -- changes the names in the request.
  pub categorize_hosts-stable :
      (a b : Config)
      → ((x : String) → has x a.hosts ≡ has x b.hosts)
      → (categorize_hosts E a).0 ≡ (categorize_hosts E b).0
  categorize_hosts-stable a b same =
      let (sorted_a, names_a) = categorize_hosts-names a in
      let (sorted_b, names_b) = categorize_hosts-names b in
      IsSorted-unique _ _ sorted_a sorted_b (λ x. names_a x ∙ rw (same x, names_b x))
