-- ===== src/Generate/Reference.antt =====
-- The one loop that splits the hosts, against a description in two passes.
use kube_csr.Base.{
  String, ◌≡◌, refl, ap, ◌∙◌, true, none, some, List, [], ◌∷◌, ◌++◌, arith, eq_iff, has,
  Option-cases, Bool-cases, inl, inr, if◌then◌else◌,
}
use kube_csr.Env.{Env}
use kube_csr.Generate.{split_hosts}

-- The texts of a list that are not among those given.
unfoldable pub without : List String → List String → List String
without seen [] = []
without seen (x ∷ xs) = if has x seen then without seen xs else x ∷ without seen xs

-- Each text of a list once, where it stands first.
unfoldable pub distinct : List String → List String
distinct [] = []
distinct (x ∷ xs) = x ∷ without (x ∷ []) (distinct xs)

module _ (E : Env) where
  -- The hosts that are no address, and the addresses of the others.
  unfoldable pub names_of : List String → List String
  names_of [] = []
  names_of (h ∷ hosts) = elim (E.parse_ip h) [
    | none ↦ h ∷ names_of hosts
    | some ip ↦ names_of hosts
  ]

  unfoldable pub addresses_of : List String → List E.Ip
  addresses_of [] = []
  addresses_of (h ∷ hosts) = elim (E.parse_ip h) [
    | none ↦ addresses_of hosts
    | some ip ↦ ip ∷ addresses_of hosts
  ]

  without-nil : (xs : List String) → without [] xs ≡ xs
  unfolding without has
  without-nil [] = refl
  without-nil (x ∷ xs) = ap (λ ys. x ∷ ys) (without-nil xs)

  -- To leave out what has been seen already changes nothing.
  without-known :
      (seen : List String) (x : String) (xs : List String)
      → has x seen ≡ true
      → without seen (without (x ∷ []) xs) ≡ without seen xs
  unfolding without has
  without-known seen x [] known = refl
  without-known seen x (y ∷ xs) known = ground (arith, without-known seen x xs known, eq_iff x y)

  without-new :
      (seen : List String) (x : String) (xs : List String)
      → without seen (without (x ∷ []) xs) ≡ without (x ∷ seen) xs
  unfolding without has
  without-new seen x [] = refl
  without-new seen x (y ∷ xs) = ground (arith, without-new seen x xs)

  append_one :
      {A : Type 0} (xs : List A) (y : A) (ys : List A) → (xs ++ y ∷ []) ++ ys ≡ xs ++ y ∷ ys
  append_one [] y ys = refl
  append_one (x ∷ xs) y ys = ap (λ zs. x ∷ zs) (append_one xs y ys)

  append_nil : {A : Type 0} (xs : List A) → xs ++ [] ≡ xs
  append_nil [] = refl
  append_nil (x ∷ xs) = ap (λ zs. x ∷ zs) (append_nil xs)

  -- From any state of the loop, what is still to come is appended.
  split_hosts-from :
      (hosts seen dns : List String) (ips : List E.Ip)
      → let rest = without seen (distinct hosts) in
        split_hosts E hosts seen dns ips ≡ (dns ++ names_of rest, ips ++ addresses_of rest)
  unfolding split_hosts without distinct names_of addresses_of
  split_hosts-from [] seen dns ips = rw (append_nil dns, append_nil ips) refl
  split_hosts-from (h ∷ hosts) seen dns ips = elim (Bool-cases (has h seen)) [
    | inl known ↦
        rw (known, without-known seen h (distinct hosts) known)
          (split_hosts-from hosts seen dns ips)
    | inr new ↦
        let rest = without (h ∷ seen) (distinct hosts) in
        elim (Option-cases (E.parse_ip h)) [
          | inl name ↦
              rw (new, name, without-new seen h (distinct hosts))
                (split_hosts-from hosts (h ∷ seen) (dns ++ h ∷ []) ips
                  ∙ ap (λ names. (names, ips ++ addresses_of rest))
                      (append_one dns h (names_of rest)))
          | inr (ip, address) ↦
              rw (new, address, without-new seen h (distinct hosts))
                (split_hosts-from hosts (h ∷ seen) dns (ips ++ ip ∷ [])
                  ∙ ap (λ addresses. (dns ++ names_of rest, addresses))
                      (append_one ips ip (addresses_of rest)))
        ]
  ]

  -- The loop over the hosts, with its map of the hosts seen, gives what two passes give: of each host
  -- once, in the order in which they first stand, the names, and the addresses that the others are.
  pub split_hosts-distinct :
      (hosts : List String)
      → split_hosts E hosts [] [] [] ≡ (names_of (distinct hosts), addresses_of (distinct hosts))
  split_hosts-distinct hosts =
      split_hosts-from hosts [] [] []
      ∙ ap (λ rest. (names_of rest, addresses_of rest)) (without-nil (distinct hosts))
