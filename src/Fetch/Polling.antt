-- ===== src/Fetch/Polling.antt =====
-- How the loop of `Fetch` ends, and what it leaves.
use kube_csr.Base.{
  ap, ◌∙◌, ◌++◌, All, str_eq, true, ℕ, String, ◌≡◌, refl, ◌≢◌, Bool, false, Option, none, some,
  List, [], ◌∷◌, arith, fine, ok, err, errorf, waits, returned-ok, bind-ok, bind-ne-waits,
  returned-ne-waits, call,
}
use kube_csr.Base.Int.{pos, leb_ℤ}
use kube_csr.Env.{Env, World, Eff, Bytes, Csr, Condition, on_cluster, start_ticker}
use kube_csr.Env.Laws.{DiskLaws}
use kube_csr.Pemio.{save, write_file}
use kube_csr.Pemio.Writes.{write_file-path}
use kube_csr.Fetch.{
  certificate_denied, denial, Config, Event, signal, tick, timeout, find_denied, on_pending,
  on_request, deliver, await_certificate, fetch, update_annotations,
}

-- The events hold a signal or the end of the timeout.
pub data Ends : List Event → Type 0 where
  by_signal : (s : String) (events : List Event) → Ends (signal s ∷ events)
  by_timeout : (events : List Event) → Ends (timeout ∷ events)
  later : {events : List Event} → Ends events → Ends (tick ∷ events)

find_denied-first :
    (front back : List Condition) {c : Condition}
    → All (λ (d : Condition). str_eq d.kind certificate_denied ≡ false) front
    → str_eq c.kind certificate_denied ≡ true
    → find_denied (front ++ c ∷ back) ≡ some c
unfolding find_denied
find_denied-first [] back others denied = rw denied refl
find_denied-first (d ∷ front) back {c} others denied =
    rw others.0 (find_denied-first front back others.1 denied)

module _ (E : Env) where
  update_annotations-ne-waits :
      (conf : Config) (r : Csr) (w : World E) → (update_annotations E conf r w).0 ≢ waits
  unfolding update_annotations
  update_annotations-ne-waits conf r w = ground arith

  write_file-ne-waits :
      (b : Bytes) (path : String) (perm : ℕ) (override : Bool) (w : World E)
      → (write_file E b path perm override w).0 ≢ waits
  unfolding write_file save
  write_file-ne-waits b path perm override w = ground arith

  deliver-ne-waits :
      (conf : Config) (r : Csr) (b : Bytes) (w : World E) → (deliver E conf r b w).0 ≢ waits
  unfolding deliver
  deliver-ne-waits conf r b w =
      bind-ne-waits (update_annotations E conf r)
        (λ _. write_file E b conf.certificate_path conf.certificate_permission conf.override) w
        (update_annotations-ne-waits conf r w)
        (λ _ w'.
          write_file-ne-waits b conf.certificate_path conf.certificate_permission conf.override w')

  on_pending-ne-waits :
      (r : Csr) (found : Option Condition) (more : Eff E (Unit {0})) (w : World E)
      → (more w).0 ≢ waits
      → (on_pending E r found more w).0 ≢ waits
  unfolding on_pending
  on_pending-ne-waits r (some c) more w h = λ p. cc
  on_pending-ne-waits r none more w h = h

  on_request-ne-waits :
      (conf : Config) (r : Csr) (c : Option Bytes) (more : Eff E (Unit {0})) (w : World E)
      → (more w).0 ≢ waits
      → (on_request E conf r c more w).0 ≢ waits
  unfolding on_request
  on_request-ne-waits conf r (some b) more w h = deliver-ne-waits conf r b w
  on_request-ne-waits conf r none more w h = on_pending-ne-waits r _ more w h

  await_certificate-returns :
      (conf : Config) (name : String) (w : World E) {events : List Event}
      → Ends events
      → (await_certificate E conf name events w).0 ≢ waits
  unfolding await_certificate
  await_certificate-returns conf name w (by_signal s events) = ground arith
  await_certificate-returns conf name w (by_timeout events) = ground arith
  await_certificate-returns conf name w (later {events = rest} ends) =
      bind-ne-waits (call (on_cluster E (E.get name)))
        (λ r. on_request E conf r r.certificate (await_certificate E conf name rest)) w
        (returned-ne-waits (E.get name w.cluster).0)
        (λ r w'.
          on_request-ne-waits conf r r.certificate (await_certificate E conf name rest) w'
            (await_certificate-returns conf name w' ends))

  -- A fetch returns as soon as its timeout ends or a signal comes, if not before.
  pub fetch-returns :
      (conf : Config) (name : String) (w : World E) {events : List Event}
      → Ends events
      → (fetch E conf name events w).0 ≢ waits
  unfolding fetch
  fetch-returns conf name w {events} ends =
      bind-ne-waits (start_ticker E conf.polling_interval)
        (λ _. await_certificate E conf name events) w (ground arith)
        (λ _ v. await_certificate-returns conf name v ends)

  -- A fetch that polls at a positive interval ends at once by an error, if the request that it gets has
  -- no certificate and has a condition of denial: the error tells of the first such condition, whatever
  -- other conditions stand before and after it, and the disk and the kube-apiserver are as the call
  -- that asked for the request left them.
  pub fetch-denied :
      (conf : Config) (name : String) (events : List Event) (w : World E) {r : Csr} (c : Condition)
      (front back : List Condition)
      → leb_ℤ conf.polling_interval (pos 0) ≡ false
      → (E.get name w.cluster).0 ≡ fine r
      → r.certificate ≡ none
      → r.conditions ≡ front ++ c ∷ back
      → All (λ (d : Condition). str_eq d.kind certificate_denied ≡ false) front
      → str_eq c.kind certificate_denied ≡ true
      → let (result, w') = fetch E conf name (tick ∷ events) w in
        (result ≡ err (errorf (denial E r c)))
        × (w' ≡ record w { cluster = (E.get name w.cluster).1 })
  unfolding fetch await_certificate on_request on_pending
  fetch-denied conf name events w {r} c front back positive got pending conditions others denied =
      let found = ap find_denied conditions ∙ find_denied-first front back others denied in
      ground (arith, found)

  module _ (D : DiskLaws E) where
    -- The request that the kube-apiserver gave holds a certificate, which the file holds now.
    pub record IsDelivered (name path : String) (after : World E) : Type 0 where
      pub asked : World E
      pub request : Csr
      pub certificate : Bytes
      pub got : (E.get name asked.cluster).0 ≡ fine request
      pub has : request.certificate ≡ some certificate
      pub written : D.contents after.disk path ≡ some certificate

    deliver-written :
        (conf : Config) (r : Csr) (b : Bytes) (w : World E)
        → (deliver E conf r b w).0 ≡ ok tt
        → D.contents (deliver E conf r b w).1.disk conf.certificate_path ≡ some b
    unfolding deliver
    deliver-written conf r b w done =
        let (_, _, wrote, e) =
          bind-ok (update_annotations E conf r)
            (λ _. write_file E b conf.certificate_path conf.certificate_permission conf.override) w
            done in
        rw e (
          write_file-path E D b conf.certificate_path conf.certificate_permission conf.override _
            wrote)

    on_request-IsDelivered :
        (conf : Config) (name : String) (r : Csr) (c : Option Bytes) (more : Eff E (Unit {0}))
        (asked w : World E)
        → (E.get name asked.cluster).0 ≡ fine r
        → r.certificate ≡ c
        → ((w' : World E)
            → (more w').0 ≡ ok tt
            → IsDelivered name conf.certificate_path (more w').1)
        → (on_request E conf r c more w).0 ≡ ok tt
        → IsDelivered name conf.certificate_path (on_request E conf r c more w).1
    unfolding on_request on_pending
    on_request-IsDelivered conf name r (some b) more asked w got has next done = record {
      asked = asked;
      request = r;
      certificate = b;
      got = got;
      has = has;
      written = deliver-written conf r b w done;
    }
    on_request-IsDelivered conf name r none more asked w got has next done =
        on_pending-IsDelivered (find_denied r.conditions) done
      where
        on_pending-IsDelivered :
            (found : Option Condition)
            → (on_pending E r found more w).0 ≡ ok tt
            → IsDelivered name conf.certificate_path (on_pending E r found more w).1
        on_pending-IsDelivered (some c) d = absurd (ground arith)
        on_pending-IsDelivered none d = next w d

    await_certificate-IsDelivered :
        (conf : Config) (name : String) (events : List Event) (w : World E)
        → (await_certificate E conf name events w).0 ≡ ok tt
        → IsDelivered name conf.certificate_path (await_certificate E conf name events w).1
    unfolding await_certificate
    await_certificate-IsDelivered conf name [] w done = absurd (ground arith)
    await_certificate-IsDelivered conf name (signal s ∷ events) w done = absurd (ground arith)
    await_certificate-IsDelivered conf name (timeout ∷ events) w done = absurd (ground arith)
    await_certificate-IsDelivered conf name (tick ∷ events) w done =
        let (r, got, rest, e) =
          bind-ok (call (on_cluster E (E.get name)))
            (λ r. on_request E conf r r.certificate (await_certificate E conf name events)) w
            done in
        rw e (
          on_request-IsDelivered conf name r r.certificate (await_certificate E conf name events) w
            _ (returned-ok _ got) refl (await_certificate-IsDelivered conf name events) rest)

    -- A fetch that returns no error has got a request with a certificate from the kube-apiserver, and
    -- the certificate's file holds exactly its bytes.
    pub fetch-IsDelivered :
        (conf : Config) (name : String) (events : List Event) (w : World E)
        → (fetch E conf name events w).0 ≡ ok tt
        → IsDelivered name conf.certificate_path (fetch E conf name events w).1
    unfolding fetch
    fetch-IsDelivered conf name events w done =
        let (_, _, rest, e) =
          bind-ok (start_ticker E conf.polling_interval) (λ _. await_certificate E conf name events)
            w done in
        rw e (await_certificate-IsDelivered conf name events _ rest)
