-- ===== src/Generate/Files.antt =====
-- What generating a request leaves on the disk, and what it leaves alone.
use text.Mathlib.TextPositions.{eq_refl}
use kube_csr.Base.{
  ℕ, String, ◌≡◌, refl, ◌∙◌, Bool, true, false, Option, none, some, arith, str_eq, fine, ok,
  bind-ok, bind-keeps, returned-ok, call, if◌then◌else◌, Reply-cases, Bool-cases, inl, inr,
}
use kube_csr.Env.{Env, World, Eff, Bytes, Block, Template, on_disk}
use kube_csr.Env.Laws.{DiskLaws}
use kube_csr.Pemio.{write_pem}
use kube_csr.Pemio.Writes.{write_pem-write_file, write_file-writes, write_file-cluster}
use kube_csr.Generate.{
  Config, csr_type, rsa_private_key_type, private_key, load_key, decoded_key, generate_crypto_data,
  categorize_hosts, write_key, generate,
}

module _ (E : Env) where
  private_key-cluster : (conf : Config) (w : World E) → (private_key E conf w).1.cluster ≡ w.cluster
  unfolding private_key load_key decoded_key
  private_key-cluster conf w = ground arith

  generate_crypto_data-cluster :
      (conf : Config) (w : World E) → (generate_crypto_data E conf w).1.cluster ≡ w.cluster
  unfolding generate_crypto_data
  generate_crypto_data-cluster conf w = ground (arith, private_key-cluster conf w)

  write_pem-cluster :
      (b : Bytes) (kind file : String) (permission : ℕ) (override : Bool) (w : World E)
      → (write_pem E b kind file permission override w).1.cluster ≡ w.cluster
  write_pem-cluster b kind file permission override w =
      let encoded = E.pem_encode (record { kind = kind; bytes = b }) in
      rw (write_pem-write_file E b kind file permission override)
        (write_file-cluster E encoded file permission override w)

  write_key-cluster :
      (conf : Config) (key : Bytes) (w : World E) → (write_key E conf key w).1.cluster ≡ w.cluster
  unfolding write_key
  write_key-cluster conf key w = ground (
    arith,
    write_pem-cluster key rsa_private_key_type conf.private_key_path conf.private_key_permission
        conf.override w,
  )

  -- Generating a request never touches the kube-apiserver, whatever it returns.
  pub generate-cluster : (conf : Config) (w : World E) → (generate E conf w).1.cluster ≡ w.cluster
  unfolding generate
  generate-cluster conf w =
      let at : World E → E.Cluster = λ v. v.cluster in
      bind-keeps at (generate_crypto_data E conf) _ w (generate_crypto_data-cluster conf w) (λ x v.
        bind-keeps at (write_pem E x.1 csr_type conf.csr_path conf.csr_permission conf.override) _ v
          (write_pem-cluster x.1 csr_type conf.csr_path conf.csr_permission conf.override v)
          (λ _ u. write_key-cluster conf x.0 u))

  abbrev template_of : Config → Template E.Ip
  template_of conf =
      let (dns, ips) = categorize_hosts E conf in
      record { common_name = conf.common_name; dns_names = dns; ip_addresses = ips }

  -- The bytes are a request for the configured names, which the key signed.
  pub IsSigned : Config → E.Key → Bytes → Type 0
  IsSigned conf k csr =
      (host : E.Host) × ((E.create_request (template_of conf) k host).0 ≡ fine csr)

  -- The key is what the first PEM block of the bytes holds.
  pub IsParsed : Bytes → E.Key → Type 0
  IsParsed b k =
      (block : Block) × ((E.pem_decode b).0 ≡ some block)
      × (E.parse_private_key block.bytes ≡ fine k)

  generate_crypto_data-IsSigned :
      (conf : Config) (w : World E) {key csr : Bytes}
      → (generate_crypto_data E conf w).0 ≡ ok (key, csr)
      → (k : E.Key) × ((private_key E conf w).0 ≡ ok k)
        × (key ≡ E.marshal_private_key k)
        × IsSigned conf k csr
  unfolding generate_crypto_data IsSigned
  generate_crypto_data-IsSigned conf w {key} {csr} done =
      let (k, got, signed, _) = bind-ok (private_key E conf) _ w done in
      let host = (private_key E conf w).1.host in
      elim (Bool-cases (str_eq conf.common_name "")) [
        | inl empty ↦ ground arith
        | inr named ↦ elim (Reply-cases (E.create_request (template_of conf) k host).0) [
          | inr (f, e) ↦ ground arith
          | inl (b, e) ↦ (k, got, ground arith, (host, ground (arith, e)))
        ]
      ]

  private_key-makes :
      (conf : Config) (w : World E) {k : E.Key}
      → conf.load_private_key ≡ false
      → (private_key E conf w).0 ≡ ok k
      → (E.generate_key conf.rsa_bits w.host).0 ≡ fine k
  unfolding private_key
  private_key-makes conf w made got = returned-ok _ (rw made at got)

  decoded_key-ok :
      (conf : Config) (found : Option Block) (w : World E) {k : E.Key}
      → (decoded_key E conf found w).0 ≡ ok k
      → (block : Block) × (found ≡ some block) × (E.parse_private_key block.bytes ≡ fine k)
  unfolding decoded_key
  decoded_key-ok conf none w got = absurd (ground arith)
  decoded_key-ok conf (some block) w got = (block, refl, returned-ok _ got)

module _ (E : Env) (L : DiskLaws E) where
  open L use {contents}

  private_key-disk :
      (conf : Config) (w : World E) → contents (private_key E conf w).1.disk ≡ contents w.disk
  unfolding private_key load_key decoded_key
  private_key-disk conf w = ground (arith, L.read_keeps conf.private_key_path w.disk)

  generate_crypto_data-disk :
      (conf : Config) (w : World E)
      → contents (generate_crypto_data E conf w).1.disk ≡ contents w.disk
  unfolding generate_crypto_data
  generate_crypto_data-disk conf w = ground (arith, private_key-disk conf w)

  private_key-loads :
      (conf : Config) (w : World E) {k : E.Key}
      → conf.load_private_key ≡ true
      → (private_key E conf w).0 ≡ ok k
      → (b : Bytes) × (contents w.disk conf.private_key_path ≡ some b) × IsParsed E b k
  unfolding private_key load_key decoded_key IsParsed
  private_key-loads conf w loaded got =
      let read : Eff E Bytes = call (on_disk E (E.read_file conf.private_key_path)) in
      let (b, found, parsed, _) =
        bind-ok read (λ b. decoded_key E conf (E.pem_decode b).0) w (rw loaded at got) in
      (
        b,
        L.read_found conf.private_key_path w.disk (returned-ok _ found),
        decoded_key-ok E conf (E.pem_decode b).0 (read w).1 parsed,
      )

  -- How the key comes to be at its path: it is what the file held before, which is left as it was, or
  -- it has been made, and the file holds it PEM encoded.
  pub data KeyAt (conf : Config) (before after : World E) (k : E.Key) : Type 0 where
    from_file :
        (b : Bytes)
        → conf.load_private_key ≡ true
        → contents before.disk conf.private_key_path ≡ some b
        → IsParsed E b k
        → contents after.disk conf.private_key_path ≡ some b
        → KeyAt conf before after k
    from_generator :
        conf.load_private_key ≡ false
        → (E.generate_key conf.rsa_bits before.host).0 ≡ fine k
        → contents after.disk conf.private_key_path
          ≡ some (
              E.pem_encode
                (record { kind = rsa_private_key_type; bytes = E.marshal_private_key k }))
        → KeyAt conf before after k

  write_pem-writes :
      (b : Bytes) (kind file : String) (permission : ℕ) (override : Bool) (w : World E)
      → (write_pem E b kind file permission override w).0 ≡ ok tt
      → let w' = (write_pem E b kind file permission override w).1 in
        (contents w'.disk file ≡ some (E.pem_encode (record { kind = kind; bytes = b })))
        × ((q : String) → str_eq file q ≡ false → contents w'.disk q ≡ contents w.disk q)
  write_pem-writes b kind file permission override w done =
      let e = write_pem-write_file E b kind file permission override in
      let wrote =
        write_file-writes E L (E.pem_encode (record { kind = kind; bytes = b })) file permission
          override w (rw (← e) done) in
      rw e (wrote.0 file ∙ rw (eq_refl file), λ q other. wrote.0 q ∙ rw other)

  write_key-writes :
      (conf : Config) (key : Bytes) (w : World E)
      → (write_key E conf key w).0 ≡ ok tt
      → let w' = (write_key E conf key w).1 in
        (contents w'.disk conf.private_key_path ≡ (
          if conf.load_private_key
          then contents w.disk conf.private_key_path
          else some (E.pem_encode (record { kind = rsa_private_key_type; bytes = key }))))
        × ((q : String)
            → str_eq conf.private_key_path q ≡ false
            → contents w'.disk q ≡ contents w.disk q)
  unfolding write_key
  write_key-writes conf key w done = elim (Bool-cases conf.load_private_key) [
    | inl loaded ↦ rw loaded (refl, λ q _. refl)
    | inr made ↦ rw made (
        write_pem-writes key rsa_private_key_type conf.private_key_path conf.private_key_permission
          conf.override w (rw made at done))
  ]

  KeyAt-from :
      (conf : Config) (before after : World E) (k : E.Key)
      → (private_key E conf before).0 ≡ ok k
      → contents after.disk conf.private_key_path ≡ (
          if conf.load_private_key
          then contents before.disk conf.private_key_path
          else some (
              E.pem_encode
                (record { kind = rsa_private_key_type; bytes = E.marshal_private_key k })))
      → KeyAt conf before after k
  KeyAt-from conf before after k got at = elim (Bool-cases conf.load_private_key) [
    | inl load ↦
        let (b, held, parsed) = private_key-loads conf before load got in
        from_file b load held parsed (at ∙ rw load held)
    | inr make ↦ from_generator make (private_key-makes E conf before make got) (at ∙ rw make)
  ]

  -- A generation that succeeds leaves, where the two paths differ, a request for the configured names
  -- at the CSR path, PEM encoded. The key that signed it is, if it is to be loaded, the one that the
  -- file at the key path held before, and that file is left as it was; otherwise it is a new key of the
  -- configured size, and the file at the key path holds it, PEM encoded.
  pub generate-writes :
      (conf : Config) (w : World E)
      → str_eq conf.csr_path conf.private_key_path ≡ false
      → str_eq conf.private_key_path conf.csr_path ≡ false
      → (generate E conf w).0 ≡ ok tt
      → let w' = (generate E conf w).1 in
        (k : E.Key) × (csr : Bytes) × IsSigned E conf k csr
        × (contents w'.disk conf.csr_path
            ≡ some (E.pem_encode (record { kind = csr_type; bytes = csr })))
        × KeyAt conf w w' k
  unfolding generate
  generate-writes conf w apart apart' done =
      let ((key, csr), crypto, wrote, e) = bind-ok (generate_crypto_data E conf) _ w done in
      let (k, got, bytes, signed) = generate_crypto_data-IsSigned E conf w crypto in
      let v = (generate_crypto_data E conf w).1 in
      let write = write_pem E csr csr_type conf.csr_path conf.csr_permission conf.override in
      let (_, request, last, e') = bind-ok write (λ _. write_key E conf key) v wrote in
      let (at_csr, kept) =
        write_pem-writes csr csr_type conf.csr_path conf.csr_permission conf.override v request in
      let (at_key, kept') = write_key-writes conf key (write v).1 last in
      let stays : contents (write v).1.disk conf.private_key_path
          ≡ contents w.disk conf.private_key_path =
        kept conf.private_key_path apart ∙ rw (generate_crypto_data-disk conf w) in
      (
        k,
        csr,
        signed,
        rw (e, e') (kept' conf.csr_path apart' ∙ at_csr),
        KeyAt-from conf w (generate E conf w).1 k got (rw (e, e') (at_key ∙ rw (stays, bytes))),
      )
