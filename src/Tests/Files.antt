-- ===== src/Tests/Files.antt =====
-- Examples of the files that are written and of the names in a request.
use kube_csr.Base.{
  remove, String, ◌≡◌, refl, true, false, ◌&&◌, some, [], ◌∷◌, arith, str_eq, err, ok, errorf, has,
  lookup, if◌then◌else◌,
}
use kube_csr.Env.{World, Bytes}
use kube_csr.Env.Memory.{memory, stat, read_file, write}
use kube_csr.Env.Memory.Lawful.{contents_lem, disk_laws}
use kube_csr.Sort.Laws.{IsSorted}
use kube_csr.Pemio.{write_file, write_pem, save}
use kube_csr.Pemio.Writes.{write_file-writes, write_file-refuses}
use kube_csr.Generate
use kube_csr.Generate.{
  split_hosts, csr_type, categorize_hosts, ip_less, generate, generate_crypto_data, private_key,
  load_key, decoded_key, write_key,
}
use kube_csr.Generate.Reference.{names_of, addresses_of, distinct, without, split_hosts-distinct}
use kube_csr.Generate.Hosts.{is_name, categorize_hosts-names, categorize_hosts-stable}
use kube_csr.Generate.Files.{IsSigned, KeyAt, generate-writes}
use kube_csr.Tests.{web, busy, world_with}

abbrev generated : World memory
generated = (generate memory web (world_with [])).1

generate-writes_example :
    (k : Bytes) × (csr : Bytes) × IsSigned memory web k csr
    × (disk_laws.contents generated.disk "web.csr"
        ≡ some (memory.pem_encode (record { kind = csr_type; bytes = csr })))
    × KeyAt memory disk_laws web (world_with []) generated k
unfolding generate generate_crypto_data private_key write_key write_pem save stat write lookup
    remove
generate-writes_example = generate-writes memory disk_laws web (world_with []) refl refl refl

-- The same with a key that is there.
abbrev stocked : World memory
stocked = record (world_with []) { disk = ("web.key", 8 ∷ 9 ∷ []) ∷ [] }

generate-stocked :
    let (result, w) = generate memory (record web { load_private_key = true }) stocked in
    (result ≡ ok tt) × (lookup "web.key" w.disk ≡ some (8 ∷ 9 ∷ []))
unfolding generate generate_crypto_data private_key load_key decoded_key write_key write_pem save
    stat read_file write lookup remove
generate-stocked = (refl, refl)

abbrev written : World memory
written = (write_file memory (1 ∷ []) "web.csr" 384 true busy).1

write_file-writes_example :
    ((q : String)
      → disk_laws.contents written.disk q
        ≡ (if str_eq "web.csr" q then some (1 ∷ []) else disk_laws.contents busy.disk q))
    × (written.cluster ≡ busy.cluster)
unfolding write_file save stat write lookup remove
write_file-writes_example = write_file-writes memory disk_laws (1 ∷ []) "web.csr" 384 true busy refl

write_file-refuses_example :
    ((write_file memory (1 ∷ []) "web.csr" 384 false busy).0 ≡ err (errorf ("file exists web.csr")))
    × (disk_laws.contents (write_file memory (1 ∷ []) "web.csr" 384 false busy).1.disk
        ≡ disk_laws.contents busy.disk)
unfolding lookup
write_file-refuses_example =
    write_file-refuses memory disk_laws (1 ∷ []) "web.csr" 384 busy {old = 5 ∷ 6 ∷ []}
      (contents_lem busy.disk "web.csr")

categorize_hosts-names_example :
    IsSorted (categorize_hosts memory web).0
    × ((x : String) → has x (categorize_hosts memory web).0 ≡ (has x web.hosts && is_name memory x))
categorize_hosts-names_example = categorize_hosts-names memory web

-- The same names in another order, one of them given once.
abbrev shuffled : Generate.Config
shuffled = record web { hosts = "api" ∷ "web" ∷ "10.0.0.1" ∷ [] }

same_hosts : (x : String) → has x web.hosts ≡ has x shuffled.hosts
unfolding has
same_hosts x = ground arith

categorize_hosts-stable_example :
    (categorize_hosts memory web).0 ≡ (categorize_hosts memory shuffled).0
categorize_hosts-stable_example = categorize_hosts-stable memory web shuffled same_hosts

split_hosts-distinct_example :
    split_hosts memory ("web" ∷ "10.0.0.1" ∷ "api" ∷ "web" ∷ []) [] [] []
    ≡ ("web" ∷ "api" ∷ [], "10.0.0.1" ∷ [])
unfolding names_of addresses_of distinct without has
split_hosts-distinct_example = split_hosts-distinct memory ("web" ∷ "10.0.0.1" ∷ "api" ∷ "web" ∷ [])
