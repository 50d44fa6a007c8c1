-- ===== src/Lib.antt =====
-- kube-csr: certificate signing requests for Kubernetes, from the private key to the certificate.
--
-- The program is a library under pkg/ and a command line over it. An operation
-- (pkg/operation/operation.go) runs up to six steps in order: it asks services for names (query),
-- writes a key and a request (generate), sends the request (submit), approves it (approve), polls for
-- the certificate and writes it (fetch), and deletes the request (purge). The renewal
-- (pkg/renew/renew.go) runs an operation whenever the certificate comes close to its end, and the
-- garbage collector (pkg/operation/purge/purge.go) deletes requests that meet a verdict.
--
-- Files and what they model:
--   Env        what is outside the program, as the parameter `Env`: the kube-apiserver, the files, the
--              clock and other readings of the host, the metrics registry, cryptography, PEM, net
--              and time. `World` is its state; Env/Laws states the documented behaviour of the
--              kube-apiserver, the files and the clock; Env/Memory is an environment that runs and
--              meets it, with a clock that moves on at each reading.
--   Base       results, errors and panics (Base/Effects), lists, strings, maps, and 64-bit integers.
--   Strconv    strconv.Atoi and Itoa, and that the one reads what the other writes.
--   Sort       sort.Strings.
--   Pemio      pkg/utils/pemio/write.go: WriteFile, WritePem.
--   Kubeclient pkg/utils/kubeclient/kubeclient.go: NewKubeClient and build.
--   Generate   pkg/operation/generate/generate.go: categorizeHosts, generateCryptoData, Generate.
--   Submit     pkg/operation/submit/submit.go: NewSubmitter, Submit.
--   Approve    pkg/operation/approve/approve.go: GetCSR, ApproveCSR, GetAndApproveCSR.
--   Fetch      pkg/operation/fetch/fetch.go: NewFetcher, updateAnnotations, Fetch.
--   Query      pkg/operation/query/query.go: NewQuery, GetKubernetesServicesSubjectAlternativeNames.
--   Purge      pkg/operation/purge/purge.go: the three verdicts, Delete, GarbageCollect, its loop;
--              durationFormat in Purge/Days, on fuel of more rounds than 2^63 nanoseconds have days.
--   Operation  pkg/operation/operation.go: submit and Run.
--   Renew      pkg/renew/renew.go: NewRenewer, shouldRenew, processRenew, Renew.
--   Api        pkg/utils/api/register.go: RegisterAPI, as the servers that it starts.
--   Settings   the readings of viper, a parameter of the commands.
--   Cmd        cmd/cmd.go: generateCertificateSigningRequestName, newCSRConfig and the constructors
--              of the parts from the settings; Cmd/Commands the two functions `Run`, whose exit code
--              the model returns; Cmd/Flags the declarations of NewCommand, with cobra, pflag and viper
--              as the parameter `Viper`.
--   Main       main.go: the exit status; a panic ends the process with the status 2.
--   Example    examples/issue.go: the sample program.
--   Scripts    scripts/update/: the three scripts that write the documentation.
--   Lifecycle  the abstract view: what is stored under each name, the four steps that change it, and
--              what is reached by them; its children relate the calls, the parts, the runs, the
--              renewal and the collections to it.
--   Tests      concrete inputs and examples over Env/Memory.
-- The child modules of a part hold its proofs and are named for what they prove.
--
-- How the code is translated. A Go function that returns an error is an action: from a world to a
-- result and the world after it. A result is a value, an error, a panic (of a nil pointer, or
-- of a ticker whose interval is not positive), or `waits`: a loop has used up the events that it was
-- given. A loop over a `select`
-- takes the list of what it receives, so it needs no fuel: the list is as long as the run that is
-- looked at, and the theorems on termination say which event ends the loop. The order in which a
-- `select` takes what is ready is the order of the list. Fields that code changes behind pointers are
-- threaded: the flags of the services in a query, the names and the approval in an operation, and
-- whether the place in the renewal's channel is taken. Times and durations are integers of
-- nanoseconds; where the code computes a duration, it wraps around at 64 bits, and a difference of two
-- times is clamped to that range.
--
-- Metrics are recorded as the list of the calls on the collectors; gauges that the code sets in
-- seconds are given nanoseconds. Logging is left out. The handles of the API clients are not passed
-- to the calls made by them.
--
-- Not modelled: help texts and the level of the log in cmd/cmd.go, tests, and the vendored libraries,
-- whose calls are fields of `Env`, `Viper` and `Tools`.
pub mod Base
pub mod Env
pub mod Pemio
pub mod Strconv
pub mod Sort
pub mod Api
pub mod Kubeclient
pub mod Generate
pub mod Submit
pub mod Approve
pub mod Fetch
pub mod Query
pub mod Purge
pub mod Operation
pub mod Renew
pub mod Lifecycle
pub mod Settings
pub mod Cmd
pub mod Main
pub mod Example
pub mod Scripts
mod Tests
