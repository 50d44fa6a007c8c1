-- ===== src/Api.antt =====
-- pkg/utils/api/register.go
use kube_csr.Base.{String, [], ◌∷◌, str_eq, pure, ◌>>◌, if◌then◌else◌}
use kube_csr.Base.Int.{pos}
use kube_csr.Env.{Env, Eff, Server, start_server}

abbrev pub pprof_bind_default : String
pprof_bind_default = "127.0.0.1:6060"

abbrev pub prometheus_exporter_path : String
prometheus_exporter_path = "/metrics"

-- The routes are named with their handlers; a prefix ends in an asterisk.
abbrev pub exporter : String → Server
exporter address = record {
  address = address;
  routes = (prometheus_exporter_path, "promhttp") ∷ [];
  write_timeout = pos 15_000_000_000;
  read_timeout = pos 15_000_000_000;
}

abbrev pub profiler : String → Server
profiler address = record {
  address = address;
  routes =
      ("/debug/pprof/", "pprof.Index")
      ∷ ("/debug/pprof/cmdline", "pprof.Cmdline")
      ∷ ("/debug/pprof/profile", "pprof.Profile")
      ∷ ("/debug/pprof/symbol", "pprof.Symbol")
      ∷ ("/debug/pprof/*", "http.DefaultServeMux")
      ∷ [];
  write_timeout = pos 15_000_000_000;
  read_timeout = pos 60_000_000_000;
}

-- The servers run in goroutines, whose errors nobody reads.
unfoldable pub register_api : (E : Env) → String → String → Eff E (Unit {0})
register_api E prometheus_bind pprof_bind = do
  (if str_eq prometheus_bind "" then pure tt else start_server E (exporter prometheus_bind))
  start_server E (profiler pprof_bind)
