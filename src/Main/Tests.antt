-- ===== src/Main/Tests.antt =====
-- The program made of a file with two routes.
use ciallo.Common.{◌≡◌, refl, Bytes, [], true, false, Option, none, some, bytes_eq, ℕ_discrete}
use ciallo.Common.Int.{pos}
use ciallo.Go.Errors.{Error, Result, ok}
use ciallo.Go.Text.{codes}
use ciallo.Go.Time.{Time}
use ciallo.Go.Strings.{
  trim_space, to_lower, index_byte, last_index_byte, trim_suffix, trim_prefix, has_prefix,
  has_suffix,
}
use ciallo.Go.HostPort.{split_host_port}
use ciallo.Mcproto.Host.{normalize_host, cut_nul, strip_port}
use ciallo.Config.{Config}
use ciallo.Config.Defaults.{apply_defaults}
use ciallo.Config.Load.{load_file}
use ciallo.Config.Routing.{here, there}
use ciallo.Config.Backends.{route_of}
use ciallo.Config.Validate.Valid.{validate-IsValid}
use ciallo.Config.Tests.{same, build, sample, sample_passes}
use ciallo.Health.Targets.{is_known}
use ciallo.Logging.{Logger, Asks, new_logger, new_logger-Asks}
use ciallo.Proxy.Types.{Backend}
use ciallo.Proxy.Router.{resolve}
use ciallo.Proxy.Router.Laws.{serves}
use ciallo.Proxy.Dialer.{Attempt}
use ciallo.Proxy.Server.Lifecycle.{Life, Listener, new_life, start_serve, shutdown, watch}
use ciallo.Main.{signalled, exit_code, health_options, proxy_options, wire}
use ciallo.Main.Laws.{load_file-wire}
use ciallo.Main.Signals.{exit_code-shutdown}

no_file : Bytes → Result Bytes
no_file path = ok []

-- A decoder that gives the settings of the sample, whatever it reads.
decode : Bytes → Config → Result Config
decode text c = ok sample

never : Bytes → Time
never addr = pos 0

attempt : Backend → Attempt
attempt b = record { checked_at = pos 0; outcome = ok 7; put_at = pos 0 }

sample_loads : load_file same no_file decode (codes "config.yaml") ≡ ok sample
unfolding load_file no_file decode apply_defaults
sample_loads = rw sample_passes refl

host_served : serves same (normalize_host same (codes "BUILD.example.com:25566")) build.hosts ≡ true
unfolding serves normalize_host trim_space to_lower index_byte last_index_byte trim_suffix
    trim_prefix has_prefix has_suffix split_host_port cut_nul strip_port bytes_eq ℕ_discrete
host_served = refl

load_file-wire_example :
    let p = wire same never attempt sample in
    (resolve same p.server.router (codes "BUILD.example.com:25566") ≡ some (route_of build).backend)
    × (is_known build.backend p.checker.entries ≡ true)
    × (p.server.options ≡ proxy_options sample)
    × (p.checker.options ≡ health_options sample)
load_file-wire_example =
    load_file-wire same never attempt no_file decode (codes "config.yaml") sample build
      (codes "BUILD.example.com:25566") sample_loads (there here) host_served

new_logger-Asks_example :
    (l : Logger) × (new_logger same sample.logging ≡ ok l)
    × Asks same sample.logging l.sink
    × (l.add_source ≡ false)
new_logger-Asks_example =
    new_logger-Asks same sample.logging (validate-IsValid same sample sample_passes).logging

abbrev idle_listener : Listener
idle_listener = record { backlog = []; closed = false }

abbrev listening : Life
listening = start_serve new_life idle_listener

exit_code-shutdown_example :
    let code = λ (out : Option Error).
      exit_code same false (load_file same no_file decode (codes "config.yaml")) (signalled out) in
    (code (shutdown listening none).1 ≡ 0) × (code (shutdown (watch listening) none).1 ≡ 1)
unfolding start_serve
exit_code-shutdown_example =
    exit_code-shutdown same no_file decode (codes "config.yaml") sample listening idle_listener
      sample_loads refl refl
