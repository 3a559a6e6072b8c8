-- ===== src/Config/Tests.antt =====
-- A file with two routes and a default backend.
use ciallo.Common.{ℕ, ◌≡◌, refl, ◌↔◌, [], ◌∷◌, false, none, some, bytes_eq, nat_eq, ℕ_discrete}
use ciallo.Common.Dict.{lookup, insert}
use ciallo.Go.Errors.{
  ok, err, duplicate_route_host, no_route, default_backend_invalid, addr_error, missing_port,
}
use ciallo.Go.Text.{codes}
use ciallo.Go.Strings.{
  trim_space, to_lower, index_byte, last_index_byte, trim_suffix, trim_prefix, has_prefix,
  has_suffix,
}
use ciallo.Go.HostPort.{split_host_port}
use ciallo.Mcproto.Host.{normalize_host, cut_nul, strip_port}
use ciallo.Config.{Config, RouteConfig}
use ciallo.Config.Defaults.{default}
use ciallo.Config.Validate.{
  validate, validate_addr, validate_routes, validate_hosts, validate_backend_health,
  validate_logging, validate_output, validate_file, one_of,
}
use ciallo.Config.Validate.Valid.{IsValid, validate-iff-IsValid}
use ciallo.Config.Backends.{backends}
use ciallo.Config.Backends.Laws.{count_addr, has_route_to, count_addr-backends}

abbrev pub same : ℕ → ℕ
same r = r

abbrev pub play : RouteConfig
play = record {
  hosts = codes "Play.example.com" ∷ codes "b.example.com:25565" ∷ [];
  backend = codes "10.0.0.1:25565";
  status_cache = none;
}

abbrev pub build : RouteConfig
build = record {
  hosts = codes "build.example.com." ∷ [];
  backend = codes "[fd00::1]:25566";
  status_cache = some false;
}

abbrev pub sample : Config
sample = record default { routes = play ∷ build ∷ []; default_backend = codes "10.0.0.1:25565" }

pub sample_passes : validate same sample ≡ ok tt
unfolding validate validate_addr split_host_port last_index_byte ℕ_discrete index_byte trim_space
    validate_routes normalize_host to_lower trim_suffix strip_port cut_nul lookup insert bytes_eq
    validate_backend_health validate_logging one_of validate_file validate_hosts validate_output
    has_prefix has_suffix trim_prefix
sample_passes = refl

-- The second route has the first host of the other one in another spelling.
twice_served :
    validate same (record sample {
      routes = play ∷ record build { hosts = codes "PLAY.example.com:1" ∷ [] } ∷ [];
    })
    ≡ err (duplicate_route_host (codes "play.example.com"))
unfolding validate validate_addr split_host_port last_index_byte ℕ_discrete index_byte trim_space
    validate_routes normalize_host to_lower trim_suffix strip_port cut_nul lookup insert bytes_eq
twice_served = refl

unroutable : validate same default ≡ err no_route
unfolding validate
unroutable = refl

no_port :
    validate same (record default { default_backend = codes "lobby" })
    ≡ err (default_backend_invalid (addr_error missing_port))
unfolding validate validate_addr split_host_port last_index_byte ℕ_discrete
no_port = refl

validate-iff-IsValid_example : (validate same sample ≡ ok tt) ↔ IsValid same sample
validate-iff-IsValid_example = validate-iff-IsValid same sample

count_addr-backends_example : count_addr (codes "10.0.0.1:25565") (backends sample) ≡ 1
unfolding has_route_to bytes_eq ℕ_discrete
count_addr-backends_example = count_addr-backends sample (codes "10.0.0.1:25565") refl
