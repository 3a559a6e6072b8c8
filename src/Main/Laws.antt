-- ===== src/Main/Laws.antt =====
-- The parts that cmd/mcproxy/main.go makes of settings that `LoadFile` has returned.
use ciallo.Common.{ℕ, ◌≡◌, ◌∙◌, Bytes, List, [], ◌∷◌, true, Option, some, bytes_eq, arith, All}
use ciallo.Go.Errors.{Result, ok, Ensures-ok}
use ciallo.Go.Time.{Time}
use ciallo.Config.{Config, RouteConfig}
use ciallo.Config.Defaults.{apply_defaults}
use ciallo.Config.Load.{load_file}
use ciallo.Config.Load.Laws.{load_file-IsLoaded}
use ciallo.Config.Backends.{route_of, routes_of, route_backends, default_backend_config}
use ciallo.Config.Validate.Laws.{IsAddr, IsAddr-Filled, Addressed}
use ciallo.Config.Validate.Valid.{IsValid}
use ciallo.Config.Routing.{IsRoute, here, there, resolve-IsRoute}
use ciallo.Health.{new_checker, with_default}
use ciallo.Health.Targets.{is_known, is_routed, new_checker-watches}
use ciallo.Mcproto.Host.{normalize_host}
use ciallo.Proxy.Types.{Backend}
use ciallo.Proxy.Router.{resolve}
use ciallo.Proxy.Router.Laws.{serves}
use ciallo.Proxy.Server.{server_options}
use ciallo.Proxy.Dialer.{Attempt}
use ciallo.Main.{health_options, proxy_options, wire}

-- Defaults that change nothing: the constructors have the same defaults as the settings.
kept-proxy :
    (c : Config) → apply_defaults c ≡ c → server_options (proxy_options c) ≡ proxy_options c
unfolding server_options apply_defaults
kept-proxy c e = λ i. record (proxy_options c) {
  handshake_timeout = (e i).timeouts.handshake;
  backend_dial_timeout = (e i).timeouts.backend_dial;
  idle_timeout = (e i).timeouts.idle;
  shutdown_timeout = (e i).timeouts.shutdown;
  max_handshake_size = (e i).max_handshake_size;
  max_status_response_size = (e i).max_status_response_size;
  status_cache_ttl = (e i).status_cache.ttl;
  motd_fallback_ttl = (e i).motd_cache.fallback_ttl;
}

kept-health :
    (c : Config) → apply_defaults c ≡ c → with_default (health_options c) ≡ health_options c
unfolding apply_defaults
kept-health c e = λ i. health_options (e i)

IsRoute-routed :
    (r : RouteConfig) (rs : List RouteConfig) (def : Option Backend)
    → IsRoute r rs
    → is_routed r.backend (routes_of rs) def ≡ true
unfolding routes_of
IsRoute-routed r [] def i = elim i [ ]
IsRoute-routed r (s ∷ rs) def here = ground arith
IsRoute-routed r (s ∷ rs) def (there i) = ground (arith, IsRoute-routed r rs def i)

IsRoute-Addressed :
    (r : RouteConfig) (rs : List RouteConfig) → IsRoute r rs → All Addressed rs → IsAddr r.backend
IsRoute-Addressed r [] i h = elim i [ ]
IsRoute-Addressed r (s ∷ rs) here (a, h) = a
IsRoute-Addressed r (s ∷ rs) (there i) (a, h) = IsRoute-Addressed r rs i h

module _ (lower : ℕ → ℕ) (clock : Bytes → Time) (attempt : Backend → Attempt) where
  wire-health :
      (c : Config) (r : RouteConfig)
      → IsValid lower c
      → IsRoute r c.routes
      → is_known r.backend (wire lower clock attempt c).checker.entries ≡ true
  unfolding wire
  wire-health c r v i =
      let filled = IsAddr-Filled r.backend (IsRoute-Addressed r c.routes i v.backends) in
      let routes = route_backends c in
      let def = default_backend_config c in
      new_checker-watches lower (health_options c) routes def r.backend filled
      ∙ IsRoute-routed r c.routes def i

  wire-resolve :
      (c : Config) (r : RouteConfig) (host : Bytes)
      → IsValid lower c
      → IsRoute r c.routes
      → serves lower (normalize_host lower host) r.hosts ≡ true
      → resolve lower (wire lower clock attempt c).server.router host ≡ some (route_of r).backend
  unfolding wire
  wire-resolve c r host v i h = resolve-IsRoute lower c r host v i h

  wire-options :
      (c : Config)
      → apply_defaults c ≡ c
      → ((wire lower clock attempt c).server.options ≡ proxy_options c)
        × ((wire lower clock attempt c).checker.options ≡ health_options c)
  unfolding wire new_checker
  wire-options c e = (kept-proxy c e, kept-health c e)

  module _ (read_file : Bytes → Result Bytes) (unmarshal : Bytes → Config → Result Config) where
    -- The program made of a file that loads, whatever is in the file: for each route of it, a host
    -- with the normal form of one of the route's hosts goes to the route's backend; the checks watch
    -- this backend; and the options of the server and of the checks are those of the settings, since
    -- the settings leave no default to fill in.
    pub load_file-wire :
        (path : Bytes) (c : Config) (r : RouteConfig) (host : Bytes)
        → load_file lower read_file unmarshal path ≡ ok c
        → IsRoute r c.routes
        → serves lower (normalize_host lower host) r.hosts ≡ true
        → let p = wire lower clock attempt c in
          (resolve lower p.server.router host ≡ some (route_of r).backend)
          × (is_known r.backend p.checker.entries ≡ true)
          × (p.server.options ≡ proxy_options c)
          × (p.checker.options ≡ health_options c)
    load_file-wire path c r host loads i h =
        let (v, e) = Ensures-ok (load_file-IsLoaded lower read_file unmarshal path) loads in
        let (server, health) = wire-options c e in
        (wire-resolve c r host v i h, wire-health c r v i, server, health)
