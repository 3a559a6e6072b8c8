-- ===== src/Config/Backends.antt =====
-- `RouteBackends`, `DefaultBackendConfig` and `Backends` of internal/config/config.go: the settings
-- as the routes and backends of internal/proxy.
pub mod Laws
use ciallo.Common.{
  Bytes, List, [], ◌∷◌, Bool, true, false, ◌||◌, if◌then◌else◌, Option, none, some, ◌==◌, bytes_eq,
}
use ciallo.Common.Dict.{Dict, lookup, insert}
use ciallo.Go.Defaults.{is_blank}
use ciallo.Proxy.Types.{Backend, Route}
use ciallo.Config.{Config, RouteConfig}

abbrev pub route_of : RouteConfig → Route
route_of r = record {
  hosts = r.hosts;
  backend = record { name = r.backend; addr = r.backend; status_cache = r.status_cache };
}

unfoldable pub routes_of : List RouteConfig → List Route
routes_of [] = []
routes_of (r ∷ rs) = route_of r ∷ routes_of rs

abbrev pub route_backends : Config → List Route
route_backends c = routes_of c.routes

abbrev pub backend_at : Bytes → Option Backend
backend_at [] = none
backend_at (b ∷ bs) = some (record { name = b ∷ bs; addr = b ∷ bs; status_cache = none })

abbrev pub default_backend_config : Config → Option Backend
default_backend_config c = backend_at c.default_backend

-- `add`, in front of the backends that the later calls add.
pub add_backends : Dict Bytes (Unit {0}) → List Backend → List Backend
add_backends seen [] = []
add_backends seen (b ∷ bs) =
    let skipped = add_backends seen bs in
    let rest = add_backends (insert b.addr tt seen) bs in
    if is_blank b.addr
    then skipped
    else elim (lookup b.addr seen) [ none ↦ b ∷ rest | some _ ↦ skipped ]

abbrev pub option_list : Option Backend → List Backend
option_list none = []
option_list (some b) = b ∷ []

pub backends_of : List Route → Option Backend → List Backend
backends_of [] def = option_list def
backends_of (r ∷ rs) def = r.backend ∷ backends_of rs def

pub backends : Config → List Backend
backends c = add_backends [] (backends_of (route_backends c) (default_backend_config c))
