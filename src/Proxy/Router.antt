-- ===== src/Proxy/Router.antt =====
-- internal/proxy/router.go
pub mod Laws
use ciallo.Common.{
  ℕ, Bytes, List, [], ◌∷◌, Bool, true, false, if◌then◌else◌, Option, none, some, bytes_eq,
}
use ciallo.Common.Dict.{Dict, lookup, insert}
use ciallo.Mcproto.Host.{normalize_host}
use ciallo.Proxy.Types.{Backend, Route}

pub record StaticRouter : Type 0 where
  pub routes : Dict Bytes Backend
  pub default_backend : Option Backend

abbrev pub or_default : Option Backend → Option Backend → Option Backend
or_default none d = d
or_default (some b) d = some b

abbrev pub insert_unless_empty : Bytes → Backend → Dict Bytes Backend → Dict Bytes Backend
insert_unless_empty [] backend m = m
insert_unless_empty (c ∷ cs) backend m = insert (c ∷ cs) backend m

module _ (lower : ℕ → ℕ) where
  pub add_hosts : List Bytes → Backend → Dict Bytes Backend → Dict Bytes Backend
  add_hosts [] backend m = m
  add_hosts (host ∷ hosts) backend m =
      add_hosts hosts backend (insert_unless_empty (normalize_host lower host) backend m)

  pub add_routes : List Route → Dict Bytes Backend → Dict Bytes Backend
  add_routes [] m = m
  add_routes (route ∷ routes) m = add_routes routes (add_hosts route.hosts route.backend m)

  pub new_static_router : List Route → Option Backend → StaticRouter
  new_static_router routes def = record { routes = add_routes routes []; default_backend = def }

  -- `Resolve`
  unfoldable pub resolve : StaticRouter → Bytes → Option Backend
  resolve r host = or_default (lookup (normalize_host lower host) r.routes) r.default_backend
