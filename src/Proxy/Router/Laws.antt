-- ===== src/Proxy/Router/Laws.antt =====
-- The table of routes against the list of routes (internal/proxy/router.go).
use ciallo.Common.{
  ℕ, ◌≡◌, ◌≢◌, refl, Bytes, List, [], ◌∷◌, Bool, false, ◌||◌, if◌then◌else◌, Option, none, some,
  bytes_eq, ◌==◌, arith,
}
use ciallo.Common.Dict.{Dict, lookup, lookup-insert}
use ciallo.Mcproto.Host.{normalize_host}
use ciallo.Proxy.Types.{Backend, Route}
use ciallo.Proxy.Router.{
  or_default, insert_unless_empty, add_hosts, add_routes, new_static_router, resolve,
}

module _ (lower : ℕ → ℕ) where
  -- Does one of the hosts normalize to `n`?
  unfoldable pub serves : Bytes → List Bytes → Bool
  serves n [] = false
  serves n (host ∷ hosts) = n == normalize_host lower host || serves n hosts

  -- The backend of the last route that serves `n`.
  unfoldable pub last_serving : Bytes → List Route → Option Backend
  last_serving n [] = none
  last_serving n (route ∷ routes) =
      or_default (last_serving n routes) (if serves n route.hosts then some route.backend else none)

  lookup-insert_unless_empty :
      (n key : Bytes) (b : Backend) (m : Dict Bytes Backend)
      → n ≢ []
      → lookup n (insert_unless_empty key b m) ≡ (if n == key then some b else lookup n m)
  lookup-insert_unless_empty n [] b m h = ground arith
  lookup-insert_unless_empty n (c ∷ cs) b m h = lookup-insert n (c ∷ cs) b m

  lookup-add_hosts :
      (n : Bytes) (hosts : List Bytes) (b : Backend) (m : Dict Bytes Backend)
      → n ≢ []
      → lookup n (add_hosts lower hosts b m) ≡ (if serves n hosts then some b else lookup n m)
  unfolding add_hosts serves
  lookup-add_hosts n [] b m h = refl
  lookup-add_hosts n (host ∷ hosts) b m h =
      let key = normalize_host lower host in
      ground (
        arith,
        lookup-insert_unless_empty n key b m h,
        lookup-add_hosts n hosts b (insert_unless_empty key b m) h,
      )

  lookup-add_routes :
      (n : Bytes) (routes : List Route) (m : Dict Bytes Backend)
      → n ≢ []
      → lookup n (add_routes lower routes m) ≡ or_default (last_serving n routes) (lookup n m)
  unfolding add_routes last_serving
  lookup-add_routes n [] m h = refl
  lookup-add_routes n (route ∷ routes) m h = ground (
    arith,
    lookup-add_hosts n route.hosts route.backend m h,
    lookup-add_routes n routes (add_hosts lower route.hosts route.backend m) h,
  )

  -- A host goes to the last route one of whose hosts has the same normal form, and to the default
  -- backend if there is none, provided that its own normal form is not empty.
  pub resolve-last_serving :
      (routes : List Route) (def : Option Backend) (host : Bytes)
      → normalize_host lower host ≢ []
      → resolve lower (new_static_router lower routes def) host
        ≡ or_default (last_serving (normalize_host lower host) routes) def
  unfolding resolve new_static_router lookup
  resolve-last_serving routes def host h =
      let n = normalize_host lower host in ground (arith, lookup-add_routes n routes [] h)
