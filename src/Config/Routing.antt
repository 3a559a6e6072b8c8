-- ===== src/Config/Routing.antt =====
-- Settings that pass `Validate` of internal/config/config.go, as the routes of
-- internal/proxy/router.go.
use ciallo.Common.{
  ℕ, ◌≡◌, ◌≢◌, refl, sym, ap, ◌∙◌, Bytes, List, [], ◌∷◌, ◌++◌, Bool, true, false, ◌||◌, none, some,
  ◌==◌, bytes_eq, arith, Bool-cases, inl, inr, All,
}
use ciallo.Mcproto.Host.{normalize_host}
use ciallo.Proxy.Router.{or_default, new_static_router, resolve}
use ciallo.Proxy.Router.Laws.{serves, last_serving, resolve-last_serving}
use ciallo.Config.{Config, RouteConfig}
use ciallo.Config.Validate.Names.{Distinct, Filled}
use ciallo.Config.Validate.Laws.{host_names, route_names}
use ciallo.Config.Validate.Valid.{IsValid}
use ciallo.Config.Backends.{route_of, routes_of, route_backends, default_backend_config}

-- A route of the file.
pub data IsRoute (r : RouteConfig) : List RouteConfig → Type 0 where
  here : {rs : List RouteConfig} → IsRoute r (r ∷ rs)
  there : {s : RouteConfig} {rs : List RouteConfig} → IsRoute r rs → IsRoute r (s ∷ rs)

has : Bytes → List Bytes → Bool
has n [] = false
has n (m ∷ ms) = n == m || has n ms

has-append : (n : Bytes) (xs ys : List Bytes) → has n (xs ++ ys) ≡ (has n xs || has n ys)
unfolding has
has-append n [] ys = refl
has-append n (x ∷ xs) ys = ground (arith, has-append n xs ys)

apart-has : (n : Bytes) (ms : List Bytes) → All (λ (m : Bytes). m ≢ n) ms → has n ms ≡ false
unfolding has
apart-has n [] h = refl
apart-has n (m ∷ ms) (a, h) = ground (arith, apart-has n ms h)

-- Among distinct names, one of the first part is none of the second.
Distinct-has :
    (n : Bytes) (xs ys : List Bytes) → Distinct (xs ++ ys) → has n xs ≡ true → has n ys ≡ false
unfolding has
Distinct-has n [] ys d h = cc
Distinct-has n (x ∷ xs) ys (a, d) h = elim (Bool-cases (n == x)) [
  | inl same ↦
      let n_is_x : n ≡ x = ground arith in
      let gone = rw (sym n_is_x) at (apart-has x (xs ++ ys) a) in
      let parts = has-append n xs ys in ground arith
  | inr other ↦ Distinct-has n xs ys d (rw other at h)
]

Distinct-right : (xs ys : List Bytes) → Distinct (xs ++ ys) → Distinct ys
Distinct-right [] ys d = d
Distinct-right (x ∷ xs) ys (_, d) = Distinct-right xs ys d

has-Filled : (n : Bytes) (ms : List Bytes) → All Filled ms → has n ms ≡ true → n ≢ []
unfolding has
has-Filled n [] f h = cc
has-Filled n (m ∷ ms) (a, f) h = elim (Bool-cases (n == m)) [
  | inl same ↦ λ e. let n_is_m : n ≡ m = ground arith in cc
  | inr other ↦ has-Filled n ms f (rw other at h)
]

module _ (lower : ℕ → ℕ) where
  serves-has :
      (n : Bytes) (hosts : List Bytes) → serves lower n hosts ≡ has n (host_names lower hosts)
  unfolding serves has
  serves-has n [] = refl
  serves-has n (host ∷ hosts) = ap (λ b. n == normalize_host lower host || b) (serves-has n hosts)

  last_serving-none :
      (n : Bytes) (rs : List RouteConfig)
      → has n (route_names lower rs) ≡ false
      → last_serving lower n (routes_of rs) ≡ none
  unfolding last_serving routes_of
  last_serving-none n [] h = refl
  last_serving-none n (r ∷ rs) h =
      let parts = has-append n (host_names lower r.hosts) (route_names lower rs) in
      let later : has n (route_names lower rs) ≡ false = ground arith in
      let here : serves lower n r.hosts ≡ false = serves-has n r.hosts ∙ ground arith in
      rw (last_serving-none n rs later, here) refl

  has-route_names :
      (n : Bytes) (r : RouteConfig) (rs : List RouteConfig)
      → IsRoute r rs
      → serves lower n r.hosts ≡ true
      → has n (route_names lower rs) ≡ true
  has-route_names n r [] i h = elim i [ ]
  has-route_names n r (s ∷ rs) here h =
      let e = serves-has n r.hosts in
      let parts = has-append n (host_names lower r.hosts) (route_names lower rs) in ground arith
  has-route_names n r (s ∷ rs) (there i) h =
      let rest = has-route_names n r rs i h in
      let parts = has-append n (host_names lower s.hosts) (route_names lower rs) in ground arith

  last_serving-only :
      (n : Bytes) (r : RouteConfig) (rs : List RouteConfig)
      → Distinct (route_names lower rs)
      → IsRoute r rs
      → serves lower n r.hosts ≡ true
      → last_serving lower n (routes_of rs) ≡ some (route_of r).backend
  unfolding last_serving routes_of
  last_serving-only n r [] d i h = elim i [ ]
  last_serving-only n r (s ∷ rs) d here h =
      let names = host_names lower r.hosts in
      let gone = Distinct-has n names (route_names lower rs) d (sym (serves-has n r.hosts) ∙ h) in
      rw (last_serving-none n rs gone, h) refl
  last_serving-only n r (s ∷ rs) d (there i) h =
      let later = Distinct-right (host_names lower s.hosts) (route_names lower rs) d in
      rw (last_serving-only n r rs later i h) refl

  -- With settings that pass the checks, a host that has the normal form of one of the hosts of a
  -- route goes to the backend of that route, wherever the route stands and whatever the others and
  -- the default backend are.
  pub resolve-IsRoute :
      (c : Config) (r : RouteConfig) (host : Bytes)
      → IsValid lower c
      → IsRoute r c.routes
      → serves lower (normalize_host lower host) r.hosts ≡ true
      → resolve lower (new_static_router lower (route_backends c) (default_backend_config c)) host
        ≡ some (route_of r).backend
  resolve-IsRoute c r host v i h =
      let n = normalize_host lower host in
      let filled =
        has-Filled n (route_names lower c.routes) v.hosts (has-route_names n r c.routes i h) in
      resolve-last_serving lower (route_backends c) (default_backend_config c) host filled
      ∙ ap (λ o. or_default o (default_backend_config c))
          (last_serving-only n r c.routes v.distinct i h)
