-- ===== src/Config/Backends/Laws.antt =====
-- The list of backends of internal/config/config.go against the settings.
use ciallo.Common.{
  ℕ, ◌+◌, ◌≡◌, refl, ◌∙◌, Bytes, List, [], ◌∷◌, Bool, true, false, ◌&&◌, ◌||◌, if◌then◌else◌,
  Option, none, some, ◌==◌, bytes_eq, arith, Bool-cases, inl, inr,
}
use ciallo.Common.Dict.{Dict, lookup, insert, lookup-insert, lookup-nil}
use ciallo.Go.Defaults.{is_blank}
use ciallo.Proxy.Types.{Backend}
use ciallo.Config.{Config, RouteConfig}
use ciallo.Config.Backends.{
  routes_of, route_backends, default_backend_config, add_backends, option_list, backends_of,
  backends, backend_at,
}

-- How many backends of the list have an address.
abbrev pub count_addr : Bytes → List Backend → ℕ
count_addr addr [] = 0
count_addr addr (b ∷ bs) = (if addr == b.addr then 1 else 0) + count_addr addr bs

has_addr : Bytes → List Backend → Bool
has_addr addr [] = false
has_addr addr (b ∷ bs) = addr == b.addr || has_addr addr bs

abbrev is_none : Option (Unit {0}) → Bool
is_none none = true
is_none (some _) = false

-- An address that is new is listed once, one that has been seen is not listed again.
count_addr-add_backends :
    (addr : Bytes) (seen : Dict Bytes (Unit {0})) (bs : List Backend)
    → is_blank addr ≡ false
    → count_addr addr (add_backends seen bs)
      ≡ (if is_none (lookup addr seen) && has_addr addr bs then 1 else 0)
unfolding add_backends has_addr
count_addr-add_backends addr seen [] f = ground arith
count_addr-add_backends addr seen (b ∷ bs) f =
    let skipped = count_addr-add_backends addr seen bs f in
    let rest = count_addr-add_backends addr (insert b.addr tt seen) bs f in
    let e = lookup-insert addr b.addr tt seen in
    elim (Bool-cases (addr == b.addr)) [
      | inl same ↦ let is_b : addr ≡ b.addr = ground arith in ground arith
      | inr other ↦ ground arith
    ]

-- A route goes to the address.
unfoldable pub has_route_to : Bytes → List RouteConfig → Bool
has_route_to addr [] = false
has_route_to addr (r ∷ rs) = addr == r.backend || has_route_to addr rs

-- A route goes to the address, or it is the default.
abbrev pub uses : Config → Bytes → Bool
uses c addr = has_route_to addr c.routes || addr == c.default_backend

has_addr-backends_of :
    (addr : Bytes) (rs : List RouteConfig) (def : Option Backend)
    → has_addr addr (backends_of (routes_of rs) def)
      ≡ (has_route_to addr rs || has_addr addr (option_list def))
unfolding has_addr backends_of routes_of has_route_to
has_addr-backends_of addr [] def = refl
has_addr-backends_of addr (r ∷ rs) def = ground (arith, has_addr-backends_of addr rs def)

has_addr-default :
    (addr def : Bytes)
    → is_blank addr ≡ false
    → has_addr addr (option_list (backend_at def)) ≡ (addr == def)
unfolding has_addr
has_addr-default [] [] f = cc
has_addr-default (a ∷ as_) [] f = ground arith
has_addr-default addr (b ∷ bs) f = ground arith

-- The list of backends has each address that a route or the default backend goes to, once, and no
-- other address but the empty one.
pub count_addr-backends :
    (c : Config) (addr : Bytes)
    → is_blank addr ≡ false
    → count_addr addr (backends c) ≡ (if uses c addr then 1 else 0)
unfolding backends
count_addr-backends c addr f =
    let all = backends_of (route_backends c) (default_backend_config c) in
    count_addr-add_backends addr [] all f
    ∙ rw
        (
          lookup-nil ⦃e = bytes_eq⦄ addr,
          has_addr-backends_of addr c.routes (default_backend_config c),
          has_addr-default addr c.default_backend f,
        )
        refl
