-- ===== src/Config/Validate/Laws.antt =====
-- The checks of internal/config/config.go against a description of the settings that pass.
use ciallo.Common.{
  ℕ, ◌+◌, ◌≡◌, refl, subst, Bytes, List, [], ◌∷◌, ◌++◌, false, Option, none, some, bytes_eq, All,
}
use ciallo.Common.Dict.{lookup, insert}
use ciallo.Go.Defaults.{is_blank}
use ciallo.Go.Errors.{
  Error, ok, err, wrap, wrap-eq-ok, refuse_if, refuse_if-eq-ok, >>-eq-ok, >>=-eq-ok,
  route_backend_invalid, addr_error, missing_port,
}
use ciallo.Go.HostPort.{split_host_port}
use ciallo.Go.Strings.{trim_space, last_index_byte}
use ciallo.Mcproto.Host.{normalize_host}
use ciallo.Config.{RouteConfig}
use ciallo.Config.Validate.Names.{New, mark, Filled, New-append, New-split}
use ciallo.Config.Validate.{validate_addr, SeenHosts, validate_hosts, validate_routes, refuse_seen}

-- `host:port` or `[host]:port`, neither of them blank.
pub record IsAddr (addr : Bytes) : Type 0 where
  pub host : Bytes
  pub port : Bytes
  pub splits : split_host_port addr ≡ ok (host, port)
  pub host_filled : is_blank (trim_space host) ≡ false
  pub port_filled : is_blank (trim_space port) ≡ false

pub validate_addr-IsAddr : (addr : Bytes) → validate_addr addr ≡ ok tt → IsAddr addr
unfolding validate_addr
validate_addr-IsAddr addr h =
    let (p, s, rest) = >>=-eq-ok (split_host_port addr) _ h in
    let (a, b) = >>-eq-ok (refuse_if (is_blank (trim_space p.0)) _) _ rest in
    record {
      host = p.0;
      port = p.1;
      splits = s;
      host_filled = refuse_if-eq-ok _ _ a;
      port_filled = refuse_if-eq-ok _ _ b;
    }

pub IsAddr-validate_addr : (addr : Bytes) → IsAddr addr → validate_addr addr ≡ ok tt
unfolding validate_addr
IsAddr-validate_addr addr a = rw (a.splits, a.host_filled, a.port_filled) refl

refuse_seen-eq-ok : (o : Option (Unit {0})) (e : Error) → refuse_seen o e ≡ ok tt → o ≡ none
refuse_seen-eq-ok none e h = refl
refuse_seen-eq-ok (some _) e h = cc

abbrev pub Addressed : RouteConfig → Type 0
Addressed r = IsAddr r.backend

pub IsAddr-Filled : (addr : Bytes) → IsAddr addr → Filled addr
unfolding split_host_port last_index_byte
IsAddr-Filled [] a = let e : err (addr_error missing_port) ≡ ok (a.host, a.port) = a.splits in cc
IsAddr-Filled (b ∷ bs) a = refl

module _ (lower : ℕ → ℕ) where
  abbrev pub host_names : List Bytes → List Bytes
  host_names [] = []
  host_names (host ∷ hosts) = normalize_host lower host ∷ host_names hosts

  -- The normal forms of all hosts, in the order of the file.
  abbrev pub route_names : List RouteConfig → List Bytes
  route_names [] = []
  route_names (r ∷ rs) = host_names r.hosts ++ route_names rs

  validate_hosts-eq-ok :
      (i : ℕ) (hosts : List Bytes) (s : SeenHosts) {s' : SeenHosts}
      → validate_hosts lower i hosts s ≡ ok s'
      → New (host_names hosts) s × (s' ≡ mark (host_names hosts) s)
  unfolding validate_hosts New mark
  validate_hosts-eq-ok i [] s h = (tt, cc)
  validate_hosts-eq-ok i (host ∷ hosts) s h =
      let n = normalize_host lower host in
      let (a, h1) = >>-eq-ok (refuse_if (is_blank n) _) _ h in
      let (b, h2) = >>-eq-ok (refuse_seen (lookup n s) _) _ h1 in
      let (rest, e) = validate_hosts-eq-ok i hosts (insert n tt s) h2 in
      ((refuse_if-eq-ok _ _ a, refuse_seen-eq-ok _ _ b, rest), e)

  New-validate_hosts :
      (i : ℕ) (hosts : List Bytes) (s : SeenHosts)
      → New (host_names hosts) s
      → validate_hosts lower i hosts s ≡ ok (mark (host_names hosts) s)
  unfolding validate_hosts New mark
  New-validate_hosts i [] s h = refl
  New-validate_hosts i (host ∷ hosts) s (a, b, h) =
      rw (a, b) (New-validate_hosts i hosts (insert (normalize_host lower host) tt s) h)

  pub validate_routes-New :
      (i : ℕ) (rs : List RouteConfig) (s : SeenHosts)
      → validate_routes lower i rs s ≡ ok tt
      → All Addressed rs × New (route_names rs) s
  unfolding validate_routes New
  validate_routes-New i [] s h = (tt, tt)
  validate_routes-New i (r ∷ rs) s h =
      let (a, h1) = >>-eq-ok (refuse_if (is_blank r.backend) _) _ h in
      let (b, h2) = >>-eq-ok (wrap (route_backend_invalid i) (validate_addr r.backend)) _ h1 in
      let (s', c, h3) = >>=-eq-ok (validate_hosts lower i r.hosts s) _ h2 in
      let (here, e) = validate_hosts-eq-ok i r.hosts s c in
      let (addrs, rest) = validate_routes-New (i + 1) rs s' h3 in
      (
        (validate_addr-IsAddr r.backend (wrap-eq-ok _ _ b), addrs),
        New-append (host_names r.hosts) (route_names rs) s here
            (subst (New (route_names rs)) e rest),
      )

  pub New-validate_routes :
      (i : ℕ) (rs : List RouteConfig) (s : SeenHosts)
      → All Addressed rs
      → New (route_names rs) s
      → validate_routes lower i rs s ≡ ok tt
  unfolding validate_routes
  New-validate_routes i [] s a h = refl
  New-validate_routes i (r ∷ rs) s (a, as_) h =
      let (here, rest) = New-split (host_names r.hosts) (route_names rs) s h in
      rw
        (
          IsAddr-Filled r.backend a,
          IsAddr-validate_addr r.backend a,
          New-validate_hosts i r.hosts s here,
        )
        (New-validate_routes (i + 1) rs (mark (host_names r.hosts) s) as_ rest)
