-- ===== src/Health/Targets.antt =====
-- Which backends internal/health/checker.go watches from the start: the targets of `BuildTargets` and
-- the entries that `New` makes of them.
use ciallo.Common.{
  ℕ, ◌≡◌, refl, sym, ◌∙◌, Bytes, List, [], ◌∷◌, Bool, true, false, ◌||◌, Option, none, some, ◌==◌,
  bytes_eq, arith, Bool-cases, inl, inr,
}
use ciallo.Common.Dict.{Dict, lookup, lookup-insert}
use ciallo.Go.Defaults.{is_blank, or_text}
use ciallo.Proxy.Types.{Backend, Route}
use ciallo.Health.{
  Options, BackendTarget, Entry, new_entry, fallback_probe_host, with_default, insert_if_new,
  add_targets, new_checker, add_target, add_unless_blank, route_targets, build_targets, first_host,
}

abbrev has_target : Bytes → List BackendTarget → Bool
has_target a [] = false
has_target a (t ∷ ts) = a == t.backend.addr || has_target a ts

has_target-add_target :
    (a : Bytes) (ts : List BackendTarget) (b : Backend) (h p : Bytes)
    → has_target a (add_target ts b h p) ≡ (has_target a ts || a == b.addr)
unfolding add_target
has_target-add_target a [] b h p = ground arith
has_target-add_target a (t ∷ ts) b h p = ground (arith, has_target-add_target a ts b h p)

has_target-add_unless_blank :
    (a : Bytes) (ts : List BackendTarget) (b : Backend) (h p : Bytes)
    → is_blank a ≡ false
    → has_target a (add_unless_blank ts b h p) ≡ (has_target a ts || a == b.addr)
has_target-add_unless_blank a ts b h p f = elim (Bool-cases (is_blank b.addr)) [
  | inl blank ↦
      let differs : (a == b.addr) ≡ false = ground arith in rw (blank, differs) (ground arith)
  | inr filled ↦ rw filled (has_target-add_target a ts b h p)
]

abbrev pub has_default : Bytes → Option Backend → Bool
has_default a none = false
has_default a (some b) = a == b.addr

-- A route or the default backend goes to the address.
abbrev pub is_routed : Bytes → List Route → Option Backend → Bool
is_routed a [] def = has_default a def
is_routed a (r ∷ rs) def = a == r.backend.addr || is_routed a rs def

abbrev pub is_known : Bytes → Dict Bytes Entry → Bool
is_known a m = elim (lookup a m) [ none ↦ false | some _ ↦ true ]

is_known-insert_if_new :
    (a k : Bytes) (e : Entry) (m : Dict Bytes Entry)
    → is_known a (insert_if_new k e m) ≡ (is_known a m || a == k)
is_known-insert_if_new a k e m = let l = lookup-insert a k e m in ground arith

is_known-nil : (a : Bytes) → is_known a [] ≡ false
unfolding lookup
is_known-nil a = refl

module _ (lower : ℕ → ℕ) where
  has_target-route_targets :
      (a : Bytes) (rs : List Route) (p : Bytes) (ts : List BackendTarget)
      → is_blank a ≡ false
      → has_target a (route_targets lower rs p ts) ≡ (has_target a ts || is_routed a rs none)
  unfolding route_targets
  has_target-route_targets a [] p ts f = ground arith
  has_target-route_targets a (r ∷ rs) p ts f =
      let host = first_host lower r.hosts in
      let next = add_unless_blank ts r.backend host p in
      let here = has_target-add_unless_blank a ts r.backend host p f in
      let rest = has_target-route_targets a rs p next f in rest ∙ ground arith

  is_routed-default :
      (a : Bytes) (rs : List Route) (def : Option Backend)
      → is_routed a rs def ≡ (is_routed a rs none || has_default a def)
  is_routed-default a [] def = refl
  is_routed-default a (r ∷ rs) def = ground (arith, is_routed-default a rs def)

  has_target-build_targets :
      (a : Bytes) (rs : List Route) (def : Option Backend) (p : Bytes)
      → is_blank a ≡ false
      → has_target a (build_targets lower rs def p) ≡ is_routed a rs def
  unfolding build_targets
  has_target-build_targets a rs none p f = has_target-route_targets a rs p [] f
  has_target-build_targets a rs (some b) p f =
      let ts = route_targets lower rs p [] in
      has_target-add_unless_blank a ts b p p f
      ∙ rw (has_target-route_targets a rs p [] f) (sym (is_routed-default a rs (some b)))

  is_known-add_targets :
      (o : Options) (a : Bytes) (ts : List BackendTarget) (m : Dict Bytes Entry)
      → is_blank a ≡ false
      → is_known a (add_targets o ts m) ≡ (is_known a m || has_target a ts)
  unfolding add_targets
  is_known-add_targets o a [] m f = ground arith
  is_known-add_targets o a (t ∷ ts) m f =
      let addr = t.backend.addr in
      let host = or_text t.probe_host (fallback_probe_host o.probe_host addr) in
      let e = new_entry (record t { probe_host = host }) in
      elim (Bool-cases (is_blank addr)) [
        | inl blank ↦
            let differs : (a == addr) ≡ false = ground arith in
            rw (blank, differs) (is_known-add_targets o a ts m f)
        | inr filled ↦
            let here = is_known-insert_if_new a addr e m in
            let rest = is_known-add_targets o a ts (insert_if_new addr e m) f in
            rw filled (rest ∙ ground arith)
      ]

  -- The checker made of the targets of some routes and a default backend has an entry for an
  -- address that is not empty if and only if a route or the default backend goes to it.
  pub new_checker-watches :
      (o : Options) (rs : List Route) (def : Option Backend) (a : Bytes)
      → is_blank a ≡ false
      → is_known a (new_checker o (build_targets lower rs def o.probe_host)).entries
        ≡ is_routed a rs def
  unfolding new_checker
  new_checker-watches o rs def a f =
      let ts = build_targets lower rs def o.probe_host in
      is_known-add_targets (with_default o) a ts [] f
      ∙ rw (is_known-nil a) (has_target-build_targets a rs def o.probe_host f)
