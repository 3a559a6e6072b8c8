-- ===== src/Config/Validate/Valid.antt =====
-- Which settings `Validate` of internal/config/config.go lets through.
use ciallo.Common.{ℕ, ◌≡◌, refl, ◌↔◌, ◌⊎◌, inl, inr, Bytes, [], ◌∷◌, false, ◌&&◌, bytes_eq, All}
use ciallo.Common.Int.{pos, ltb_ℤ}
use ciallo.Go.Defaults.{is_blank, is_not_positive}
use ciallo.Go.Errors.{
  ok, wrap, wrap-eq-ok, refuse_if, refuse_if-eq-ok, >>-eq-ok, backend_health_invalid,
}
use ciallo.Config.{Config}
use ciallo.Config.Validate.{
  validate_backend_health, validate_routes, validate, has_no_routes, validate_default_backend,
}
use ciallo.Config.Validate.Names.{Distinct, Filled, New-Distinct, Distinct-New, Unseen-nil}
use ciallo.Config.Validate.Laws.{
  IsAddr, validate_addr-IsAddr, IsAddr-validate_addr, route_names, Addressed, validate_routes-New,
  New-validate_routes,
}
use ciallo.Config.Validate.Settings.{
  Positive, Natural, positive, is_not_positive-false, natural, is_negative-false, IsHealthConfig,
  validate_backend_health-IsHealthConfig, IsHealthConfig-validate_backend_health, IsLoggingConfig,
  validate_logging-IsLoggingConfig, IsLoggingConfig-validate_logging,
}

module _ (lower : ℕ → ℕ) where
  -- What the program asks of its settings.
  pub record IsValid (c : Config) : Type 0 where
    pub listen : Filled c.listen
    pub routable : (is_blank c.default_backend && has_no_routes c.routes) ≡ false
    pub default_backend : (c.default_backend ≡ []) ⊎ IsAddr c.default_backend
    pub backends : All Addressed c.routes
    pub hosts : All Filled (route_names lower c.routes)
    pub distinct : Distinct (route_names lower c.routes)
    pub max_handshake_size : Positive c.max_handshake_size
    pub max_status_response_size : Positive c.max_status_response_size
    pub players_max : Natural c.status_fallback.players_max
    pub backend_health : IsHealthConfig c.backend_health
    pub logging : IsLoggingConfig lower c.logging

  validate_default_backend-IsAddr :
      (addr : Bytes) → validate_default_backend addr ≡ ok tt → (addr ≡ []) ⊎ IsAddr addr
  validate_default_backend-IsAddr [] h = inl refl
  validate_default_backend-IsAddr (b ∷ bs) h =
      inr (validate_addr-IsAddr (b ∷ bs) (wrap-eq-ok _ _ h))

  IsAddr-validate_default_backend :
      (addr : Bytes) → (addr ≡ []) ⊎ IsAddr addr → validate_default_backend addr ≡ ok tt
  IsAddr-validate_default_backend [] h = refl
  IsAddr-validate_default_backend (b ∷ bs) (inl e) = cc
  IsAddr-validate_default_backend (b ∷ bs) (inr a) = rw (IsAddr-validate_addr (b ∷ bs) a) refl

  pub validate-IsValid : (c : Config) → validate lower c ≡ ok tt → IsValid c
  unfolding validate
  validate-IsValid c e =
      let (a, e1) = >>-eq-ok (refuse_if (is_blank c.listen) _) _ e in
      let (b, e2) =
        >>-eq-ok (refuse_if (is_blank c.default_backend && has_no_routes c.routes) _) _ e1 in
      let (d, e3) = >>-eq-ok (validate_default_backend c.default_backend) _ e2 in
      let (r, e4) = >>-eq-ok (validate_routes lower 0 c.routes []) _ e3 in
      let (s, e5) = >>-eq-ok (refuse_if (is_not_positive c.max_handshake_size) _) _ e4 in
      let (t, e6) = >>-eq-ok (refuse_if (is_not_positive c.max_status_response_size) _) _ e5 in
      let (p, e7) = >>-eq-ok (refuse_if (ltb_ℤ c.status_fallback.players_max (pos 0)) _) _ e6 in
      let (h, l) =
        >>-eq-ok (wrap backend_health_invalid (validate_backend_health c.backend_health)) _ e7 in
      let (addrs, fresh) = validate_routes-New lower 0 c.routes [] r in
      let (filled, distinct, _) = New-Distinct (route_names lower c.routes) [] fresh in
      record {
        listen = refuse_if-eq-ok _ _ a;
        routable = refuse_if-eq-ok _ _ b;
        default_backend = validate_default_backend-IsAddr c.default_backend d;
        backends = addrs;
        hosts = filled;
        distinct = distinct;
        max_handshake_size = positive _ _ s;
        max_status_response_size = positive _ _ t;
        players_max = natural _ _ p;
        backend_health = validate_backend_health-IsHealthConfig c.backend_health (wrap-eq-ok _ _ h);
        logging = validate_logging-IsLoggingConfig lower c.logging (wrap-eq-ok _ _ l);
      }

  pub IsValid-validate : (c : Config) → IsValid c → validate lower c ≡ ok tt
  unfolding validate
  IsValid-validate c v =
      let names = route_names lower c.routes in
      let fresh = Distinct-New names [] v.hosts v.distinct (Unseen-nil names) in
      rw
        (
          v.listen,
          v.routable,
          IsAddr-validate_default_backend c.default_backend v.default_backend,
          New-validate_routes lower 0 c.routes [] v.backends fresh,
          is_not_positive-false _ v.max_handshake_size,
          is_not_positive-false _ v.max_status_response_size,
          is_negative-false _ v.players_max,
          IsHealthConfig-validate_backend_health c.backend_health v.backend_health,
          IsLoggingConfig-validate_logging lower c.logging v.logging,
        )
        refl

  -- The settings that `Validate` accepts are those in which the address to listen on is not empty;
  -- there is a route or a default backend; every backend is an address with a host and a port that
  -- are not blank; no host has an empty normal form and no two hosts have the same one; the
  -- sizes and all settings of the health checks are positive, the number of players is not
  -- negative; and the level, the format and the output of the log are known ones, a file has a
  -- path, and the limits of the file are in range.
  pub validate-iff-IsValid : (c : Config) → (validate lower c ≡ ok tt) ↔ IsValid c
  validate-iff-IsValid c = (validate-IsValid c, IsValid-validate c)
