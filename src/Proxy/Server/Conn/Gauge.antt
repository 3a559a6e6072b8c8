-- ===== src/Proxy/Server/Conn/Gauge.antt =====
-- The gauge of active connections over the life of one connection.
use ciallo.Common.{
  ℕ, ◌+◌, ◌≡◌, refl, ap, ◌∙◌, Bytes, List, [], ◌∷◌, ◌++◌, Bool, true, false, Option, none, some,
  if◌then◌else◌, arith, ◌==◌, nat_eq,
}
use ciallo.Go.Errors.{Result, ok, err}
use ciallo.Go.Json.{Json}
use ciallo.Go.Reader.{Reader}
use ciallo.Go.Text.{codes}
use ciallo.Mcproto.Host.{normalize_host}
use ciallo.Mcproto.Packet.{Packet}
use ciallo.Mcproto.Handshake.{Handshake, read_handshake, next_state_status, next_state_login}
use ciallo.Metrics.{Recorder, new_recorder, apply, apply_all}
use ciallo.Proxy.Types.{Backend}
use ciallo.Proxy.Router.{resolve}
use ciallo.Proxy.Server.{Server, MetricCall, Fail2banAction, record_metric, add_call}
use ciallo.Proxy.Server.Gauge.{moves_gauge, Extends}
use ciallo.Proxy.Server.Login.{handle_login}
use ciallo.Proxy.Server.Login.Gauge.{handle_login-KeepsGauge}
use ciallo.Proxy.Server.Status.{handle_status}
use ciallo.Proxy.Server.Status.Gauge.{handle_status-KeepsGauge}
use ciallo.Proxy.Server.Conn.{
  ConnCall, ConnRun, status_call, login_call, record_block, dispatch, serve_route, serve,
  handle_conn,
}

-- The recorder's gauge after the calls of a server.
abbrev pub gauge : Option (List MetricCall) → ℕ
gauge none = 0
gauge (some calls) = (apply_all new_recorder calls).active_connections

apply_all-snoc :
    (r : Recorder) (calls : List MetricCall) (call : MetricCall)
    → apply_all r (calls ++ (call ∷ [])) ≡ apply (apply_all r calls) call
unfolding apply_all
apply_all-snoc r [] call = refl
apply_all-snoc r (c ∷ calls) call = apply_all-snoc (apply r c) calls call

quiet_apply :
    (r : Recorder) (call : MetricCall)
    → moves_gauge call ≡ false
    → (apply r call).active_connections ≡ r.active_connections
unfolding apply
quiet_apply r MetricCall.inc_active_connections h = cc
quiet_apply r MetricCall.dec_active_connections h = cc
quiet_apply r (MetricCall.record_status route backend result used) h = refl
quiet_apply r (MetricCall.record_login route backend action) h = refl
quiet_apply r (MetricCall.record_backend_dial_error route backend) h = refl
quiet_apply r (MetricCall.record_fail2ban_block route kind) h = refl
quiet_apply r (MetricCall.record_status_circuit_breaker backend) h = refl

gauge-add_call :
    (m : Option (List MetricCall)) (call : MetricCall)
    → moves_gauge call ≡ false
    → gauge (add_call m call) ≡ gauge m
gauge-add_call none call h = refl
gauge-add_call (some calls) call h =
    ap (λ (r : Recorder). r.active_connections) (apply_all-snoc new_recorder calls call)
    ∙ quiet_apply (apply_all new_recorder calls) call h

gauge-Extends : {m n : Option (List MetricCall)} → Extends m n → gauge n ≡ gauge m
gauge-Extends Extends.same = refl
gauge-Extends (Extends.adds {n} call h k) = gauge-add_call n call h ∙ gauge-Extends k

Extends-record_block :
    (m : Option (List MetricCall)) (s : Server) (host : Bytes) (action : Fail2banAction)
    → Extends m s.metrics
    → Extends m (record_block s host action).metrics
Extends-record_block m s host Fail2banAction.untouched h = h
Extends-record_block m s host Fail2banAction.banned_ip h =
    Extends.adds (MetricCall.record_fail2ban_block host (codes "ip")) refl h
Extends-record_block m s host Fail2banAction.banned_player h =
    Extends.adds (MetricCall.record_fail2ban_block host (codes "player")) refl h
Extends-record_block m s host Fail2banAction.failure_recorded h = h
Extends-record_block m s host Fail2banAction.success_recorded h = h

Extends-if :
    (m : Option (List MetricCall)) (b : Bool) (x y : ConnRun)
    → Extends m x.server.metrics
    → Extends m y.server.metrics
    → Extends m (if b then x else y).server.metrics
Extends-if m true x y hx hy = hx
Extends-if m false x y hx hy = hy

module _ (json : Json) (lower : ℕ → ℕ) where
  dispatch-Extends :
      (s : Server) (c : ConnCall) (host : Bytes) (backend : Backend) (h : Handshake) (p : Packet)
      (client : Reader)
      → Extends s.metrics (dispatch json lower s c host backend h p client).server.metrics
  unfolding dispatch
  dispatch-Extends s c host backend h p client =
      let status_run = handle_status json lower s (status_call c backend h p client) in
      let login_run = handle_login lower s (login_call c backend host h p client) in
      Extends-if s.metrics (h.next_state == next_state_status) _ _
        (Extends.adds
          (MetricCall.record_status host backend.addr status_run.result.cache_result
            status_run.result.fallback_used)
          refl (handle_status-KeepsGauge json lower s (status_call c backend h p client)))
        (Extends-if s.metrics (h.next_state == next_state_login) _ _
          (Extends-record_block s.metrics
            (record_metric login_run.server
              (MetricCall.record_login host backend.addr login_run.result.fail2ban_action))
            host login_run.result.fail2ban_action
            (Extends.adds
              (MetricCall.record_login host backend.addr login_run.result.fail2ban_action) refl
              (handle_login-KeepsGauge lower s (login_call c backend host h p client))))
          Extends.same)

  serve_route-Extends :
      (s : Server) (c : ConnCall) (host : Bytes) (backend : Option Backend) (h : Handshake)
      (p : Packet) (client : Reader)
      → Extends s.metrics (serve_route json lower s c host backend h p client).server.metrics
  unfolding serve_route
  serve_route-Extends s c host none h p client = Extends.same
  serve_route-Extends s c host (some backend) h p client =
      dispatch-Extends s c host backend h p client

  serve-Extends :
      (s : Server) (c : ConnCall) (read : Result (Handshake × Packet × Reader))
      → Extends s.metrics (serve json lower s c read).server.metrics
  unfolding serve
  serve-Extends s c (err e) = Extends.same
  serve-Extends s c (ok (h, p, client)) =
      let host = normalize_host lower h.server_address in
      serve_route-Extends s c host (resolve lower s.router host) h p client

  gauge_down :
      (m : Option (List MetricCall)) (n : ℕ)
      → gauge m ≡ n + 1
      → gauge (add_call m MetricCall.dec_active_connections) ≡ n
  unfolding apply
  gauge_down none n h = omega (arith, h)
  gauge_down (some calls) n h =
      ap (λ (r : Recorder). r.active_connections)
        (apply_all-snoc new_recorder calls MetricCall.dec_active_connections)
      ∙ (ground arith)

  gauge_up :
      (calls : List MetricCall)
      → gauge (add_call (some calls) MetricCall.inc_active_connections) ≡ gauge (some calls) + 1
  unfolding apply
  gauge_up calls =
      ap (λ (r : Recorder). r.active_connections)
        (apply_all-snoc new_recorder calls MetricCall.inc_active_connections)

  -- The gauge of active connections is right: on every path through the handler, the calls that a
  -- connection makes up to its end leave the gauge one higher than before, and the handler as a whole
  -- leaves it as it was.
  pub handle_conn-gauge :
      (s : Server) (c : ConnCall) (calls : List MetricCall)
      → s.metrics ≡ some calls
      → let s1 = record_metric s MetricCall.inc_active_connections in
        let read = read_handshake c.client s.options.max_handshake_size in
        (gauge (serve json lower s1 c read).server.metrics ≡ gauge s.metrics + 1)
        × (gauge (handle_conn json lower s c).server.metrics ≡ gauge s.metrics)
  unfolding handle_conn
  handle_conn-gauge s c calls on =
      let s1 = record_metric s MetricCall.inc_active_connections in
      let read = read_handshake c.client s.options.max_handshake_size in
      let up : gauge s1.metrics ≡ gauge s.metrics + 1 = rw on (gauge_up calls) in
      let served = gauge-Extends (serve-Extends s1 c read) ∙ up in
      (served, gauge_down (serve json lower s1 c read).server.metrics (gauge s.metrics) served)
