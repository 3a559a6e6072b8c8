-- ===== src/Management.antt =====
-- internal/management/server.go: the handlers as functions of the request and the state that they
-- see. The server's multiplexer picks the handler by the path, and `encoding/json` writes the values:
-- a response has the value. `Query().Get` of a parameter is a function, "" for one that is missing.
pub mod Laws
pub mod Tests
use ciallo.Common.{
  ℕ, Bytes, List, [], ◌∷◌, ◌++◌, Bool, true, false, ◌||◌, if◌then◌else◌, Option, none, some, ◌==◌,
  bytes_eq,
}
use ciallo.Go.Defaults.{is_blank, or_text}
use ciallo.Go.Errors.{Error}
use ciallo.Go.Text.{codes}
use ciallo.Go.Time.{Time}
use ciallo.Go.Writer.{Writer}
use ciallo.Fail2ban.{Guard, Ban, unban}
use ciallo.Fail2ban as Guards
use ciallo.Health.{Checker}
use ciallo.Health.Snapshot.{Snapshot}
use ciallo.Health.Snapshot as Health

pub record Options : Type 0 where
  pub enabled : Bool
  pub address : Bytes
  pub version : Bytes

-- `none` is a nil guard, a nil metrics writer, a nil readiness check, a nil source of health. The
-- writer is the text it writes; the check is the answer of `Ready`.
pub record Server : Type 0 where
  pub options : Options
  pub guard : Option Guard
  pub metrics : Option Bytes
  pub ready : Option Bool
  pub health : Option Checker

-- `NewWithHealth`
pub new_with_health : Options → Option Guard → Option Bytes → Option Bool → Option Checker → Server
new_with_health o guard metrics ready health = record {
  options = record o { address = or_text o.address (codes "127.0.0.1:25575") };
  guard = guard;
  metrics = metrics;
  ready = ready;
  health = health;
}

pub record Request : Type 0 where
  pub method : Bytes
  pub query : Bytes → Bytes

-- What the handlers write; `message` is the text of `http.Error`.
pub data Body : Type 0 where
  no_body : Body
  message : Bytes → Body
  readiness : Bool → Bytes → Option Snapshot → Body
  metrics_text : Bytes → Body
  ban_list : List Ban → Body
  removed : Bool → Body

pub record Response : Type 0 where
  pub status : ℕ
  pub content_type : Bytes
  pub body : Body

abbrev pub method_get : Bytes
method_get = codes "GET"

abbrev pub method_delete : Bytes
method_delete = codes "DELETE"

-- `http.Error`
abbrev pub http_error : Bytes → ℕ → Response
http_error text status = record {
  status = status;
  content_type = codes "text/plain; charset=utf-8";
  body = message text;
}

abbrev pub method_not_allowed : Response
method_not_allowed = http_error (codes "method not allowed") 405

-- `writeJSON`
abbrev pub write_json : ℕ → Body → Response
write_json status body = record {
  status = status;
  content_type = codes "application/json";
  body = body;
}

-- `versionOrDefault`
abbrev pub version_or_default : Bytes → Bytes
version_or_default version = or_text version (codes "0.0.6")

pub handle_healthz : Request → Response
handle_healthz r =
    if r.method == method_get
    then record { status = 204; content_type = []; body = no_body }
    else method_not_allowed

module _ (clock : Bytes → Time) where
  -- `healthSnapshot`
  abbrev pub health_snapshot : Option Checker → Option Snapshot
  health_snapshot none = none
  health_snapshot (some c) = some (Health.snapshot clock (some c))

  abbrev or_true : Option Bool → Bool
  or_true none = true
  or_true (some b) = b

  pub handle_readyz : Server → Request → Response
  handle_readyz s r =
      let ready = or_true s.ready in
      let body = readiness ready s.options.version (health_snapshot s.health) in
      if r.method == method_get
      then (if ready then write_json 200 body else write_json 503 body)
      else method_not_allowed

abbrev metrics_body : Option Bytes → Body
metrics_body none = no_body
metrics_body (some text) = metrics_text text

pub handle_metrics : Server → Request → Response
handle_metrics s r =
    if r.method == method_get
    then record {
      status = 200;
      content_type = codes "text/plain; version=" ++ version_or_default s.options.version;
      body = metrics_body s.metrics;
    }
    else method_not_allowed

module _ (lower : ℕ → ℕ) where
  -- The case of DELETE.
  abbrev delete_ban : Server → Bytes → Bytes → Bytes → Response × Server
  delete_ban s route kind value =
      let (found, guard) = unban lower s.guard route kind value in
      if is_blank route || (is_blank kind || is_blank value)
      then (http_error (codes "route, kind, and value are required") 400, s)
      else (write_json 200 (removed found), record s { guard = guard })

  pub handle_bans : Server → Request → Time → Response × Server
  handle_bans s r now =
      if r.method == method_get
      then (write_json 200 (ban_list (Guards.snapshot s.guard now)), s)
      else (if r.method == method_delete
          then delete_ban s (r.query (codes "route")) (r.query (codes "kind"))
              (r.query (codes "value"))
          else (method_not_allowed, s))

-- The handlers that the multiplexer knows.
pub data Endpoint : Type 0 where
  healthz readyz metrics fail2ban_bans : Endpoint

module _ (lower : ℕ → ℕ) (clock : Bytes → Time) where
  unfoldable pub serve : Endpoint → Server → Request → Time → Response × Server
  serve healthz s r now = (handle_healthz r, s)
  serve readyz s r now = (handle_readyz clock s r, s)
  serve metrics s r now = (handle_metrics s r, s)
  serve fail2ban_bans s r now = handle_bans lower s r now
