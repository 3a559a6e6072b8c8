-- ===== src/Management/Tests.antt =====
-- A guard with one ban, and requests to the management server.
use ciallo.Common.{
  ℕ, ◌≡◌, refl, Bytes, List, [], ◌∷◌, Bool, true, false, if◌then◌else◌, Option, none, some, ◌==◌,
  bytes_eq, ℕ_discrete, nat_eq,
}
use ciallo.Common.Int.{pos}
use ciallo.Common.Dict.{lookup}
use ciallo.Go.Text.{codes}
use ciallo.Go.Time.{Time}
use ciallo.Go.Strings.{trim_space, to_lower}
use ciallo.Fail2ban.{Guard, Key, key_eq, normalize, Ban}
use ciallo.Fail2ban.Bans.{find_ban}
use ciallo.Management.{
  Server, Request, write_json, removed, ban_list, method_delete, metrics, fail2ban_bans, serve,
}
use ciallo.Management.Laws.{get_request, serve-delete}

abbrev same : ℕ → ℕ
same r = r

abbrev never : Bytes → Time
never addr = pos 0

abbrev one_ban : Guard
one_ban = record {
  options = record {
    enabled = true;
    max_failures = pos 5;
    window = pos 60;
    ban_duration = pos 600;
    early_disconnect = pos 5;
  };
  entries =
      (
        record { route = codes "play"; kind = codes "ip"; value = codes "10.0.0.9" },
        record { failures = 5; window_start = pos 0; banned_until = pos 700 },
      )
      ∷ [];
}

abbrev server : Server
server = record {
  options = record { enabled = true; address = codes "127.0.0.1:25575"; version = codes "v0.0.6" };
  guard = some one_ban;
  metrics = none;
  ready = some true;
  health = none;
}

abbrev lift : Request
lift = record {
  method = method_delete;
  query = λ (name : Bytes).
      if name == codes "route"
      then codes "play"
      else (if name == codes "kind" then codes "ip" else codes " 10.0.0.9");
}

posted : Request
posted = record { method = codes "POST"; query = λ _. [] }

serve-delete_example :
    let k : Key = record { route = codes "play"; kind = codes "ip"; value = codes "10.0.0.9" } in
    let (response, s') = serve same never fail2ban_bans server lift (pos 100) in
    (response ≡ write_json 200 (removed true))
    × ((bans : List Ban) × ((serve same never fail2ban_bans s' get_request (pos 101)).0
          ≡ write_json 200 (ban_list bans))
        × (find_ban k bans ≡ none))
unfolding bytes_eq ℕ_discrete lookup key_eq normalize trim_space to_lower ciallo.Common.eq_by
    ciallo.Common.pair_eq
serve-delete_example =
    serve-delete same never server one_ban lift (pos 100) (pos 101) refl (refl, tt) refl refl refl
      refl refl
