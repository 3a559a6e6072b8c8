-- ===== src/Management/Laws.antt =====
-- Requests to the handlers of internal/management/server.go, one after another.
use ciallo.Common.{ℕ, ◌≡◌, refl, ap, ◌∙◌, Bytes, List, [], true, false, none, some, bytes_eq, arith}
use ciallo.Common.Dict.{lookup, delete, NodupKeys, lookup-delete, delete-NodupKeys}
use ciallo.Go.Defaults.{is_blank}
use ciallo.Go.Text.{codes}
use ciallo.Go.Time.{Time}
use ciallo.Fail2ban.{
  Guard, Key, key_eq, Entry, Ban, normalize, key_of, is_off, unban, unban_on, is_banned_on,
}
use ciallo.Fail2ban.Bans.{find_ban, active_ban, snapshot-active}
use ciallo.Fail2ban as Guards
use ciallo.Management.{
  Server, Request, ban_list, removed, method_get, method_delete, write_json, handle_bans,
  fail2ban_bans, serve,
}

abbrev pub get_request : Request
get_request = record { method = method_get; query = λ _. [] }

module _ (lower : ℕ → ℕ) (clock : Bytes → Time) where
  -- What the list of bans is after an entry has gone.
  no_ban :
      (g : Guard) (k : Key) (now : Time)
      → NodupKeys g.entries
      → find_ban k (Guards.snapshot (some (record g { entries = delete k g.entries })) now) ≡ none
  no_ban g k now h =
      let g' : Guard = record g { entries = delete k g.entries } in
      let gone : lookup k g'.entries ≡ none = lookup-delete k k g.entries ∙ ground arith in
      snapshot-active g' k now (delete-NodupKeys k g.entries h) ∙ ap (active_ban k now) gone

  -- A DELETE with a route, a kind and a value that is not blank gives 200 with the answer whether the
  -- guard had an entry of that key, and a GET at any later time gives 200 with a list that has no ban
  -- of the key. The guard has one entry of a key at most.
  pub serve-delete :
      (s : Server) (g : Guard) (r : Request) (now later : Time)
      → s.guard ≡ some g
      → NodupKeys g.entries
      → r.method ≡ method_delete
      → is_blank (r.query (codes "route")) ≡ false
      → is_blank (r.query (codes "kind")) ≡ false
      → is_blank (r.query (codes "value")) ≡ false
      → is_blank (normalize lower (r.query (codes "value"))) ≡ false
      → let k =
          key_of lower
            (r.query (codes "route"))
            (r.query (codes "kind"))
            (r.query (codes "value")) in
        let (response, s') = serve lower clock fail2ban_bans s r now in
        (response
          ≡ write_json 200 (removed (elim (lookup k g.entries) [ none ↦ false | some _ ↦ true ])))
        × ((bans : List Ban) × ((serve lower clock fail2ban_bans s' get_request later).0
              ≡ write_json 200 (ban_list bans))
            × (find_ban k bans ≡ none))
  unfolding serve handle_bans unban unban_on bytes_eq
  serve-delete s g r now later held unique is_delete route kind value filled =
      let k =
        key_of lower (r.query (codes "route")) (r.query (codes "kind")) (r.query (codes "value")) in
      rw (is_delete, held, route, kind, value, filled) (refl, (_, refl, no_ban g k later unique))
