-- ===== src/Fail2ban/Laws.antt =====
-- The methods of internal/fail2ban/guard.go on their own key and on other keys.
use ciallo.Common.{ℕ, ◌≡◌, Bytes, true, false, Option, none, some, arith}
use ciallo.Common.Int.{pos, ◌<ℤ◌}
use ciallo.Common.Dict.{lookup, lookup-delete, NodupKeys, insert-NodupKeys, delete-NodupKeys}
use ciallo.Go.Time.{Time}
use ciallo.Fail2ban.{
  Options, Key, key_eq, Entry, Guard, new_guard, normalize, is_blank, entry_or_zero, count_failure,
  key_of, is_banned_on, record_failure_on, record_success_on, unban_on, check_entry,
}

-- Whatever options `New` is given, the limit and the three durations of the guard are positive.
pub new_guard-positive :
    (o : Options)
    → (pos 0 <ℤ (new_guard o).options.max_failures)
      × (pos 0 <ℤ (new_guard o).options.window)
      × (pos 0 <ℤ (new_guard o).options.ban_duration)
      × (pos 0 <ℤ (new_guard o).options.early_disconnect)
unfolding new_guard
new_guard-positive o = ground arith

-- A call of a method, with its arguments and the time that it reads.
pub data Call : Type 0 where
  ask : Bytes → Bytes → Bytes → Time → Call
  fail : Bytes → Bytes → Bytes → Time → Call
  succeed : Bytes → Bytes → Bytes → Call
  lift_ban : Bytes → Bytes → Bytes → Call

module _ (lower : ℕ → ℕ) where
  pub step : Guard → Call → Guard
  step g (ask route kind value now) = (is_banned_on lower g route kind value now).1
  step g (fail route kind value now) = (record_failure_on lower g route kind value now).1
  step g (succeed route kind value) = record_success_on lower g route kind value
  step g (lift_ban route kind value) = (unban_on lower g route kind value).1

  -- The key of a call.
  unfoldable pub target : Call → Key
  target (ask route kind value now) = key_of lower route kind value
  target (fail route kind value now) = key_of lower route kind value
  target (succeed route kind value) = key_of lower route kind value
  target (lift_ban route kind value) = key_of lower route kind value

  check_entry-NodupKeys :
      (g : Guard) (k : Key) (now : Time) (found : Option Entry)
      → NodupKeys g.entries
      → NodupKeys (check_entry lower g k now found).1.entries
  unfolding check_entry
  check_entry-NodupKeys g k now none h = h
  check_entry-NodupKeys g k now (some item) h = ground (arith, delete-NodupKeys k g.entries h)

  -- Every method keeps the table a map.
  pub step-keeps : (g : Guard) (c : Call) → NodupKeys g.entries → NodupKeys (step g c).entries
  unfolding step is_banned_on record_failure_on record_success_on unban_on
  step-keeps g (ask route kind value now) h =
      let k = key_of lower route kind value in
      ground (arith, check_entry-NodupKeys g k now (lookup k g.entries) h)
  step-keeps g (fail route kind value now) h =
      let k = key_of lower route kind value in
      let item = count_failure g.options (entry_or_zero (lookup k g.entries)) now in
      ground (arith, insert-NodupKeys k item g.entries h)
  step-keeps g (succeed route kind value) h =
      ground (arith, delete-NodupKeys (key_of lower route kind value) g.entries h)
  step-keeps g (lift_ban route kind value) h =
      ground (arith, delete-NodupKeys (key_of lower route kind value) g.entries h)

  -- After a success or an unban of a key the guard holds nothing against it, so it is not banned
  -- at any time; `Unban` reports whether there was an entry, banned or not.
  pub cleared :
      (g : Guard) (route kind value : Bytes) (now : Time)
      → g.options.enabled ≡ true
      → is_blank (normalize lower value) ≡ false
      → ((is_banned_on lower (record_success_on lower g route kind value) route kind value now).0
          ≡ false)
        × ((is_banned_on lower (unban_on lower g route kind value).1 route kind value now).0
            ≡ false)
        × ((unban_on lower g route kind value).0
            ≡ elim (lookup (key_of lower route kind value) g.entries) [
              | none ↦ false
              | some _ ↦ true
            ])
  unfolding is_banned_on record_success_on unban_on check_entry
  cleared g route kind value now on some_value =
      let k = key_of lower route kind value in ground (arith, lookup-delete k k g.entries)
