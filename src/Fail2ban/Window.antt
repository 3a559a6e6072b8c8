-- ===== src/Fail2ban/Window.antt =====
-- The failures of one key within one window, for internal/fail2ban/guard.go.
use ciallo.Common.{
  ℕ, suc, ◌+◌, ◌≡◌, refl, sym, ap, subst, ◌∙◌, Bytes, List, [], ◌∷◌, false, ◌&&◌, if◌then◌else◌,
  Option, none, some, length, All, arith,
}
use ciallo.Common.Int.{pos, leb_ℤ, ◌≤ℤ◌}
use ciallo.Common.Dict.{lookup, insert, lookup-insert}
use ciallo.Go.Time.{Time, zero_time, is_zero, before, add, sub}
use ciallo.Fail2ban.{
  Options, key_eq, Entry, Guard, normalize, entry_or_zero, count_failure, key_of, is_off,
  is_banned_on, record_failure_on,
}

-- The time of the last of the failures at `t` and `ts`.
abbrev pub last_time : Time → List Time → Time
last_time t [] = t
last_time t (u ∷ us) = last_time u us

-- The times that lie in the window that `t` opens.
abbrev pub InWindow : Options → Time → List Time → Type 0
InWindow o t ts = All (λ u. sub u t ≤ℤ o.window) ts

-- An entry after `n` failures in the window from `start`, the last of them at `last`.
abbrev pub counted : Options → Time → ℕ → Time → Entry
counted o start n last = record {
  failures = n;
  window_start = start;
  banned_until = if leb_ℤ o.max_failures (pos n) then add last o.ban_duration else zero_time;
}

count_first : (o : Options) (t : Time) → count_failure o (entry_or_zero none) t ≡ counted o t 1 t
unfolding count_failure
count_first o t = refl

count_next :
    (o : Options) (start : Time) (n : ℕ) (last now : Time)
    → is_zero start ≡ false
    → sub now start ≤ℤ o.window
    → count_failure o (counted o start n last) now ≡ counted o start (n + 1) now
unfolding count_failure
count_next o start n last now h w = ground arith

module _ (lower : ℕ → ℕ) (route kind value : Bytes) where
  -- `RecordFailure` once for each time.
  pub record_failures : Guard → List Time → Guard
  record_failures g [] = g
  record_failures g (t ∷ ts) = record_failures (record_failure_on lower g route kind value t).1 ts

  record_failure_step :
      (g : Guard) (t : Time) (found : Option Entry)
      → is_off lower g value ≡ false
      → lookup (key_of lower route kind value) g.entries ≡ found
      → (record_failure_on lower g route kind value t).1 ≡ record g {
        entries =
            insert
              (key_of lower route kind value)
              (count_failure g.options (entry_or_zero found) t)
              g.entries;
      }
  unfolding record_failure_on
  record_failure_step g t found on e = rw (on, e)

  -- The guard with one entry of the key.
  abbrev pub with_entry : Guard → Entry → Guard
  with_entry g item = record g { entries = insert (key_of lower route kind value) item g.entries }

  lookup-with_entry :
      (g : Guard) (item : Entry)
      → lookup (key_of lower route kind value) (with_entry g item).entries ≡ some item
  lookup-with_entry g item =
      let k = key_of lower route kind value in ground (arith, lookup-insert k k item g.entries)

  -- What a history of failures leaves under the key, and the options that it keeps.
  abbrev pub Leaves : Guard → List Time → Entry → Options → Type 0
  Leaves g ts item o =
      (lookup (key_of lower route kind value) (record_failures g ts).entries ≡ some item)
      × ((record_failures g ts).options ≡ o)

  record_failures-counted :
      (g : Guard) (start : Time) (n : ℕ) (last : Time) (ts : List Time)
      → is_off lower g value ≡ false
      → is_zero start ≡ false
      → InWindow g.options start ts
      → lookup (key_of lower route kind value) g.entries ≡ some (counted g.options start n last)
      → (lookup (key_of lower route kind value) (record_failures g ts).entries
          ≡ some (counted g.options start (n + length ts) (last_time last ts)))
        × ((record_failures g ts).options ≡ g.options)
  unfolding record_failures
  record_failures-counted g start n last [] on nz w e =
      let m : n + 0 ≡ n = omega arith in rw m (e, refl)
  record_failures-counted g start n last (t ∷ ts) on nz (wt, w) e =
      let o : Options = g.options in
      let m : n + 1 + length ts ≡ n + suc (length ts) = omega arith in
      let item : Entry = counted o start (n + 1) t in
      let step =
        record_failure_step g t (some (counted o start n last)) on e
        ∙ ap (with_entry g) (count_next o start n last t nz wt) in
      subst (λ (c : ℕ). Leaves g (t ∷ ts) (counted o start c (last_time t ts)) o) m
        (subst (λ h. Leaves h ts (counted o start (n + 1 + length ts) (last_time t ts)) o)
          (sym step)
          (record_failures-counted (with_entry g item) start (n + 1) t ts on nz w
            (lookup-with_entry g item)))

  -- Failures in one window are counted one by one from a key that had no entry: the entry keeps
  -- the time of the first as the window's start, and holds a ban, from the last failure on, exactly
  -- when the count has reached the limit.
  pub record_failures-window :
      (g : Guard) (t : Time) (ts : List Time)
      → is_off lower g value ≡ false
      → lookup (key_of lower route kind value) g.entries ≡ none
      → is_zero t ≡ false
      → InWindow g.options t ts
      → (lookup (key_of lower route kind value) (record_failures g (t ∷ ts)).entries
          ≡ some (counted g.options t (1 + length ts) (last_time t ts)))
        × ((record_failures g (t ∷ ts)).options ≡ g.options)
  unfolding record_failures
  record_failures-window g t ts on e nz w =
      let o : Options = g.options in
      let item : Entry = counted o t 1 t in
      let step = record_failure_step g t none on e ∙ ap (with_entry g) (count_first o t) in
      subst (λ h. Leaves h ts (counted o t (1 + length ts) (last_time t ts)) o) (sym step)
        (record_failures-counted (with_entry g item) t 1 t ts on nz w (lookup-with_entry g item))

pub ban_policy :
    (lower : ℕ → ℕ) (route kind value value' : Bytes) (g : Guard) (t : Time) (ts : List Time)
    (now : Time)
    → is_off lower g value ≡ false
    → lookup (key_of lower route kind value) g.entries ≡ none
    → is_zero t ≡ false
    → InWindow g.options t ts
    → normalize lower value' ≡ normalize lower value
    → zero_time ≤ℤ now
    → (is_banned_on lower
        (record_failures lower route kind value g (t ∷ ts))
        route
        kind
        value'
        now).0
      ≡ (leb_ℤ g.options.max_failures (pos (1 + length ts))
          && before now (add (last_time t ts) g.options.ban_duration))
unfolding is_banned_on
ban_policy lower route kind value value' g t ts now on e nz w same later =
    let (found, kept) = record_failures-window lower route kind value g t ts on e nz w in
    rw (same, found, kept) (ground arith)
