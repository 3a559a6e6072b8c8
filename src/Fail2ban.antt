-- ===== src/Fail2ban.antt =====
-- internal/fail2ban/guard.go. Every method holds the mutex for its whole body, so a method is one
-- step; the time that it reads from the clock is an argument. `lower` is the table of
-- `unicode.ToLower`. A method on a nil guard is a method on `none`.
pub mod Laws
pub mod Window
pub mod Bans
pub mod Tests
use ciallo.Common.{
  ℕ, ◌+◌, ◌*◌, ◌≡◌, ap, Bytes, List, [], ◌∷◌, Bool, true, false, ◌&&◌, ◌||◌, not, if◌then◌else◌,
  Option, none, some, Eq, eq_by, bytes_eq, pair_eq,
}
use ciallo.Common.Int.{ℤ, pos, leb_ℤ, ltb_ℤ}
use ciallo.Common.Dict.{Dict, lookup, insert, delete}
use ciallo.Go.Strings.{trim_space, to_lower}
use ciallo.Go.Time.{Time, Duration, zero_time, is_zero, before, add, sub, second, minute}

pub record Options : Type 0 where
  pub enabled : Bool
  pub max_failures : ℤ
  pub window : Duration
  pub ban_duration : Duration
  pub early_disconnect : Duration

pub record Key : Type 0 where
  pub route : Bytes
  pub kind : Bytes
  pub value : Bytes

abbrev key_fields : Key → Bytes × (Bytes × Bytes)
key_fields k = (k.route, (k.kind, k.value))

key_fields-injective : (a b : Key) → key_fields a ≡ key_fields b → a ≡ b
key_fields-injective a b p = λ i. record { route = (p i).0; kind = (p i).1.0; value = (p i).1.1 }

instance unfoldable pub key_eq : Eq Key
unfolding key_fields-injective
key_eq = eq_by key_fields key_fields-injective pair_eq

pub record Entry : Type 0 where
  pub failures : ℕ
  pub window_start : Time
  pub banned_until : Time

pub record Guard : Type 0 where
  pub options : Options
  pub entries : Dict Key Entry

abbrev default_if_not_positive : ℤ → ℤ → ℤ
default_if_not_positive x d = if leb_ℤ x (pos 0) then d else x

-- `New`
pub new_guard : Options → Guard
new_guard o = record {
  options = record o {
    max_failures = default_if_not_positive o.max_failures (pos 5);
    window = default_if_not_positive o.window (pos minute);
    ban_duration = default_if_not_positive o.ban_duration (pos (10 * minute));
    early_disconnect = default_if_not_positive o.early_disconnect (pos (5 * second));
  };
  entries = [];
}

unfoldable pub is_enabled : Option Guard → Bool
is_enabled none = false
is_enabled (some g) = g.options.enabled

unfoldable pub early_disconnect : Option Guard → Duration
early_disconnect none = pos 0
early_disconnect (some g) = g.options.early_disconnect

unfoldable pub normalize : (ℕ → ℕ) → Bytes → Bytes
normalize lower value = to_lower lower (trim_space value)

abbrev pub is_blank : Bytes → Bool
is_blank [] = true
is_blank (_ ∷ _) = false

-- The zero value of the map's element type, for a missing key.
abbrev pub entry_or_zero : Option Entry → Entry
entry_or_zero none = record { failures = 0; window_start = zero_time; banned_until = zero_time }
entry_or_zero (some item) = item

-- An entry after one more failure at `now`.
pub count_failure : Options → Entry → Time → Entry
count_failure o item now =
    let restart = is_zero item.window_start || ltb_ℤ o.window (sub now item.window_start) in
    let start = if restart then now else item.window_start in
    let count = (if restart then 0 else item.failures) + 1 in
    record {
      failures = count;
      window_start = start;
      banned_until =
          if leb_ℤ o.max_failures (pos count) then add now o.ban_duration else item.banned_until;
    }

pub is_active : Entry → Time → Bool
is_active item now = not (is_zero item.banned_until) && before now item.banned_until

module _ (lower : ℕ → ℕ) where
  abbrev pub key_of : Bytes → Bytes → Bytes → Key
  key_of route kind value = record { route = route; kind = kind; value = normalize lower value }

  -- The early return of the methods that need an enabled guard and a value.
  abbrev pub is_off : Guard → Bytes → Bool
  is_off g value = not g.options.enabled || is_blank (normalize lower value)

  check_entry : Guard → Key → Time → Option Entry → Bool × Guard
  check_entry g k now none = (false, g)
  check_entry g k now (some item) =
      if before now item.banned_until
      then (true, g)
      else (if not (is_zero item.banned_until)
          then (false, record g { entries = delete k g.entries })
          else (false, g))

  pub is_banned_on : Guard → Bytes → Bytes → Bytes → Time → Bool × Guard
  unfolding check_entry
  is_banned_on g route kind value now =
      let k = key_of route kind value in
      if is_off g value then (false, g) else check_entry g k now (lookup k g.entries)

  pub record_failure_on : Guard → Bytes → Bytes → Bytes → Time → Bool × Guard
  record_failure_on g route kind value now =
      let k = key_of route kind value in
      let item = count_failure g.options (entry_or_zero (lookup k g.entries)) now in
      if is_off g value
      then (false, g)
      else (is_active item now, record g { entries = insert k item g.entries })

  pub record_success_on : Guard → Bytes → Bytes → Bytes → Guard
  record_success_on g route kind value =
      if is_off g value
      then g
      else record g { entries = delete (key_of route kind value) g.entries }

  abbrev is_found : Option Entry → Bool
  is_found none = false
  is_found (some _) = true

  unfoldable pub unban_on : Guard → Bytes → Bytes → Bytes → Bool × Guard
  unban_on g route kind value =
      let k = key_of route kind value in
      if is_blank (normalize lower value)
      then (false, g)
      else (is_found (lookup k g.entries), record g { entries = delete k g.entries })

  -- The methods of a guard that may be nil.
  abbrev with_nil : Bool × Guard → Bool × Option Guard
  with_nil (b, g) = (b, some g)

  unfoldable pub is_banned : Option Guard → Bytes → Bytes → Bytes → Time → Bool × Option Guard
  is_banned none route kind value now = (false, none)
  is_banned (some g) route kind value now = with_nil (is_banned_on g route kind value now)

  unfoldable pub record_failure : Option Guard → Bytes → Bytes → Bytes → Time → Bool × Option Guard
  record_failure none route kind value now = (false, none)
  record_failure (some g) route kind value now = with_nil (record_failure_on g route kind value now)

  unfoldable pub record_success : Option Guard → Bytes → Bytes → Bytes → Option Guard
  record_success none route kind value = none
  record_success (some g) route kind value = some (record_success_on g route kind value)

  unfoldable pub unban : Option Guard → Bytes → Bytes → Bytes → Bool × Option Guard
  unban none route kind value = (false, none)
  unban (some g) route kind value = with_nil (unban_on g route kind value)

pub record Ban : Type 0 where
  pub route : Bytes
  pub kind : Bytes
  pub value : Bytes
  pub failures : ℕ
  pub banned_until : Time

abbrev pub ban_of : Key → Entry → Ban
ban_of k item = record {
  route = k.route;
  kind = k.kind;
  value = k.value;
  failures = item.failures;
  banned_until = item.banned_until;
}

-- The loop of `Snapshot`.
pub active_bans : Dict Key Entry → Time → List Ban
active_bans [] now = []
active_bans ((k, item) ∷ rest) now =
    let bans = active_bans rest now in
    if is_zero item.banned_until || not (before now item.banned_until)
    then bans
    else ban_of k item ∷ bans

pub snapshot : Option Guard → Time → List Ban
snapshot none now = []
snapshot (some g) now = active_bans g.entries now
