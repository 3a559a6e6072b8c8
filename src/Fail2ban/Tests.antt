-- ===== src/Fail2ban/Tests.antt =====
-- A guard of three failures a minute that bans for ten minutes, in seconds, and one address.
use ciallo.Common.{ℕ, Bytes, [], ◌∷◌, true, bytes_eq, pair_eq}
use ciallo.Common.Int.{pos}
use ciallo.Go.Strings.{lower_ascii}
use ciallo.Go.Text.{codes}
use ciallo.Fail2ban.{Key, key_eq, Entry, Guard}

abbrev no_table : ℕ → ℕ
no_table r = r

abbrev guard : Guard
guard = record {
  options = record {
    enabled = true;
    max_failures = pos 3;
    window = pos 60;
    ban_duration = pos 600;
    early_disconnect = pos 5;
  };
  entries = [];
}

abbrev route : Bytes
route = codes "mc"

abbrev kind : Bytes
kind = codes "ip"

abbrev value : Bytes
value = codes "A"

abbrev other : Key
other = record { route = codes "x"; kind = kind; value = value }

abbrev banned : Entry
banned = record { failures = 3; window_start = pos 1; banned_until = pos 640 }

abbrev banning : Guard
banning = record guard { entries = (other, banned) ∷ [] }
