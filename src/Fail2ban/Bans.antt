-- ===== src/Fail2ban/Bans.antt =====
-- `Snapshot` of internal/fail2ban/guard.go, and the end of a ban.
use ciallo.Common.{
  ℕ, ◌≡◌, refl, Bytes, List, [], ◌∷◌, Bool, true, false, if◌then◌else◌, Option, none, some, arith,
  ◌==◌, ite, if_pos, if_neg,
}
use ciallo.Common.Dict.{Dict, lookup, delete, NodupKeys}
use ciallo.Go.Time.{Time, is_zero, before}
use ciallo.Fail2ban.{
  Key, key_eq, Entry, Guard, Ban, ban_of, is_active, active_bans, snapshot, key_of, is_off,
  is_banned_on, check_entry,
}

abbrev pub key_of_ban : Ban → Key
key_of_ban b = record { route = b.route; kind = b.kind; value = b.value }

-- The first ban of a key in a list.
pub find_ban : Key → List Ban → Option Ban
find_ban k [] = none
find_ban k (b ∷ bs) = if k == key_of_ban b then some b else find_ban k bs

-- What the snapshot should say of a key.
abbrev pub active_ban : Key → Time → Option Entry → Option Ban
active_ban k now none = none
active_ban k now (some item) = if is_active item now then some (ban_of k item) else none

if-ite {ℓ κ} :
    {P : Type ℓ} {A : Type κ} (d : Dec P) (x y : A)
    → (if ite d true false then x else y) ≡ ite d x y
if-ite (yes p) x y = refl
if-ite (no n) x y = refl

if_same {ℓ} : {A : Type ℓ} (b : Bool) (x : A) → (if b then x else x) ≡ x
if_same true x = refl
if_same false x = refl

find_ban-cons :
    (k j : Key) (item : Entry) (bs : List Ban)
    → find_ban k (ban_of j item ∷ bs) ≡ ite (key_eq.dec k j) (some (ban_of j item)) (find_ban k bs)
unfolding find_ban
find_ban-cons k j item bs = if-ite (key_eq.dec k j) (some (ban_of j item)) (find_ban k bs)

find_active-cons :
    (k j : Key) (item : Entry) (rest : Dict Key Entry) (now : Time)
    → find_ban k (active_bans ((j, item) ∷ rest) now) ≡ (
        if is_active item now
        then ite (key_eq.dec k j) (some (ban_of j item)) (find_ban k (active_bans rest now))
        else find_ban k (active_bans rest now))
unfolding active_bans is_active
find_active-cons k j item rest now = ground (arith, find_ban-cons k j item (active_bans rest now))

lookup-head :
    (k j : Key) (item : Entry) (rest : Dict Key Entry)
    → lookup k ((j, item) ∷ rest) ≡ ite (key_eq.dec k j) (some item) (lookup k rest)
unfolding lookup
lookup-head k j item rest = if-ite (key_eq.dec k j) (some item) (lookup k rest)

find_ban-active :
    (k : Key) (entries : Dict Key Entry) (now : Time)
    → NodupKeys entries
    → find_ban k (active_bans entries now) ≡ active_ban k now (lookup k entries)
find_ban-active k [] now h = unfold find_ban active_bans lookup in refl
find_ban-active k ((j, item) ∷ rest) now (fresh, h) =
    let ih = find_ban-active k rest now h in
    rw (find_active-cons, lookup-head)
      (elim (key_eq.dec k j) [
        | yes p ↦
            let gone : lookup k rest ≡ none = rw p fresh in rw (if_pos _ p, if_pos _ p, ih, gone, p)
        | no n ↦
            rw (if_neg _ n, if_neg _ n, ih)
              (if_same (is_active item now) (active_ban k now (lookup k rest)))
      ])

-- `Snapshot` lists for each key the ban of its entry, with the entry's failures and end, if the ban is not over,
-- and nothing else.
pub snapshot-active :
    (g : Guard) (k : Key) (now : Time)
    → NodupKeys g.entries
    → find_ban k (snapshot (some g) now) ≡ active_ban k now (lookup k g.entries)
unfolding snapshot
snapshot-active g k now h = find_ban-active k g.entries now h

-- The life of a ban: while it runs the key is banned and nothing changes; from its end on the key
-- is free, and the check itself removes the entry, with its count.
pub ban_ends :
    (lower : ℕ → ℕ) (g : Guard) (route kind value : Bytes) (item : Entry) (now : Time)
    → is_off lower g value ≡ false
    → lookup (key_of lower route kind value) g.entries ≡ some item
    → is_zero item.banned_until ≡ false
    → is_banned_on lower g route kind value now ≡ (
        if before now item.banned_until
        then (true, g)
        else (false, record g { entries = delete (key_of lower route kind value) g.entries }))
unfolding is_banned_on check_entry
ban_ends lower g route kind value item now on found held = rw (on, found) (ground arith)
