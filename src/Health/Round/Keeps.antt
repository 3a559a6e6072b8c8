-- ===== src/Health/Round/Keeps.antt =====
-- What a round of internal/health/checker.go leaves as it is: the options, and the form of the table.
use ciallo.Common.{
  ◌≡◌, refl, sym, subst, ap, ◌∙◌, Bytes, List, [], ◌∷◌, true, if◌then◌else◌, Option, none, some,
  ◌==◌, bytes_eq, arith, Bool-cases, inl, inr,
}
use ciallo.Common.Dict.{Dict, lookup, insert, NodupKeys, insert-NodupKeys, lookup-cons, lookup-nil}
use ciallo.Go.Errors.{Error}
use ciallo.Go.Time.{Time}
use ciallo.Health.{Options, BackendTarget, Entry, Checker, entry_or_new, fail_entry, succeed_entry}
use ciallo.Health.Round.{record_result, sorted_targets, check_targets, check_once}
use ciallo.Health.Round.Laws.{IsKeyed, entry_result, record_result-insert, enabled_lem}

-- The table is a map, and each entry stands under its backend's address.
abbrev pub IsWhole : Checker → Type 0
IsWhole c = NodupKeys c.entries × IsKeyed c.entries

pub insert-IsKeyed :
    (k : Bytes) (e : Entry) (m : Dict Bytes Entry)
    → k ≡ e.target.backend.addr
    → IsKeyed m
    → IsKeyed (insert k e m)
unfolding insert IsKeyed
insert-IsKeyed k e [] same h = (same, tt)
insert-IsKeyed k e ((j, f) ∷ m) same (here, h) = ground (arith, insert-IsKeyed k e m same h)

lookup-IsKeyed :
    (k : Bytes) (m : Dict Bytes Entry) (found : Option Entry)
    → lookup k m ≡ found
    → IsKeyed m
    → k ≡ (entry_or_new k found).target.backend.addr
unfolding IsKeyed
lookup-IsKeyed k m none e h = refl
lookup-IsKeyed k [] (some x) e h =
    let nothing : none ≡ some x = sym (lookup-nil {V = Entry} k) ∙ e in cc
lookup-IsKeyed k ((j, f) ∷ m) (some x) e (here, h) =
    let found : (if k == j then some f else lookup k m) ≡ some x = sym (lookup-cons k j f m) ∙ e in
    elim (Bool-cases (k == j)) [
      | inl same ↦
          let k_is_j : k ≡ j = ground arith in
          let same_entry : x ≡ f = let got = rw same at found in cc in rw (k_is_j, same_entry) here
      | inr other ↦ lookup-IsKeyed k m (some x) (rw other at found) h
    ]

pub entry_result-target :
    (o : Options) (e : Entry) (result : Option Error) (times : Time × Time)
    → (entry_result o e result times).target ≡ e.target
unfolding succeed_entry fail_entry
entry_result-target o e none (now, now') = refl
entry_result-target o e (some failure) (now, now') = refl

-- A record of an outcome keeps the options and the form of the table.
record_result-IsWhole :
    (c : Checker) (a : Bytes) (result : Option Error) (times : Time × Time)
    → c.options.enabled ≡ true
    → IsWhole c
    → IsWhole (record_result c a result times)
record_result-IsWhole c a result times on (unique, keyed) =
    let old : Entry = entry_or_new a (lookup a c.entries) in
    let new = entry_result c.options old result times in
    rw (record_result-insert c a result times on) (
      insert-NodupKeys a new c.entries unique,
      insert-IsKeyed a new c.entries
          (lookup-IsKeyed a c.entries (lookup a c.entries) refl keyed
            ∙ ap (λ (t : BackendTarget). t.backend.addr)
                (sym (entry_result-target c.options old result times)))
          keyed,
    )

-- A checker that keeps these.
abbrev pub Keeps : Checker → Checker → Type 0
Keeps c d = (d.options ≡ c.options) × IsWhole d

check_targets-Keeps :
    (check : BackendTarget → Option Error) (clock : BackendTarget → Time × Time) (c : Checker)
    (ts : List BackendTarget)
    → c.options.enabled ≡ true
    → IsWhole c
    → Keeps c (check_targets check clock c ts)
unfolding check_targets
check_targets-Keeps check clock c [] on w = (refl, w)
check_targets-Keeps check clock c (t ∷ ts) on w =
    let a : Bytes = t.backend.addr in
    let same : (record_result c a (check t) (clock t)).options ≡ c.options =
      ap (λ (d : Checker). d.options) (record_result-insert c a (check t) (clock t) on) in
    let (options, whole) =
      check_targets-Keeps check clock (record_result c a (check t) (clock t)) ts (rw same on)
        (record_result-IsWhole c a (check t) (clock t) on w) in
    (options ∙ same, whole)

pub check_once-Keeps :
    (check : BackendTarget → Option Error) (clock : BackendTarget → Time × Time) (c : Checker)
    → c.options.enabled ≡ true
    → IsWhole c
    → Keeps c (check_once check clock c)
unfolding check_once
check_once-Keeps check clock c on w =
    subst (λ (d : Checker). Keeps c d)
      (sym (enabled_lem c (check_targets check clock c (sorted_targets c.entries)) on))
      (check_targets-Keeps check clock c (sorted_targets c.entries) on w)
