-- ===== src/Health/Round/Laws.antt =====
-- The entries of internal/health/checker.go before and after a round.
use ciallo.Common.{
  ◌≡◌, refl, sym, ap, ◌∙◌, Bytes, List, [], ◌∷◌, Bool, true, false, if◌then◌else◌, Option, none,
  some, ◌==◌, nat_eq, bytes_eq, arith, Bool-cases, ==-refl, inl, inr,
}
use ciallo.Common.Dict.{Dict, lookup, insert, NodupKeys, lookup-insert, lookup-cons, lookup-nil}
use ciallo.Common.Sort.{bytes_less}
use ciallo.Go.Errors.{Error}
use ciallo.Go.Time.{Time}
use ciallo.Health.{
  Options, BackendTarget, Entry, Checker, entry_or_new, fail_entry, succeed_entry, record_failure,
  record_success,
}
use ciallo.Health.Round.{insert_target, sorted_targets, record_result, check_targets, check_once}

-- The target of an address in a list.
pub find_target : Bytes → List BackendTarget → Option BackendTarget
find_target k [] = none
find_target k (t ∷ ts) = let rest = find_target k ts in if k == t.backend.addr then some t else rest

abbrev Distinct : List BackendTarget → Type 0
Distinct [] = Unit
Distinct (t ∷ ts) = (find_target t.backend.addr ts ≡ none) × Distinct ts

-- Every entry stands under the address of its backend.
unfoldable pub IsKeyed : Dict Bytes Entry → Type 0
IsKeyed [] = Unit
IsKeyed ((k, e) ∷ m) = (k ≡ e.target.backend.addr) × IsKeyed m

absent_cons :
    (k : Bytes) (u : BackendTarget) (us : List BackendTarget)
    → find_target k (u ∷ us) ≡ none
    → ((k == u.backend.addr) ≡ false) × (find_target k us ≡ none)
unfolding find_target
absent_cons k u us h = elim (Bool-cases (k == u.backend.addr)) [
  | inl same ↦ let found = rw same at h in cc
  | inr other ↦ (other, rw other at h)
]

find-insert_target :
    (k : Bytes) (t : BackendTarget) (ts : List BackendTarget)
    → find_target t.backend.addr ts ≡ none
    → find_target k (insert_target t ts)
      ≡ (if k == t.backend.addr then some t else find_target k ts)
unfolding find_target insert_target
find-insert_target k t [] h = refl
find-insert_target k t (u ∷ us) h =
    let (differ, rest) = absent_cons t.backend.addr u us h in
    let ih = find-insert_target k t us rest in
    elim (Bool-cases (k == u.backend.addr)) [
      | inl same ↦
          let k_is_u : k ≡ u.backend.addr = ground arith in
          let not_t : (k == t.backend.addr) ≡ false = ground arith in
          rw (same, not_t) (ground arith)
      | inr other ↦ rw other (ground arith)
    ]

insert_target-Distinct :
    (t : BackendTarget) (ts : List BackendTarget)
    → find_target t.backend.addr ts ≡ none
    → Distinct ts
    → Distinct (insert_target t ts)
unfolding find_target insert_target
insert_target-Distinct t [] h d = (h, tt)
insert_target-Distinct t (u ∷ us) h (fresh, d) =
    let (differ, rest) = absent_cons t.backend.addr u us h in
    let ih = insert_target-Distinct t us rest d in
    let found = find-insert_target u.backend.addr t us rest in
    elim (Bool-cases (bytes_less u.backend.addr t.backend.addr)) [
      | inl less ↦ rw less (ground arith, ih)
      | inr not_less ↦ rw not_less (h, (fresh, d))
    ]

abbrev target_of : Option Entry → Option BackendTarget
target_of none = none
target_of (some e) = some e.target

-- The sorted targets are those of the entries, and each address stands once.
abbrev Lists : Dict Bytes Entry → Type 0
Lists m =
    ((k : Bytes) → find_target k (sorted_targets m) ≡ target_of (lookup k m))
    × Distinct (sorted_targets m)

target_of-lookup-cons :
    (k a : Bytes) (e : Entry) (m : Dict Bytes Entry)
    → target_of (lookup k ((a, e) ∷ m)) ≡ (if k == a then some e.target else target_of (lookup k m))
target_of-lookup-cons k a e m =
    rw (lookup-cons k a e m) (elim (Bool-cases (k == a)) [ inl t ↦ rw t refl | inr f ↦ rw f refl ])

sorted_targets-Lists : (m : Dict Bytes Entry) → NodupKeys m → IsKeyed m → Lists m
unfolding sorted_targets IsKeyed find_target
sorted_targets-Lists [] u h = (λ k. rw (lookup-nil k) refl, tt)
sorted_targets-Lists ((a, e) ∷ m) (fresh, u) (here, h) =
    let (found, distinct) = sorted_targets-Lists m u h in
    let absent : find_target e.target.backend.addr (sorted_targets m) ≡ none =
      found e.target.backend.addr
      ∙ ap (λ (k : Bytes). target_of (lookup k m)) (sym here)
      ∙ ap (λ (o : Option Entry). target_of o) fresh in
    (
      λ k.
          find-insert_target k e.target (sorted_targets m) absent
          ∙ ap
              (λ (o : Option BackendTarget).
                if k == e.target.backend.addr then some e.target else o)
              (found k)
          ∙ ap (λ (b : Bytes). if k == b then some e.target else target_of (lookup k m)) (sym here)
          ∙ sym (target_of-lookup-cons k a e m),
      insert_target-Distinct e.target (sorted_targets m) absent distinct,
    )

pub enabled_lem :
    (c d : Checker) → c.options.enabled ≡ true → (if c.options.enabled then d else c) ≡ d
enabled_lem c d on = ap (λ (b : Bool). if b then d else c) on

-- What the record of an outcome makes of an entry.
abbrev pub entry_result : Options → Entry → Option Error → Time × Time → Entry
entry_result o e none (now, _) = succeed_entry o e now
entry_result o e (some failure) (now, now') = fail_entry o e (some failure) now now'

pub record_result-insert :
    (c : Checker) (a : Bytes) (result : Option Error) (times : Time × Time)
    → c.options.enabled ≡ true
    → record_result c a result times ≡ record c {
      entries =
          insert a
            (entry_result c.options (entry_or_new a (lookup a c.entries)) result times)
            c.entries;
    }
unfolding record_failure record_success
record_result-insert c a none (now, now') on =
    let old = entry_or_new a (lookup a c.entries) in
    enabled_lem c (record c { entries = insert a (succeed_entry c.options old now) c.entries }) on
record_result-insert c a (some failure) (now, now') on =
    let old = entry_or_new a (lookup a c.entries) in
    enabled_lem c
      (record c { entries = insert a (fail_entry c.options old (some failure) now now') c.entries })
      on

module _ (check : BackendTarget → Option Error) (clock : BackendTarget → Time × Time) where
  -- What a round makes of an entry, by the outcome of the check of a target.
  abbrev pub outcome : Options → BackendTarget → Entry → Entry
  outcome o t e = entry_result o e (check t) (clock t)

  abbrev checked : Checker → Bytes → Option BackendTarget → Option Entry
  checked c k none = lookup k c.entries
  checked c k (some t) = some (outcome c.options t (entry_or_new k (lookup k c.entries)))

  checked_found :
      (c : Checker) (k : Bytes) (found : Option Entry)
      → lookup k c.entries ≡ found
      → checked c k (target_of found)
        ≡ elim found [ none ↦ none | some e ↦ some (outcome c.options e.target e) ]
  checked_found c k none e = e
  checked_found c k (some x) e = rw e refl

  checked_other :
      (c d : Checker) (k : Bytes) (found : Option BackendTarget)
      → lookup k d.entries ≡ lookup k c.entries
      → d.options ≡ c.options
      → checked d k found ≡ checked c k found
  checked_other c d k none same options = same
  checked_other c d k (some t) same options = rw (same, options) refl

  check_targets-checked :
      (c : Checker) (ts : List BackendTarget) (k : Bytes)
      → c.options.enabled ≡ true
      → Distinct ts
      → lookup k (check_targets check clock c ts).entries ≡ checked c k (find_target k ts)
  unfolding check_targets find_target
  check_targets-checked c [] k on d = refl
  check_targets-checked c (t ∷ ts) k on (fresh, d) =
      let a : Bytes = t.backend.addr in
      let new : Entry = outcome c.options t (entry_or_new a (lookup a c.entries)) in
      let c1 : Checker = record c { entries = insert a new c.entries } in
      let step =
        ap (λ (x : Checker). lookup k (check_targets check clock x ts).entries)
          (record_result-insert c a (check t) (clock t) on)
        ∙ check_targets-checked c1 ts k on d in
      elim (Bool-cases (k == a)) [
        | inl same ↦
            let k_is_a : k ≡ a = ground arith in
            step ∙ rw (same, k_is_a, fresh, lookup-insert a a new c.entries, ==-refl a) refl
        | inr other ↦
            step
            ∙ rw other (
                checked_other c c1 k (find_target k ts)
                  (lookup-insert k a new c.entries ∙ rw other refl) refl)
      ]

  -- A round checks every backend exactly once: after `CheckOnce` on an enabled checker the entry of each
  -- backend is what the record of its own target's outcome makes of its entry before, and there are
  -- no other entries.
  pub check_once-outcomes :
      (c : Checker) (k : Bytes)
      → c.options.enabled ≡ true
      → NodupKeys c.entries
      → IsKeyed c.entries
      → lookup k (check_once check clock c).entries
        ≡ elim (lookup k c.entries) [ none ↦ none | some e ↦ some (outcome c.options e.target e) ]
  unfolding check_once
  check_once-outcomes c k on unique keyed =
      let (found, distinct) = sorted_targets-Lists c.entries unique keyed in
      let start : (check_once check clock c)
          ≡ check_targets check clock c (sorted_targets c.entries) =
        enabled_lem c (check_targets check clock c (sorted_targets c.entries)) on in
      ap (λ (x : Checker). lookup k x.entries) start
      ∙ check_targets-checked c (sorted_targets c.entries) k on distinct
      ∙ ap (λ (o : Option BackendTarget). checked c k o) (found k)
      ∙ checked_found c k (lookup k c.entries) refl
