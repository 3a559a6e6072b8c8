-- ===== src/Health/Run/Fresh.antt =====
-- The entries that `New` of internal/health/checker.go makes.
use ciallo.Common.{
  ◌≡◌, refl, Bytes, List, [], ◌∷◌, Bool, true, false, ◌==◌, if◌then◌else◌, Option, none, some,
  bytes_eq, Bool-cases, inl, inr, sym, ◌∙◌,
}
use ciallo.Common.Dict.{
  Dict, lookup, insert, lookup-insert, lookup-nil, NodupKeys, insert-NodupKeys,
}
use ciallo.Go.Defaults.{is_blank}
use ciallo.Health.{
  Options, BackendTarget, Entry, new_entry, insert_if_new, add_targets, new_checker, with_default,
}
use ciallo.Health.Round.Laws.{IsKeyed}
use ciallo.Health.Round.Keeps.{IsWhole, insert-IsKeyed}

-- Nothing has been counted for an entry.
abbrev pub IsFresh : Entry → Type 0
IsFresh e = (e.healthy ≡ true) × (e.consecutive_fails ≡ 0) × (e.consecutive_oks ≡ 0)

-- A whole table of such entries.
record IsNew (m : Dict Bytes Entry) : Type 0 where
  distinct : NodupKeys m
  keyed : IsKeyed m
  fresh : (k : Bytes) (e : Entry) → lookup k m ≡ some e → IsFresh e

insert-IsNew :
    (t : BackendTarget) (m : Dict Bytes Entry)
    → IsNew m
    → IsNew (insert t.backend.addr (new_entry t) m)
insert-IsNew t m s = record {
  distinct = insert-NodupKeys t.backend.addr (new_entry t) m s.distinct;
  keyed = insert-IsKeyed t.backend.addr (new_entry t) m refl s.keyed;
  fresh = λ k e found.
      let split = sym (lookup-insert k t.backend.addr (new_entry t) m) ∙ found in
      elim (Bool-cases (k == t.backend.addr)) [
        | inl same ↦
            let made : new_entry t ≡ e = let here = rw same at split in cc in
            rw⁻¹ made (refl, refl, refl)
        | inr other ↦ s.fresh k e (rw other at split)
      ];
}

insert_if_new-IsNew :
    (t : BackendTarget) (m : Dict Bytes Entry)
    → IsNew m
    → IsNew (insert_if_new t.backend.addr (new_entry t) m)
insert_if_new-IsNew t m s = go (lookup t.backend.addr m)
  where
    go :
        (found : Option Entry)
        → IsNew (elim found [ none ↦ insert t.backend.addr (new_entry t) m | some _ ↦ m ])
    go none = insert-IsNew t m s
    go (some _) = s

if-IsNew : (b : Bool) (m n : Dict Bytes Entry) → IsNew m → IsNew n → IsNew (if b then m else n)
if-IsNew true m n h k = h
if-IsNew false m n h k = k

add_targets-IsNew :
    (o : Options) (ts : List BackendTarget) (m : Dict Bytes Entry)
    → IsNew m
    → IsNew (add_targets o ts m)
unfolding add_targets
add_targets-IsNew o [] m s = s
add_targets-IsNew o (t ∷ ts) m s = add_targets-IsNew o ts _ (
    if-IsNew (is_blank t.backend.addr) m _ s
      (insert_if_new-IsNew (record t { probe_host = _ }) m s))

new_checker-IsNew :
    (o : Options) (targets : List BackendTarget) → IsNew (new_checker o targets).entries
unfolding new_checker IsKeyed
new_checker-IsNew o targets = add_targets-IsNew (with_default o) targets [] record {
  distinct = tt;
  keyed = tt;
  fresh = λ k e found. let bad : none ≡ some e = sym (lookup-nil {V = Entry} k) ∙ found in cc;
}

pub new_checker-IsWhole :
    (o : Options) (targets : List BackendTarget) → IsWhole (new_checker o targets)
new_checker-IsWhole o targets = let s = new_checker-IsNew o targets in (s.distinct, s.keyed)

pub new_checker-IsFresh :
    (o : Options) (targets : List BackendTarget) (k : Bytes) (e : Entry)
    → lookup k (new_checker o targets).entries ≡ some e
    → IsFresh e
new_checker-IsFresh o targets k e found = let s = new_checker-IsNew o targets in s.fresh k e found
