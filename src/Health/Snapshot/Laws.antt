-- ===== src/Health/Snapshot/Laws.antt =====
-- The numbers of a snapshot of internal/health/checker.go against its list and the entries.
use ciallo.Common.{
  ℕ, ◌+◌, ◌≡◌, refl, sym, ◌∙◌, Bytes, List, [], ◌∷◌, Bool, true, false, not, some, arith,
  Bool-cases, inl, inr,
}
use ciallo.Common.Dict.{Dict}
use ciallo.Common.Sort.{
  bytes_less-asymmetric, sort_by, sum_of, sum_of-sort_by, IsSorted, sort_by-IsSorted,
}
use ciallo.Go.Time.{Time}
use ciallo.Health.{Entry, Checker}
use ciallo.Health.Snapshot.{
  BackendStatus, status_locked, Snapshot, is_well, add_status, empty_snapshot, status_less,
  add_statuses, snapshot_on, snapshot,
}

abbrev pub ones : {A : Type 0} → A → ℕ
ones x = 1

abbrev pub one_if : Bool → ℕ
one_if true = 1
one_if false = 0

abbrev pub well : BackendStatus → ℕ
well s = one_if (is_well s)

abbrev pub unwell : BackendStatus → ℕ
unwell s = one_if (not (is_well s))

-- The numbers are the sums over the list.
pub record IsTallied (s : Snapshot) : Type 0 where
  pub total : s.total ≡ sum_of ones s.backends
  pub healthy : s.healthy ≡ sum_of well s.backends
  pub unhealthy : s.unhealthy ≡ sum_of unwell s.backends

add_status-IsTallied :
    (s : Snapshot) (status : BackendStatus) → IsTallied s → IsTallied (add_status s status)
unfolding sum_of
add_status-IsTallied s status t = elim (Bool-cases (is_well status)) [
  | inl w ↦ record {
    total = omega (arith, t.total);
    healthy = rw w (omega (arith, t.healthy));
    unhealthy = rw w (omega (arith, t.unhealthy));
  }
  | inr u ↦ record {
    total = omega (arith, t.total);
    healthy = rw u (omega (arith, t.healthy));
    unhealthy = rw u (omega (arith, t.unhealthy));
  }
]

nothing_more : (f : BackendStatus → ℕ) (n : ℕ) → n + sum_of f [] ≡ n
unfolding sum_of
nothing_more f n = omega arith

module _ (clock : Bytes → Time) where
  -- What the snapshot says of an entry, and how many entries a measure finds.
  abbrev pub seen : Entry → BackendStatus
  seen e = status_locked e (clock e.target.backend.addr)

  pub entries_total : (BackendStatus → ℕ) → Dict Bytes Entry → ℕ
  entries_total f [] = 0
  entries_total f ((_, e) ∷ m) = f (seen e) + entries_total f m

  add_statuses-IsTallied :
      (m : Dict Bytes Entry) (s : Snapshot) → IsTallied s → IsTallied (add_statuses clock m s)
  unfolding add_statuses
  add_statuses-IsTallied [] s t = t
  add_statuses-IsTallied ((_, e) ∷ m) s t =
      add_statuses-IsTallied m (add_status s (seen e)) (add_status-IsTallied s (seen e) t)

  sum_of-add_statuses :
      (f : BackendStatus → ℕ) (m : Dict Bytes Entry) (s : Snapshot)
      → sum_of f (add_statuses clock m s).backends ≡ entries_total f m + sum_of f s.backends
  unfolding add_statuses entries_total sum_of
  sum_of-add_statuses f [] s = omega arith
  sum_of-add_statuses f ((_, e) ∷ m) s =
      omega (arith, sum_of-add_statuses f m (add_status s (seen e)))

  empty-IsTallied : (b : Bool) → IsTallied (empty_snapshot b)
  unfolding sum_of
  empty-IsTallied b = record { total = refl; healthy = refl; unhealthy = refl }

  sorted-IsTallied :
      (s : Snapshot)
      → IsTallied s
      → IsTallied (record s { backends = sort_by status_less s.backends })
  sorted-IsTallied s t = record {
    total = t.total ∙ sym (sum_of-sort_by status_less ones s.backends);
    healthy = t.healthy ∙ sym (sum_of-sort_by status_less well s.backends);
    unhealthy = t.unhealthy ∙ sym (sum_of-sort_by status_less unwell s.backends);
  }

  parts_add_up : (ss : List BackendStatus) → sum_of well ss + sum_of unwell ss ≡ sum_of ones ss
  unfolding sum_of
  parts_add_up [] = refl
  parts_add_up (s ∷ ss) =
      let rest = parts_add_up ss in
      elim (Bool-cases (is_well s)) [
        | inl w ↦ rw w (omega (arith, rest))
        | inr u ↦ rw u (omega (arith, rest))
      ]

  -- The list of a snapshot has the status of each entry, as often as there are such entries (a
  -- measure sums to the same on both); it is in the order of the addresses; and the three numbers
  -- count the backends of the list, those that are well, and those that are not.
  pub snapshot-Tallies :
      (c : Checker) (f : BackendStatus → ℕ)
      → let s = snapshot clock (some c) in
        IsTallied s
        × IsSorted status_less s.backends
        × (sum_of f s.backends ≡ entries_total f c.entries)
        × (s.healthy + s.unhealthy ≡ s.total)
  unfolding snapshot snapshot_on
  snapshot-Tallies c f =
      let start = empty_snapshot c.options.enabled in
      let s = add_statuses clock c.entries start in
      let tallied =
        sorted-IsTallied s
          (add_statuses-IsTallied c.entries start (empty-IsTallied c.options.enabled)) in
      let sorted = sort_by status_less s.backends in
      let listed : sum_of f sorted ≡ entries_total f c.entries =
        sum_of-sort_by status_less f s.backends
        ∙ sum_of-add_statuses f c.entries start
        ∙ nothing_more f (entries_total f c.entries) in
      (
        tallied,
        sort_by-IsSorted status_less (λ a b. bytes_less-asymmetric a.backend b.backend) s.backends,
        listed,
        omega (arith, tallied.total, tallied.healthy, tallied.unhealthy, parts_add_up sorted),
      )
