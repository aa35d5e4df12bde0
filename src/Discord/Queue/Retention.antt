-- ===== src/Discord/Queue/Retention.antt =====
-- Counting and pruning in internal/discord/queue.go.
use anvil_forge.Prelude.{
  All-map, All, List, Option-cases, [], arith, count_where-not, inl, inr, length, length-select,
  not, refl, select, true, ℕ, ◌+◌, ◌-◌, ◌∷◌, ◌≡◌, ◌≤◌,
}
use anvil_forge.Discord.Rows.{Row, Queue, ok, no_fault}
use anvil_forge.Discord.Queue.{
  count_where, Stats, stats, prune, is_stale, is_done, is_waiting, is_dead, is_failed,
  oldest_waiting, age,
}

count-partition :
    (rows : List Row)
    → count_where is_waiting rows
        + count_where is_dead rows
        + count_where is_failed rows
        + count_where is_done rows
      ≡ length rows
count-partition [] = refl
count-partition (r ∷ rows) = ground (arith, count-partition rows)

-- The counts of `Stats` and the delivered rows make up the whole table: every message is waiting,
-- dead, failed or delivered, and in one of these only.
stats-partition :
    (now : ℕ) (q : Queue)
    → (s : Stats) × (stats now no_fault q ≡ ok s)
      × (s.pending + s.dead + s.failed + count_where is_done q.rows ≡ length q.rows)
unfolding stats
stats-partition now q = (
  record {
    pending = count_where is_waiting q.rows;
    dead = count_where is_dead q.rows;
    failed = count_where is_failed q.rows;
    oldest = age now (oldest_waiting q.rows);
  },
  refl,
  count-partition q.rows,
)

oldest-grows :
    (now : ℕ) (r : Row) (rows : List Row)
    → (age now (oldest_waiting rows) ≤ age now (oldest_waiting (r ∷ rows)))
      × (is_waiting r ≡ true → now - r.created_at ≤ age now (oldest_waiting (r ∷ rows)))
unfolding oldest_waiting
oldest-grows now r rows = elim (Option-cases (oldest_waiting rows)) [
  | inl e ↦ rw e (ground arith, ground arith)
  | inr (t, e) ↦ rw e (ground arith, ground arith)
]

older-All :
    (now : ℕ) (rows : List Row)
    → All (λ r. is_waiting r ≡ true → now - r.created_at ≤ age now (oldest_waiting rows)) rows
older-All now [] = tt
older-All now (r ∷ rows) = (
  (oldest-grows now r rows).1,
  All-map (λ x h w. omega (arith, h w, (oldest-grows now r rows).0)) rows (older-All now rows),
)

-- No waiting message, pending or delivering, is older than the age that `Stats` reports.
stats-oldest :
    (now : ℕ) (q : Queue) (s : Stats)
    → stats now no_fault q ≡ ok s
    → All (λ r. is_waiting r ≡ true → now - r.created_at ≤ s.oldest) q.rows
unfolding stats
stats-oldest now q s e = All-map (λ r h w. ground (arith, h w)) q.rows (older-All now q.rows)

-- A prune deletes delivered rows only, as many as it reports.
pub prune-count :
    (now keep : ℕ) (q : Queue)
    → (n : ℕ) × ((prune now no_fault keep q).1 ≡ ok n)
      × (n + length (prune now no_fault keep q).0.rows ≡ length q.rows)
      × (n + count_where is_done (prune now no_fault keep q).0.rows ≡ count_where is_done q.rows)
unfolding prune
prune-count now keep q = (
  count_where (is_stale now keep) q.rows,
  refl,
  omega (
    arith,
    length-select (λ r. not (is_stale now keep r)) q.rows,
    count_where-not (is_stale now keep) q.rows,
  ),
  deleted now keep q.rows,
)
  where
    deleted :
        (now keep : ℕ) (rows : List Row)
        → count_where (is_stale now keep) rows
            + count_where is_done (select (λ r. not (is_stale now keep r)) rows)
          ≡ count_where is_done rows
    deleted now keep [] = refl
    deleted now keep (r ∷ rows) = ground (arith, deleted now keep rows)
