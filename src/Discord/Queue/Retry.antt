-- ===== src/Discord/Queue/Retry.antt =====
-- When a delivery that internal/discord/queue.go has put back is handed out again.
use anvil_forge.Prelude.{
  subst, ==_refl, Bool, Member, Member-update_where, Text, ap, arith, if◌then◌else◌, is_positive,
  leb, ltb, not, to_ℕ, update_where, ℕ, ◌&&◌, ◌+◌, ◌==◌, ◌≡◌,
}
use anvil_forge.Discord.Sender.{Result, retry, max_attempts, backoff}
use anvil_forge.Discord.Rows.{Row, Queue, delivering, no_fault}
use anvil_forge.Discord.Queue.{complete, settle, to_delivery, is_due}
use anvil_forge.Discord.Queue.Steps.{IsValid}

-- Discord's own wait where it asks for one, the schedule elsewhere.
abbrev pub wait : Result → ℕ → ℕ
wait res attempts = if is_positive res.retry_after then to_ℕ res.retry_after else backoff attempts

-- In a valid queue, completing a delivering row with the verdict to retry leaves it in the table so
-- that a claim may choose it exactly from the end of the wait on, where no lock is in the way, if
-- this was not the sixth attempt, and never again if it was. The wait is the one that Discord asked
-- for, or that of the schedule.
pub complete-is_due :
    (format : ℕ → Text) (now : ℕ) (r : Row) (res : Result) (q : Queue)
    → IsValid q
    → Member r q.rows
    → r.status ≡ delivering
    → res.verdict ≡ retry
    → (r' : Row) × Member r' (complete format now no_fault (to_delivery r) res q).0.rows
      × (r'.id ≡ r.id)
      × ((later : ℕ) (locked : ℕ → Bool)
          → is_due later locked r' ≡ (
              ltb r.attempts max_attempts
              && (leb (now + wait res r.attempts) later && not (locked r.id))))
unfolding complete
complete-is_due format now r res q v m h e = (
  settle now (to_delivery r) res r,
  subst (λ x. Member x (update_where (λ x. x.id == r.id) (settle now (to_delivery r) res) q.rows))
      (ap (λ b. if b then settle now (to_delivery r) res r else r) (==_refl r.id))
      (Member-update_where (λ x. x.id == r.id) (settle now (to_delivery r) res) q.rows r m),
  unfold settle in ground arith,
  λ later locked. unfold settle in ground arith,
)
