-- ===== src/Discord/Worker/Run/Housekeeping.antt =====
-- internal/discord/worker.go: the housekeeping in the middle of a drain.
use anvil_forge.Prelude.{Text, refl, ℕ}
use anvil_forge.Discord.Sender.{Codec}
use anvil_forge.Discord.Rows.{Outside, Fault}
use anvil_forge.Discord.Queue.Steps.{pruned}
use anvil_forge.Discord.Worker.{Drain, Reach, here, then_turn, others, evicts}
use anvil_forge.Discord.Worker.Run.{Worker, Process, idling, housekeep}

-- What the housekeeping sees and changes of a drain.
abbrev pub process_of : {Limit : Type 0} → Drain Limit → Process Limit
process_of t = record { queue = t.queue; limiter = t.limiter; phase = idling }

-- A round of the housekeeping in a drain is two turns of the drain.
pub housekeep-Reach :
    {Limit : Type 0} (c : Codec) (format : ℕ → Text) (outside : Outside) (w : Worker)
    (t : Drain Limit) (now : ℕ) (pruning reading : Fault)
    → Reach c format outside Unit t (record t {
      queue = (housekeep now pruning reading w (process_of t)).0.queue;
      limiter = (housekeep now pruning reading w (process_of t)).0.limiter;
    })
unfolding housekeep
housekeep-Reach c format outside w t now pruning reading =
    then_turn _ _ _ (then_turn _ _ _ (here t) (evicts t now tt))
      (others _ _ (pruned now pruning w.keep_delivered refl))
