-- ===== src/Sweep/Run/Pace.antt =====
-- internal/sweep/runner.go: when `Run` goes straight to the next tick, and when it waits.
use anvil_forge.Prelude.{
  Bool, List, [], ap, arith, count_where, count_where-not, length, length-map, map, none, pos, refl,
  sym, ℕ, ◌+◌, ◌↔◌, ◌∙◌, ◌∷◌, ◌≡◌, ◌≤◌,
}
use anvil_forge.Store.{
  Fetch, Store, Request, no_fault, ok, claim, claim_rows, is_due, is_jump, jump_share, to_request,
}
use anvil_forge.Store.Selection.{due_jumps, due_rest}
use anvil_forge.Store.Lanes.{HasKeys, claim-lanes}
use anvil_forge.Sweep.Run.{waiting, after_tick}

due-split :
    (now lease : ℕ) (locked : ℕ → Bool) (t : List Fetch)
    → count_where (is_due now lease locked) t
      ≡ due_jumps now lease locked t + due_rest now lease locked t
due-split now lease locked [] = refl
due-split now lease locked (f ∷ t) = ground (arith, due-split now lease locked t)

-- A claim of at least one row returns some exactly if some is due.
claims-some :
    (now lease limit : ℕ) (locked : ℕ → Bool) (t : List Fetch)
    → HasKeys t
    → 1 ≤ limit
    → (length (claim_rows now lease locked limit (jump_share (pos limit)) t).1 ≡ 0)
      ↔ (count_where (is_due now lease locked) t ≡ 0)
unfolding jump_share
claims-some now lease limit locked t u n =
    let rows = (claim_rows now lease locked limit (jump_share (pos limit)) t).1 in
    let (jumps, rest, order) = claim-lanes now lease locked limit t u in
    ground (arith, jumps, rest, count_where-not is_jump rows, due-split now lease locked t)

length-claim :
    (now lease limit : ℕ) (locked : ℕ → Bool) (s : Store) (claims : List Request)
    → (claim now locked no_fault (pos limit) lease s).1 ≡ ok claims
    → length claims
      ≡ length (claim_rows now lease locked limit (jump_share (pos limit)) s.fetches).1
unfolding claim
length-claim now lease limit locked s claims e =
    let rows = (claim_rows now lease locked limit (jump_share (pos limit)) s.fetches).1 in
    let given : map to_request rows ≡ claims = cc in
    ap length (sym given) ∙ length-map to_request rows

-- With a batch of at least one, on a table whose ids are distinct, and after a tick that was not
-- cancelled and whose claim did not fail, Run waits exactly if no fetch was due at the claim; else it
-- goes on to the next tick at once.
pub claim-waiting_iff :
    (now lease batch : ℕ) (locked : ℕ → Bool) (s : Store) (claims : List Request)
    → HasKeys s.fetches
    → 1 ≤ batch
    → (claim now locked no_fault (pos batch) lease s).1 ≡ ok claims
    → (after_tick (length claims) none ≡ waiting)
      ↔ (count_where (is_due now lease locked) s.fetches ≡ 0)
claim-waiting_iff now lease batch locked s claims u n e = ground (
  arith,
  length-claim now lease batch locked s claims e,
  claims-some now lease batch locked s.fetches u n,
)
