-- ===== src/Cmd/Report.antt =====
-- cmd/forge/main.go: the reports of the edge's counters, against a server that never reports.
use anvil_forge.Prelude.{
  ==_iff, Bool, List, Option, Text, [], ap, arith, false, if◌then◌else◌, none, refl, some, sym,
  true, ℕ, ◌+◌, ◌==◌, ◌∙◌, ◌∷◌, ◌≡◌,
}
use anvil_forge.Edge.Requests.{Request, Response, Server, Counters, Faults, Codec}
use anvil_forge.Edge.Server.{stats, touch}
use anvil_forge.Prelude.Statement.{Fault}
use anvil_forge.Edge.Routes.{Route, serve}
use anvil_forge.Edge.Counting.{plus, ahead_by, serve-IsAlike}
use anvil_forge.Cmd.{Floats, Line, hit_rate, report}

-- What happens to the edge: a request, the touch of a token that a request starts, a minute.
pub data Happening : Type 0 where
  asks : ℕ → Faults → Route → Request → Happening
  touches : ℕ → Fault → Text → Happening
  minute_passes : Happening

abbrev pub zeros : Counters
zeros = record { served = 0; not_modified = 0; ingested = 0; duplicates = 0 }

counters_cong :
    {a a' b b' i i' d d' : ℕ}
    → a ≡ a'
    → b ≡ b'
    → i ≡ i'
    → d ≡ d'
    → ◌≡◌ {A = Counters}
        (record { served = a; not_modified = b; ingested = i; duplicates = d })
        (record { served = a'; not_modified = b'; ingested = i'; duplicates = d' })
counters_cong p q r s = rw (p, q, r, s)

plus-zeros : (k : Counters) → plus k zeros ≡ k
plus-zeros k = counters_cong (omega arith) (omega arith) (omega arith) (omega arith)

plus-zeros_left : (k : Counters) → plus zeros k ≡ k
plus-zeros_left k = counters_cong (omega arith) (omega arith) (omega arith) (omega arith)

plus_assoc : (j k l : Counters) → plus (plus j k) l ≡ plus j (plus k l)
plus_assoc j k l = counters_cong (omega arith) (omega arith) (omega arith) (omega arith)

module _ (fl : Floats) (c : Codec) where
  -- The server afterwards, and the line that is logged.
  unfoldable pub step : Happening → Server → Server × Option (Line fl)
  unfolding serve touch report
  step (asks now f route r) s = ((serve c now f route r s).0, none)
  step (touches now fault hash) s = (touch c now fault hash s, none)
  step minute_passes s = report fl s

  abbrev pub logged : Option (Line fl) → List (Line fl) → List (Line fl)
  logged none lines = lines
  logged (some l) lines = l ∷ lines

  -- The server after some events, and what was logged.
  pub run : List Happening → Server → Server × List (Line fl)
  run [] s = (s, [])
  run (e ∷ es) s =
      let (s', line) = step e s in let (s'', lines) = run es s' in (s'', logged line lines)

  -- The server that never reports.
  pub run_quietly : List Happening → Server → Server
  run_quietly [] s = s
  run_quietly (minute_passes ∷ es) s = run_quietly es s
  run_quietly (asks now f route r ∷ es) s = run_quietly es (step (asks now f route r) s).0
  run_quietly (touches now fault hash ∷ es) s = run_quietly es (step (touches now fault hash) s).0

  pub total : List (Line fl) → Counters
  total [] = zeros
  total (l ∷ lines) = plus l.counters (total lines)

  total-logged :
      (b : Bool) (l : Line fl) (lines : List (Line fl))
      → (b ≡ true → l.counters ≡ zeros)
      → total (logged (if b then none else some l) lines) ≡ plus l.counters (total lines)
  unfolding total
  total-logged true l lines h =
      sym (plus-zeros_left (total lines)) ∙ ap (λ k. plus k (total lines)) (sym (h refl))
  total-logged false l lines h = refl

  no_counters :
      (k : Counters)
      → (k.served + k.not_modified + k.ingested + k.duplicates == 0) ≡ true
      → k ≡ zeros
  no_counters k h =
      let sum = (==_iff (k.served + k.not_modified + k.ingested + k.duplicates) 0).0 h in
      counters_cong (omega (arith, sum)) (omega (arith, sum)) (omega (arith, sum))
        (omega (arith, sum))

  run_quietly-ahead :
      (es : List Happening) (k : Counters) (s : Server)
      → run_quietly es (ahead_by k s) ≡ ahead_by (plus k (total (run es s).1)) (run es s).0
  unfolding run run_quietly total step serve touch report stats
  run_quietly-ahead [] k s = ap (λ k. ahead_by k s) (sym (plus-zeros k))
  run_quietly-ahead (asks now f route r ∷ es) k s =
      ap (λ (p : Server × Response). run_quietly es p.0) (serve-IsAlike c k now f route r s)
      ∙ run_quietly-ahead es k (serve c now f route r s).0
  run_quietly-ahead (touches now fault hash ∷ es) k s =
      run_quietly-ahead es k (touch c now fault hash s)
  run_quietly-ahead (minute_passes ∷ es) k s =
      let j = s.counters in
      let reset = (stats s).0 in
      let lines = (run es reset).1 in
      let line : Line fl = record { counters = j; not_modified_rate = hit_rate fl j } in
      ap (λ k. run_quietly es (record s { counters = k })) (sym (plus-zeros (plus k j)))
      ∙ run_quietly-ahead es (plus k j) reset
      ∙ ap (λ k. ahead_by k (run es reset).0)
          (plus_assoc k j (total lines)
            ∙ ap (plus k) (
                sym (
                  total-logged (j.served + j.not_modified + j.ingested + j.duplicates == 0) line
                    lines (no_counters j))))

  -- The reports lose nothing: after any requests, touches and minutes, the lines that were logged and
  -- the counters that are left add up to the counters of a server that never reports, and nothing else
  -- of the server differs.
  pub run-run_quietly :
      (es : List Happening) (s : Server)
      → run_quietly es s ≡ ahead_by (total (run es s).1) (run es s).0
  run-run_quietly es s =
      ap (λ k. run_quietly es (record s { counters = k })) (sym (plus-zeros_left s.counters))
      ∙ run_quietly-ahead es zeros s
      ∙ ap (λ k. ahead_by k (run es s).0) (plus-zeros_left (total (run es s).1))
