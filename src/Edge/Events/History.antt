-- ===== src/Edge/Events/History.antt =====
-- internal/edge/server.go: the life of the table of events.
use anvil_forge.Prelude.{List, Text, refl, ℕ, ◌++◌, ◌≡◌}
use anvil_forge.Prelude.Statement.{Fault, no_fault, query_fault}
use anvil_forge.Edge.Tables.{Event, touch_seen}
use anvil_forge.Edge.Requests.{Request, Server, Faults, Codec}
use anvil_forge.Edge.Server.{touch, stats}
use anvil_forge.Edge.Routes.{Route, serve}
use anvil_forge.Edge.Events.{WellKept, Grows, same-Grows, Grows-trans}
use anvil_forge.Edge.Events.Requests.{serve-Leads}

-- Requests, the touches that they start, and the reading of the counters, in any order.
pub data Reach (c : Codec) (s : Server) : Server → Type 0 where
  here : Reach c s s
  asked :
      {t : Server} (now : ℕ) (f : Faults) (route : Route) (r : Request)
      → Reach c s t
      → Reach c s (serve c now f route r t).0
  touched :
      {t : Server} (now : ℕ) (fault : Fault) (hash : Text)
      → Reach c s t
      → Reach c s (touch c now fault hash t)
  counted : {t : Server} → Reach c s t → Reach c s (stats t).0

touch-Grows :
    (c : Codec) (now : ℕ) (fault : Fault) (hash : Text) (t : Server)
    → Grows t.tables (touch c now fault hash t).tables
unfolding touch touch_seen
touch-Grows c now no_fault hash t = same-Grows t.tables _ refl refl
touch-Grows c now (query_fault e) hash t = same-Grows t.tables t.tables refl refl

stats-Grows : (t : Server) → Grows t.tables (stats t).0.tables
unfolding stats
stats-Grows t = same-Grows t.tables t.tables refl refl

-- Whatever happens, events are only added.
pub Reach-added : (c : Codec) {s t : Server} → Reach c s t → Grows s.tables t.tables
Reach-added c {s} here = same-Grows s.tables s.tables refl refl
Reach-added c (asked {t = t} now f route r h) =
    Grows-trans _ _ _ (Reach-added c h) (serve-Leads c f r t now route)
Reach-added c (touched {t = t} now fault hash h) =
    Grows-trans _ _ _ (Reach-added c h) (touch-Grows c now fault hash t)
Reach-added c (counted {t = t} h) = Grows-trans _ _ _ (Reach-added c h) (stats-Grows t)

-- From a table in which each key has at most one event, and each event an id of its own below the next
-- one, whatever the edge is asked, and whatever fails, leads to such a table, in which events were only
-- added behind those that were there.
pub Reach-Grows :
    (c : Codec) {s t : Server}
    → Reach c s t
    → WellKept s.tables
    → WellKept t.tables × ((added : List Event) × (t.tables.events ≡ s.tables.events ++ added))
Reach-Grows c r w = let g = Reach-added c r in (g.sound w, (g.added, g.kept))
