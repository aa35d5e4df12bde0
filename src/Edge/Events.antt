-- ===== src/Edge/Events.antt =====
-- internal/edge/server.go and store.go: the table of events, which requests only ever add to.
pub mod Requests
pub mod History
use anvil_forge.Prelude.{
  ==_iff, All, All-append, All-map, Bool, Bool-cases, IsKeyed, List, Option, Text, [], any-none, ap,
  arith, count_where, count_where-append, count_where_none, eq_text-eq, false, if_both, inl, inr,
  none, refl, some, subst, suc, sym, true, ℕ, ◌++◌, ◌<◌, ◌==◌, ◌∙◌, ◌∷◌, ◌≡◌, ◌≤◌,
}
use anvil_forge.Prelude.Statement.{
  Fault, no_fault, query_fault, Outcome, ok, err, null_if_empty, same_key,
}
use anvil_forge.Hiscores.Rsn.{trim_space, is_empty}
use anvil_forge.Edge.Tables.{
  Tables, Event, Caller, Loaded, found, not_found, failed, has_conflict, new_event, ingest,
  heartbeat, touch_seen,
}
use anvil_forge.Edge.Server.{Pushed, ingest_all, after_ingest, or_braces}
use anvil_forge.Edge.Requests.{
  Request, Response, Server, Faults, Codec, Push, push, Batch, nil, cons,
}

-- Each key has at most one event, and each event an id of its own, below the next one.
pub record WellKept (t : Tables) : Type 0 where
  pub unique : (k : Text) → count_where (λ e. same_key (some k) e.dedupe_key) t.events ≤ 1
  pub fresh : All (λ e. e.id < t.next_event) t.events
  pub keyed : IsKeyed (λ e. e.id) t.events

-- What was there is still there, in its place, and the table stays well kept.
pub record Grows (t t' : Tables) : Type 0 where
  pub added : List Event
  pub kept : t'.events ≡ t.events ++ added
  pub sound : WellKept t → WellKept t'

append_nil : (es : List Event) → es ++ [] ≡ es
append_nil [] = refl
append_nil (e ∷ es) = ap (λ es. e ∷ es) (append_nil es)

append_assoc : (a b c : List Event) → (a ++ b) ++ c ≡ a ++ (b ++ c)
append_assoc [] b c = refl
append_assoc (e ∷ a) b c = ap (λ es. e ∷ es) (append_assoc a b c)

-- A step that leaves the events alone.
pub same-Grows : (t t' : Tables) → t'.events ≡ t.events → t'.next_event ≡ t.next_event → Grows t t'
same-Grows t t' e n = record {
  added = [];
  kept = e ∙ sym (append_nil t.events);
  sound = λ w. record {
    unique =
        subst (λ es. (k : Text) → count_where (λ e. same_key (some k) e.dedupe_key) es ≤ 1) (sym e)
          w.unique;
    fresh = rw (e, n) w.fresh;
    keyed = subst (IsKeyed (λ e. e.id)) (sym e) w.keyed;
  };
}

pub Grows-trans : (a b c : Tables) → Grows a b → Grows b c → Grows a c
Grows-trans a b c g h = record {
  added = g.added ++ h.added;
  kept = h.kept ∙ ap (λ es. es ++ h.added) g.kept ∙ append_assoc a.events g.added h.added;
  sound = λ w. h.sound (g.sound w);
}

-- A key that nothing carries.
unkeyed :
    (key : Option Text) (k : Text) (es : List Event)
    → has_conflict key es ≡ false
    → same_key (some k) key ≡ true
    → count_where (λ e. same_key (some k) e.dedupe_key) es ≡ 0
unkeyed none k es h s = absurd (ground (arith, s))
unkeyed (some j) k es h s =
    count_where_none (λ e. same_key (some k) e.dedupe_key) es
      (subst (λ (j : Text). All (λ e. same_key (some j) e.dedupe_key ≡ false) es)
        (sym (eq_text-eq k j s)) (any-none _ es h))

grown-WellKept :
    (t : Tables) (e : Event)
    → e.id ≡ t.next_event
    → has_conflict e.dedupe_key t.events ≡ false
    → WellKept t
    → WellKept (record t { events = t.events ++ e ∷ []; next_event = suc t.next_event })
grown-WellKept t e i h w = record {
  unique = λ k. elim (Bool-cases (same_key (some k) e.dedupe_key)) [
    | inl s ↦ ground (
      arith,
      s,
      unkeyed e.dedupe_key k t.events h s,
      count_where-append (λ e. same_key (some k) e.dedupe_key) t.events (e ∷ []),
    )
    | inr s ↦ ground (
      arith,
      s,
      w.unique k,
      count_where-append (λ e. same_key (some k) e.dedupe_key) t.events (e ∷ []),
    )
  ];
  fresh =
      All-append (λ x. x.id < suc t.next_event) t.events (e ∷ [])
        (All-map (λ x l. omega (arith, l)) t.events w.fresh) (omega (arith, i), tt);
  keyed = λ k. elim (Bool-cases (e.id == k)) [
    | inl s ↦ ground (
      arith,
      s,
      count_where-append (λ x. x.id == k) t.events (e ∷ []),
      count_where_none (λ x. x.id == k) t.events
          (All-map (λ x l. ground (arith, l, i, s, ==_iff e.id k, ==_iff x.id k)) t.events w.fresh),
    )
    | inr s ↦ ground (arith, s, w.keyed k, count_where-append (λ x. x.id == k) t.events (e ∷ []))
  ];
}

pub ingest-Grows :
    (now : ℕ) (fault : Fault) (c : Caller) (kind payload key : Text) (t : Tables)
    → Grows t (ingest now fault c kind payload key t).0
unfolding ingest
ingest-Grows now (query_fault e) c kind payload key t = same-Grows t t refl refl
ingest-Grows now no_fault c kind payload key t =
    elim (Bool-cases (has_conflict (null_if_empty key) t.events)) [
      | inl h ↦ rw h (record {
        added = [];
        kept = sym (append_nil t.events);
        sound = λ w. record {
          unique = w.unique;
          fresh = All-map (λ x l. omega (arith, l)) t.events w.fresh;
          keyed = w.keyed;
        };
      })
      | inr h ↦ rw h (record {
        added = new_event now t.next_event c kind payload (null_if_empty key) ∷ [];
        kept = refl;
        sound =
            grown-WellKept t (new_event now t.next_event c kind payload (null_if_empty key)) refl h;
      })
    ]

pub ingest_all-Grows :
    (now : ℕ) (faults : ℕ → Fault) (c : Caller) (i : ℕ) (b : Batch) (t : Tables)
    → Grows t (ingest_all now faults c i b t).0
unfolding ingest_all
ingest_all-Grows now faults c i nil t = same-Grows t t refl refl
ingest_all-Grows now faults c i (cons (push kind payload key events) b) t =
    if_both {A = Tables × Pushed} (λ r. Grows t r.0) (is_empty (trim_space kind)) _ _
      (same-Grows t t refl refl)
      (after (ingest now (faults i) c kind (or_braces payload) key t)
        (ingest-Grows now (faults i) c kind (or_braces payload) key t)
        (λ t'. ingest_all-Grows now faults c (suc i) b t'))
  where
    after :
        (r : Tables × Outcome Bool)
        → Grows t r.0
        → ((t' : Tables) → Grows t' (ingest_all now faults c (suc i) b t').0)
        → Grows t (after_ingest r (λ t'. ingest_all now faults c (suc i) b t')).0
    after (t', err e) g rest = g
    after (t', ok stored) g rest = Grows-trans t t' _ g (rest t')
