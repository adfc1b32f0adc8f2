-- ===== src/Engine/Reconcile/Progress.antt =====
-- The loop of _reconcile_sequence_conflict of gamecollect/engine.py as a whole: what becomes of
-- the events of its batch.
use gamealerts_collector.Prelude.{
  ℕ, ◌<◌, String, ◌≡◌, refl, sym, ◌∙◌, ap, subst, ◌⊎◌, inl, inr, true, List, [], ◌∷◌, Option, none,
  some, arith, All, Member,
}
use gamealerts_collector.Provider.{NormalizedEvent}
use gamealerts_collector.Writer.Table.{Db}
use gamealerts_collector.Writer.Action.{Result, ok, err}
use gamealerts_collector.Writer.Rows.{PartitionWriter}
use gamealerts_collector.Writer.Events.{max_seq, at_or_below}
use gamealerts_collector.Engine.Rows.{stored_events}
use gamealerts_collector.Engine.Reconcile.{
  Loop, Memory, reconcile_event, reconcile_events, start_loop, reconcile_sequence_conflict,
}
use gamealerts_collector.Engine.Reconcile.Growth.{Grows, Grows-refl, Grows-trans}
use gamealerts_collector.Engine.Reconcile.Above.{raised}
use gamealerts_collector.Engine.Reconcile.Head.{highest-stored_events, Member-Grows}
use gamealerts_collector.Engine.Reconcile.Turn.{IsTracking, turn}

-- Seqs that grow from event to event.
abbrev pub Ascends : List NormalizedEvent → Type 0
Ascends [] = Unit
Ascends (e ∷ es) = All (λ x. e.seq < x.seq) es × Ascends es

module _ (w : PartitionWriter) (m id : String) where
  -- What becomes of an event of the batch.
  abbrev pub IsSettled : Option ℕ → Db → NormalizedEvent → Type 0
  IsSettled head db e = (at_or_below e.seq head ≡ true) ⊎ Member e (stored_events w m db)

  lower_raised :
      (n k : ℕ) (head : Option ℕ)
      → n < k
      → at_or_below k (raised n head) ≡ true
      → at_or_below k head ≡ true
  lower_raised n k none p h = ground arith
  lower_raised n k (some j) p h = ground arith

  -- Settled with the head that a turn has raised, settled with the head before it.
  lower :
      (n : ℕ) (head : Option ℕ) (db : Db) (es : List NormalizedEvent)
      → All (λ x. n < x.seq) es
      → All (IsSettled (raised n head) db) es
      → All (IsSettled head db) es
  lower n head db [] p h = tt
  lower n head db (e ∷ es) p h = (
    elim h.0 [ inl b ↦ inl (lower_raised n e.seq head p.0 b) | inr k ↦ inr k ],
    lower n head db es p.1 h.1,
  )

  reconcile_events-cons :
      (es : List NormalizedEvent) (r : Result (Unit {0}) × Loop) (u : Unit {0}) (l' : Loop)
      → (let out : Result (Unit {0}) × Loop = elim r.0 [
        | err x ↦ (err x, r.1)
        | ok _ ↦ reconcile_events w m id es r.1
      ] in
          ◌≡◌ {A = Result (Unit {0}) × Loop} out (ok u, l'))
      → (v : Unit {0}) × (next : Loop) × (r ≡ (ok v, next))
        × (reconcile_events w m id es next ≡ (ok u, l'))
  reconcile_events-cons es (ok v, next) u l' h = (v, next, refl, h)
  reconcile_events-cons es (err x, next) u l' h =
      let p = ap (λ (y : Result (Unit {0}) × Loop). y.0) h in cc

  settle_events :
      (es : List NormalizedEvent) (l l' : Loop) (u : Unit {0})
      → reconcile_events w m id es l ≡ (ok u, l')
      → IsTracking w m id l
      → Ascends es
      → All (IsSettled l.head l'.db) es × Grows w m l.db l'.db
  settle_events [] l l' u h t up =
      let same : l.db ≡ l'.db = unfold reconcile_events in ap (λ y. y.1.db) h in
      (tt, subst (Grows w m l.db) same (Grows-refl w m l.db))
  settle_events (e ∷ es) l l' u h t up =
      let (v, next, first, rest) =
        reconcile_events-cons es (reconcile_event w m id e l) u l' (unfold reconcile_events in h) in
      let (t', hd, grown, done) = turn w m id e l next v first t in
      let (all, grown') = settle_events es next l' u rest t' up.1 in
      let all' = subst (λ o. All (IsSettled o l'.db) es) hd all in
      (
        (
          elim done [ inl b ↦ inl b | inr k ↦ inr (Member-Grows w m e next.db l'.db grown' k) ],
          lower e.seq l.head l'.db es up.0 all',
        ),
        Grows-trans w m l.db next.db l'.db grown grown',
      )

  start_loop-IsTracking : (db : Db) (memory : Memory) → IsTracking w m id (start_loop w m db memory)
  unfolding start_loop
  start_loop-IsTracking db memory = highest-stored_events w m db

-- Every event is at or below the head that was stored before, or is stored now.
abbrev pub IsCaughtUp :
    PartitionWriter → String → Db → List NormalizedEvent → Db → List NormalizedEvent → Type 0
IsCaughtUp w m db es db' stored =
    All (λ e. (at_or_below e.seq (max_seq db.events w.source m) ≡ true) ⊎ Member e stored) es
    × (stored ≡ stored_events w m db')

caught_up :
    (w : PartitionWriter) (m id : String) (es stored : List NormalizedEvent) (db : Db)
    (memory : Memory) (l : Loop) (r : Result (Unit {0}) × Loop)
    → reconcile_events w m id es (start_loop w m db memory) ≡ r
    → ◌≡◌ {A = Result (List NormalizedEvent) × Loop}
        (
          elim r.0 as (λ _. Result (List NormalizedEvent)) [
            | err e ↦ err e
            | ok _ ↦ ok (stored_events w m r.1.db)
          ],
          r.1,
        )
        (ok stored, l)
    → Ascends es
    → IsCaughtUp w m db es l.db stored
caught_up w m id es stored db memory l (ok u, l') run k up =
    let same : l' ≡ l = ap (λ y. y.1) k in
    let read : stored_events w m l'.db ≡ stored =
      let p = ap (λ (y : Result (List NormalizedEvent) × Loop). y.0) k in cc in
    let start = start_loop w m db memory in
    let settled =
      (settle_events w m id es start l' u run (start_loop-IsTracking w m id db memory) up).0 in
    let head : start.head ≡ max_seq db.events w.source m =
      unfold start_loop in highest-stored_events w m db in
    let at_head =
      subst (λ o. All (λ e. (at_or_below e.seq o ≡ true) ⊎ Member e (stored_events w m l'.db)) es)
        head settled in
    (
      subst
          (λ ss.
            All (λ e. (at_or_below e.seq (max_seq db.events w.source m) ≡ true) ⊎ Member e ss) es)
          read at_head,
      sym read ∙ ap (λ (y : Loop). stored_events w m y.db) same,
    )
caught_up w m id es stored db memory l (err x, l') run k up =
    let p = ap (λ (y : Result (List NormalizedEvent) × Loop). y.0) k in cc

-- If _reconcile_sequence_conflict returns, on a batch whose seqs grow from event to event,
-- then the events that it returns are those that the table now stores, and every event of
-- the batch whose seq is beyond the largest one stored before is among them as it was sent:
-- a drift in a batch never holds back a later event.
pub reconcile_sequence_conflict-IsCaughtUp :
    (w : PartitionWriter) (m id : String) (es stored : List NormalizedEvent) (db : Db)
    (memory : Memory) (l : Loop)
    → reconcile_sequence_conflict w m id es db memory ≡ (ok stored, l)
    → Ascends es
    → IsCaughtUp w m db es l.db stored
reconcile_sequence_conflict-IsCaughtUp w m id es stored db memory l h up =
    caught_up w m id es stored db memory l (reconcile_events w m id es (start_loop w m db memory))
      refl (unfold reconcile_sequence_conflict in h) up
