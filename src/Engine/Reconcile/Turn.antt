-- ===== src/Engine/Reconcile/Turn.antt =====
-- One turn of the loop of _reconcile_sequence_conflict of gamecollect/engine.py.
use gamealerts_collector.Prelude.{
  ℕ, String, ◌≡◌, refl, sym, ◌∙◌, ap, subst, ◌⊎◌, inl, inr, Bool, true, false, [], ◌∷◌, arith,
  Member, if◌then◌else◌,
}
use gamealerts_collector.Provider.{NormalizedEvent}
use gamealerts_collector.Writer.Table.{Db}
use gamealerts_collector.Writer.Action.{Error, sequence_error, Result, ok, err}
use gamealerts_collector.Writer.Rows.{PartitionWriter}
use gamealerts_collector.Writer.Events.{append_events, max_seq, at_or_below}
use gamealerts_collector.Writer.Atomicity.{append_events-IsAtomic}
use gamealerts_collector.Engine.Rows.{event_to_row, stored_events}
use gamealerts_collector.Engine.Rows.RoundTrip.{stored_events-append_events}
use gamealerts_collector.Engine.Reconcile.{
  Loop, seen, drifts, after_stored, after_new, retroactive, warn_duplicate, reconcile_event,
}
use gamealerts_collector.Engine.Reconcile.Growth.{Grows, Grows-refl, append_events-Grows}
use gamealerts_collector.Engine.Reconcile.Above.{
  raised, append_events-IsUnrefused, max_seq-append_events,
}

module _ (w : PartitionWriter) (m id : String) where
  -- The loop's head is the table's.
  abbrev pub IsTracking : Loop → Type 0
  IsTracking l = l.head ≡ max_seq l.db.events w.source m

  -- What a turn of the loop that does not raise has done.
  abbrev pub Turn : NormalizedEvent → Loop → Loop → Type 0
  Turn e l next =
      IsTracking next
      × (next.head ≡ raised e.seq l.head)
      × Grows w m l.db next.db
      × ((at_or_below e.seq l.head ≡ true) ⊎ Member e (stored_events w m next.db))

  -- Such a turn, where the seq is not beyond the head and the table has not changed.
  still :
      (e : NormalizedEvent) (l next : Loop)
      → at_or_below e.seq l.head ≡ true
      → IsTracking l
      → next.db ≡ l.db
      → next.head ≡ l.head
      → Turn e l next
  still e l next below t p q = (
    q ∙ t ∙ ap (λ (d : Db). max_seq d.events w.source m) (sym p),
    q ∙ sym (rw below refl),
    subst (Grows w m l.db) (sym p) (Grows-refl w m l.db),
    inl below,
  )

  after_stored_err :
      (e : NormalizedEvent) (l next : Loop) (x : Error) (db : Db) (u : Unit {0})
      → ◌≡◌ {A = Result (Unit {0}) × Loop} (after_stored id e l (err x, db)) (ok u, next)
      → (next.db ≡ db) × (next.head ≡ l.head)
  after_stored_err e l next x db u h = ground arith

  after_new_err :
      (e : NormalizedEvent) (l next : Loop) (x : Error) (db : Db) (u : Unit {0})
      → ◌≡◌ {A = Result (Unit {0}) × Loop} (after_new id e l (err x, db)) (ok u, next)
      → x ≡ sequence_error
  after_new_err e l next x db u h = ground arith

  -- A turn whose append is accepted.
  appended-Turn :
      (e : NormalizedEvent) (l next : Loop) (n : ℕ) (db : Db)
      → append_events w m (event_to_row e ∷ []) l.db ≡ (ok n, db)
      → IsTracking l
      → next.db ≡ db
      → next.head ≡ raised e.seq l.head
      → Turn e l next
  appended-Turn e l next n db a t p q =
      let grown = append_events-Grows w m (event_to_row e ∷ []) l.db in
      let there = (stored_events-append_events w m (e ∷ []) n l.db db a).0 in
      (
        q
            ∙ ap (raised e.seq) t
            ∙ sym (max_seq-append_events w m e n l.db db a)
            ∙ ap (λ (d : Db). max_seq d.events w.source m) (sym p),
        q,
        subst (Grows w m l.db) (ap (λ y. y.1) a ∙ sym p) grown,
        inr (subst (λ d. Member e (stored_events w m d)) (sym p) there),
      )

  stored-Turn :
      (e : NormalizedEvent) (l next : Loop) (u : Unit {0}) (r : Result ℕ × Db)
      → append_events w m (event_to_row e ∷ []) l.db ≡ r
      → at_or_below e.seq l.head ≡ true
      → IsTracking l
      → ◌≡◌ {A = Result (Unit {0}) × Loop} (after_stored id e l r) (ok u, next)
      → Turn e l next
  stored-Turn e l next u (ok n, db) a below t h =
      appended-Turn e l next n db a t (ap (λ y. y.1.db) (sym h))
        (ap (λ y. y.1.head) (sym h) ∙ sym (rw below refl))
  stored-Turn e l next u (err x, db) a below t h =
      let (p, q) = after_stored_err e l next x db u h in
      let same = (append_events-IsAtomic w m (event_to_row e ∷ [])).at l.db x (ap (λ y. y.0) a) in
      still e l next below t (p ∙ sym (ap (λ y. y.1) a) ∙ same) q

  new-Turn :
      (e : NormalizedEvent) (l next : Loop) (u : Unit {0}) (r : Result ℕ × Db)
      → append_events w m (event_to_row e ∷ []) l.db ≡ r
      → at_or_below e.seq l.head ≡ false
      → IsTracking l
      → ◌≡◌ {A = Result (Unit {0}) × Loop} (after_new id e l r) (ok u, next)
      → Turn e l next
  new-Turn e l next u (ok n, db) a above t h =
      appended-Turn e l next n db a t (ap (λ y. y.1.db) (sym h))
        (ap (λ y. y.1.head) (sym h) ∙ sym (rw above refl))
  new-Turn e l next u (err x, db) a above t h =
      let refused = after_new_err e l next x db u h in
      absurd (
        append_events-IsUnrefused w m e l.db (subst (λ o. at_or_below e.seq o ≡ false) t above)
          (ap (λ y. y.0) a ∙ ap err refused))

  pub turn :
      (e : NormalizedEvent) (l next : Loop) (u : Unit {0})
      → reconcile_event w m id e l ≡ (ok u, next)
      → IsTracking l
      → Turn e l next
  unfolding reconcile_event
  turn e l next u h t =
      by_head (at_or_below e.seq l.head) (seen e.seq l.appended) (seen e.seq l.stored_seqs) refl h
    where
      by_head :
          (below appended stored : Bool)
          → at_or_below e.seq l.head ≡ below
          → ◌≡◌ {A = Result (Unit {0}) × Loop}
              (let append = append_events w m (event_to_row e ∷ []) l.db in
                if below
                then (if appended
                    then (ok tt, record l { memory = warn_duplicate id e.seq l.memory })
                    else if stored
                    then after_stored id e l append
                    else (ok tt, record l { memory = drifts id e l retroactive }))
                else after_new id e l append)
              (ok u, next)
          → Turn e l next
      by_head true true stored b k =
          still e l next b t (ap (λ y. y.1.db) (sym k)) (ap (λ y. y.1.head) (sym k))
      by_head true false true b k = stored-Turn e l next u _ refl b t k
      by_head true false false b k =
          still e l next b t (ap (λ y. y.1.db) (sym k)) (ap (λ y. y.1.head) (sym k))
      by_head false appended stored b k = new-Turn e l next u _ refl b t k
