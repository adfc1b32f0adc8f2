-- ===== src/Engine/Reconcile/Head.antt =====
-- The head of the stored events that _reconcile_sequence_conflict of gamecollect/engine.py starts
-- with, and what a growing table does to the stored events.
use gamealerts_collector.Prelude.{
  ℕ, String, ◌≡◌, refl, sym, ◌∙◌, ap, subst, inl, inr, Bool, true, false, List, [], ◌∷◌, ◌++◌, map,
  arith, Member, filter,
}
use gamealerts_collector.Provider.{NormalizedEvent}
use gamealerts_collector.Diffing.{insert_by_seq, sort_by_seq}
use gamealerts_collector.Diffing.Order.{Member-sort_by_seq}
use gamealerts_collector.Writer.Table.{EventRow, Db, in_partition}
use gamealerts_collector.Writer.Rows.{PartitionWriter}
use gamealerts_collector.Writer.Events.{max_seq}
use gamealerts_collector.Engine.Rows.{read_event, stored_events}
use gamealerts_collector.Engine.Reconcile.{raise_head, highest}
use gamealerts_collector.Engine.Reconcile.Growth.{Grows}

abbrev seq_of : NormalizedEvent → ℕ
seq_of e = e.seq

highest-insert_by_seq :
    (e : NormalizedEvent) (es : List NormalizedEvent)
    → highest (map seq_of (insert_by_seq e es)) ≡ raise_head e.seq (highest (map seq_of es))
unfolding highest insert_by_seq
highest-insert_by_seq e [] = refl
highest-insert_by_seq e (x ∷ xs) = ground (arith, highest-insert_by_seq e xs)

highest-sort_by_seq :
    (es : List NormalizedEvent) → highest (map seq_of (sort_by_seq es)) ≡ highest (map seq_of es)
unfolding highest sort_by_seq
highest-sort_by_seq [] = refl
highest-sort_by_seq (e ∷ es) =
    highest-insert_by_seq e (sort_by_seq es) ∙ ap (raise_head e.seq) (highest-sort_by_seq es)

seq-read_event : (r : EventRow) → (read_event r).seq ≡ r.seq
unfolding read_event
seq-read_event r = refl

highest-rows :
    (s m : String) (es : List EventRow)
    → highest (map seq_of (map read_event (filter (in_partition s m) es))) ≡ max_seq es s m
unfolding highest max_seq
highest-rows s m [] = refl
highest-rows s m (e ∷ es) = ground (arith, highest-rows s m es, seq-read_event e)

pub highest-stored_events :
    (w : PartitionWriter) (m : String) (db : Db)
    → highest (map seq_of (stored_events w m db)) ≡ max_seq db.events w.source m
unfolding stored_events
highest-stored_events w m db =
    highest-sort_by_seq (map read_event (filter (in_partition w.source m) db.events))
    ∙ highest-rows w.source m db.events

-- What is stored stays stored.
Member-map_append :
    (s m : String) (x : NormalizedEvent) (es new : List EventRow)
    → Member x (map read_event (filter (in_partition s m) es))
    → Member x (map read_event (filter (in_partition s m) (es ++ new)))
Member-map_append s m x [] new h = elim h [ ]
Member-map_append s m x (e ∷ es) new h =
    by_test (in_partition s m e) h (Member-map_append s m x es new)
  where
    by_test :
        (b : Bool)
        → Member x (
            map read_event (
              let rest = filter (in_partition s m) es in elim b [ true ↦ e ∷ rest | false ↦ rest ]))
        → (Member x (map read_event (filter (in_partition s m) es))
            → Member x (map read_event (filter (in_partition s m) (es ++ new))))
        → Member x (
            map read_event (
              let rest = filter (in_partition s m) (es ++ new) in
              elim b [ true ↦ e ∷ rest | false ↦ rest ]))
    by_test true (inl p) ih = inl p
    by_test true (inr k) ih = inr (ih k)
    by_test false k ih = ih k

pub Member-Grows :
    (w : PartitionWriter) (m : String) (x : NormalizedEvent) (db db' : Db)
    → Grows w m db db'
    → Member x (stored_events w m db)
    → Member x (stored_events w m db')
unfolding stored_events
Member-Grows w m x db db' (frame, new, grown, own) h =
    let rows = map read_event (filter (in_partition w.source m) db.events) in
    let moved = Member-map_append w.source m x db.events new ((Member-sort_by_seq x rows).0 h) in
    let there =
      subst (λ es. Member x (map read_event (filter (in_partition w.source m) es))) (sym grown)
        moved in
    (Member-sort_by_seq x (map read_event (filter (in_partition w.source m) db'.events))).1 there
