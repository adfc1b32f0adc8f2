-- ===== src/Engine/Rows/RoundTrip.antt =====
-- _event_to_row, append_events and _stored_events of gamecollect/engine.py, one after the other.
use gamealerts_collector.Prelude.{
  ℕ, String, ◌≡◌, refl, ◌∙◌, ap, subst, inl, inr, true, List, [], ◌∷◌, map, some, arith, All,
  Member, filter, Member-filter, ==_iff, string_eq, nat_eq,
}
use gamealerts_collector.Json.{str, value_eq}
use gamealerts_collector.Provider.{NormalizedEvent}
use gamealerts_collector.Diffing.Order.{Member-sort_by_seq}
use gamealerts_collector.Writer.Table.{EventRow, Db, in_partition, find_event}
use gamealerts_collector.Writer.Action.{Result, ok, err}
use gamealerts_collector.Writer.Action.Returns.{Returns}
use gamealerts_collector.Writer.Rows.{PartitionWriter, Row, pick, picked, event_columns, event_keys}
use gamealerts_collector.Writer.Events.{
  Checked, check_event, check_events, event_values, values_eq, matches_stored, append_events,
}
use gamealerts_collector.Writer.Append.Repoll.{Holds, Appends-Holds}
use gamealerts_collector.Writer.Batches.{append_events-Accepted}
use gamealerts_collector.Engine.Rows.{event_to_row, read_event, stored_events}
use gamealerts_collector.Engine.Rows.Columns.{checked_of, row_of, read_event-row_of}

pub pick-event_to_row :
    (e : NormalizedEvent)
    → pick (event_to_row e) event_columns event_keys ≡ ok (picked event_columns (event_to_row e))
unfolding pick event_to_row
pick-event_to_row e = ground arith

check_event-event_to_row :
    (w : PartitionWriter) (m : String) (e : NormalizedEvent) (c : Checked)
    → check_event w m (event_to_row e) ≡ ok c
    → c ≡ checked_of e
unfolding check_event event_to_row
check_event-event_to_row w m e c h = ground arith

check_events-cons :
    (a : Result Checked) (r : Result (List Checked)) (cs : List Checked)
    → ◌≡◌ {A = Result (List Checked)}
        (elim a [ err e ↦ err e | ok c ↦ elim r [ err e ↦ err e | ok cs ↦ ok (c ∷ cs) ] ])
        (ok cs)
    → (c : Checked) × (rest : List Checked) × (a ≡ ok c) × (r ≡ ok rest) × (cs ≡ c ∷ rest)
check_events-cons (err e) r cs h = cc
check_events-cons (ok c) (err e) cs h = cc
check_events-cons (ok c) (ok rest) cs h = (c, rest, refl, refl, cc)

pub check_events-event_to_row :
    (w : PartitionWriter) (m : String) (es : List NormalizedEvent) (cs : List Checked)
    → check_events w m (map event_to_row es) ≡ ok cs
    → cs ≡ map checked_of es
check_events-event_to_row w m [] cs h = unfold check_events in cc
check_events-event_to_row w m (e ∷ es) cs h =
    let (c, rest, head, tail, all) =
      check_events-cons (check_event w m (event_to_row e)) (check_events w m (map event_to_row es))
        cs (unfold check_events in h) in
    let first = check_event-event_to_row w m e c head in
    let others = check_events-event_to_row w m es rest tail in rw (all, first, others)

find_event-found :
    (s m : String) (n : ℕ) (es : List EventRow) (x : EventRow)
    → find_event es s m n ≡ some x
    → Member x es × (in_partition s m x ≡ true) × (x.seq ≡ n)
unfolding find_event
find_event-found s m n [] x h = cc
find_event-found s m n (e ∷ es) x h = ground (arith, ==_iff e.seq n, find_event-found s m n es x)

Member-map :
    {A B : Type 0} (f : A → B) (x : A) (xs : List A) → Member x xs → Member (f x) (map f xs)
Member-map f x [] m = m
Member-map f x (y ∷ ys) (inl p) = inl (ap f p)
Member-map f x (y ∷ ys) (inr m) = inr (Member-map f x ys m)

row_eq :
    (a b : EventRow)
    → a.source ≡ b.source
    → a.match_id ≡ b.match_id
    → a.seq ≡ b.seq
    → a.type ≡ b.type
    → a.columns ≡ b.columns
    → a ≡ b
row_eq a b p q r s t = ground arith

stored-row_of :
    (w : PartitionWriter) (m : String) (e : NormalizedEvent) (stored : EventRow) (extras : Row)
    → pick (event_to_row e) event_columns event_keys ≡ ok extras
    → in_partition w.source m stored ≡ true
    → stored.seq ≡ e.seq
    → matches_stored stored (checked_of e) extras ≡ true
    → stored ≡ row_of w.source m e
unfolding matches_stored
stored-row_of w m e stored extras picked_as own seq fits =
    let source : stored.source ≡ w.source = ground (arith, ==_iff stored.source w.source) in
    let id : stored.match_id ≡ m = ground (arith, ==_iff stored.match_id m) in
    let type : stored.type ≡ str e.event_type =
      ground (arith, ==_iff stored.type (str e.event_type)) in
    let columns : stored.columns ≡ event_values extras =
      ground (arith, ==_iff stored.columns (event_values extras)) in
    let same : extras ≡ picked event_columns (event_to_row e) = let q = pick-event_to_row e in cc in
    row_eq stored (row_of w.source m e) source id seq type (columns ∙ ap event_values same)

-- An event that the table holds under its fingerprint is read back as it was sent.
Member-stored_events :
    (w : PartitionWriter) (m : String) (e : NormalizedEvent) (db : Db)
    → Holds w m db.events (checked_of e)
    → Member e (stored_events w m db)
unfolding stored_events
Member-stored_events w m e db (extras, picked_as, stored, found, fits) =
    let (there, own, seq) = find_event-found w.source m e.seq db.events stored found in
    let row = stored-row_of w m e stored extras picked_as own seq fits in
    let kept = (Member-filter (in_partition w.source m) stored db.events).1 (there, own) in
    let read = Member-map read_event stored (filter (in_partition w.source m) db.events) kept in
    let back : read_event stored ≡ e = ap read_event row ∙ read_event-row_of w.source m e in
    let rows = map read_event (filter (in_partition w.source m) db.events) in
    (Member-sort_by_seq e rows).1 (subst (λ x. Member x rows) back read)

All-of_map :
    (w : PartitionWriter) (m : String) (es : List NormalizedEvent) (db : Db)
    → All (Holds w m db.events) (map checked_of es)
    → All (λ e. Member e (stored_events w m db)) es
All-of_map w m [] db h = tt
All-of_map w m (e ∷ es) db h = (Member-stored_events w m e db h.0, All-of_map w m es db h.1)

-- If append_events accepts the rows that _event_to_row makes of a list of events,
-- _stored_events reads every one of those events back, field by field as it was sent.
pub stored_events-append_events :
    (w : PartitionWriter) (m : String) (es : List NormalizedEvent) (n : ℕ) (db db' : Db)
    → Returns (append_events w m (map event_to_row es)) db n db'
    → All (λ e. Member e (stored_events w m db')) es
stored_events-append_events w m [] n db db' h = tt
stored_events-append_events w m (e ∷ es) n db db' h =
    let (cs, acc) = append_events-Accepted w m (event_to_row e) (map event_to_row es) n db db' h in
    let holds = Appends-Holds (λ k x q. q) acc.3.0 in
    let all = check_events-event_to_row w m (e ∷ es) cs acc.0 in
    All-of_map w m (e ∷ es) db' (subst (All (Holds w m db'.events)) all holds)
