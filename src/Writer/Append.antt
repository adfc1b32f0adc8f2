-- ===== src/Writer/Append.antt =====
-- One turn of the second loop of append_events of gamecollect/db/writer.py.
pub mod Run
pub mod Rows
pub mod Repoll
use gamealerts_collector.Prelude.{
  ℕ, zero, suc, ◌+◌, ◌≤◌, ◌<◌, String, ◌≡◌, refl, sym, subst, ◌∙◌, ap, ◌⊎◌, inl, inr, Bool, true,
  false, not, ◌&&◌, List, [], ◌∷◌, ◌++◌, Option, none, some, arith, leb, ltb, All, length, ◌==◌,
  ==_iff, string_eq, nat_eq, if◌then◌else◌, Bool-cases, Option-cases,
}
use gamealerts_collector.Writer.Table.{EventRow, Db, in_partition, find_event}
use gamealerts_collector.Writer.Action.{Result, ok, ◌>>=◌, pure, lift}
use gamealerts_collector.Writer.Action.Returns.{Returns, Returns-bind, Returns-bind_lift, ok_pair}
use gamealerts_collector.Writer.Rows.{
  PartitionWriter, Row, pick, event_columns, event_keys, bindable, all_bindable,
}
use gamealerts_collector.Writer.Events.{
  Checked, increasing, max_seq, matches_stored, at_or_below, insert_or_ignore, new_row, store_event,
  append_checked, append_all,
}

module _ (w : PartitionWriter) (match_id : String) where
  -- Every event of the partition that is in the table came before the batch or has a lower seq.
  abbrev pub Precedes : Option ℕ → ℕ → EventRow → Type 0
  Precedes highest n e =
      in_partition w.source match_id e ≡ true → (at_or_below e.seq highest ≡ true) ⊎ (e.seq < n)

  -- What a step of the loop has done, if it has not raised.
  abbrev pub Stores : List EventRow → Checked → Row → ℕ → Db → Db → Type 0
  Stores before c extras n db db' =
      ((n ≡ 0)
        × (db' ≡ db)
        × (stored : EventRow) × (find_event before w.source match_id c.seq ≡ some stored)
        × (matches_stored stored c extras ≡ true))
      ⊎ ((n ≡ 1)
          × (db' ≡ record db { events = db.events ++ new_row w match_id c extras ∷ [] })
          × (find_event db.events w.source match_id c.seq ≡ none)
          × (at_or_below c.seq (max_seq before w.source match_id) ≡ false))

pub find_event-absent :
    (s m : String) (n : ℕ) (es : List EventRow)
    → All (λ e. in_partition s m e ≡ true → e.seq < n) es
    → find_event es s m n ≡ none
unfolding find_event
find_event-absent s m n [] h = refl
find_event-absent s m n (e ∷ es) h = ground (arith, h.0, find_event-absent s m n es h.1)

pub below_of_Precedes :
    (w : PartitionWriter) (m : String) (highest : Option ℕ) (n : ℕ) (es : List EventRow)
    → at_or_below n highest ≡ false
    → All (Precedes w m highest n) es
    → All (λ e. in_partition w.source m e ≡ true → e.seq < n) es
below_of_Precedes w m highest n [] h p = tt
below_of_Precedes w m highest n (e ∷ es) h p =
    (λ q. above highest h (p.0 q), below_of_Precedes w m highest n es h p.1)
  where
    above :
        (o : Option ℕ)
        → at_or_below n o ≡ false
        → (at_or_below e.seq o ≡ true) ⊎ (e.seq < n)
        → e.seq < n
    above none a b = ground arith
    above (some k) a b = ground arith

store_event-Stores :
    (w : PartitionWriter) (m : String) (before : List EventRow) (c : Checked) (extras : Row) (n : ℕ)
    (db db' : Db) (o : Option EventRow)
    → All (Precedes w m (max_seq before w.source m) c.seq) db.events
    → find_event before w.source m c.seq ≡ o
    → store_event w m (max_seq before w.source m) c extras o db ≡ (ok n, db')
    → Stores w m before c extras n db db'
unfolding store_event insert_or_ignore pure lift
store_event-Stores w m before c extras n db db' (some stored) p f h =
    inl (ground arith, ground arith, stored, f, ground arith)
store_event-Stores w m before c extras n db db' none p f h =
    elim (Bool-cases (at_or_below c.seq (max_seq before w.source m))) [
      | inl low ↦ ground arith
      | inr high ↦
          let absent =
            find_event-absent w.source m c.seq db.events
              (below_of_Precedes w m (max_seq before w.source m) c.seq db.events high p) in
          inr (ground (arith, absent), ground (arith, absent), absent, high)
    ]

pub append_checked-Stores :
    (w : PartitionWriter) (m : String) (before : List EventRow) (c : Checked) (n : ℕ) (db db' : Db)
    → All (Precedes w m (max_seq before w.source m) c.seq) db.events
    → Returns (append_checked w m before c) db n db'
    → (extras : Row) × (pick c.row event_columns event_keys ≡ ok extras)
      × Stores w m before c extras n db db'
unfolding append_checked
append_checked-Stores w m before c n db db' p h =
    let (extras, e, k) = Returns-bind_lift (pick c.row event_columns event_keys) _ db n db' h in
    (extras, e, store_event-Stores w m before c extras n db db' _ p refl k)
