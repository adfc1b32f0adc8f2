-- ===== src/Writer/Append/Repoll.antt =====
-- append_events of gamecollect/db/writer.py on events that the table holds.
use gamealerts_collector.Prelude.{
  ℕ, String, ◌≡◌, refl, ◌∙◌, true, List, [], ◌∷◌, ◌++◌, none, some, arith, All, ◌==◌, ==_iff,
  string_eq, nat_eq, ◌&&◌,
}
use gamealerts_collector.Writer.Table.{EventRow, Db, in_partition, find_event}
use gamealerts_collector.Writer.Action.{ok, ◌>>=◌, pure}
use gamealerts_collector.Writer.Action.Returns.{Returns, bind-of_Returns}
use gamealerts_collector.Writer.Rows.{PartitionWriter, Row, pick, event_columns, event_keys}
use gamealerts_collector.Writer.Events.{
  Checked, new_row, matches_stored, store_event, append_checked, append_all, event_values,
  values_eq,
}
use gamealerts_collector.Json.{value_eq}
use gamealerts_collector.Writer.Append.{find_event-absent}
use gamealerts_collector.Writer.Append.Run.{Appends, done, kept, added}

-- The table holds the event under its fingerprint.
abbrev pub Holds : PartitionWriter → String → List EventRow → Checked → Type 0
Holds w m es c =
    (extras : Row) × (pick c.row event_columns event_keys ≡ ok extras)
    × (stored : EventRow) × (find_event es w.source m c.seq ≡ some stored)
    × (matches_stored stored c extras ≡ true)

-- What the key finds, it finds in any longer table.
find_event-append :
    (s m : String) (n : ℕ) (es xs : List EventRow) (e : EventRow)
    → find_event es s m n ≡ some e
    → find_event (es ++ xs) s m n ≡ some e
unfolding find_event
find_event-append s m n [] xs e h = cc
find_event-append s m n (x ∷ es) xs e h = ground (arith, find_event-append s m n es xs e)

find_event-snoc :
    (s m : String) (n : ℕ) (es : List EventRow) (e : EventRow)
    → find_event es s m n ≡ none
    → (in_partition s m e && e.seq == n) ≡ true
    → find_event (es ++ e ∷ []) s m n ≡ some e
unfolding find_event
find_event-snoc s m n [] e h k = rw k
find_event-snoc s m n (x ∷ es) e h k = ground (arith, find_event-snoc s m n es e)

Appends-grows :
    {w : PartitionWriter} {m : String} {before : List EventRow} {cs : List Checked}
    {es es' : List EventRow} {n : ℕ} (s : String) (k : ℕ) (e : EventRow)
    → Appends w m before cs es n es'
    → find_event es s m k ≡ some e
    → find_event es' s m k ≡ some e
Appends-grows s k e done h = h
Appends-grows s k e (kept extras stored _ f fits run) h = Appends-grows s k e run h
Appends-grows {w} {m} {es = es} s k e (added {c = c} extras _ high below run) h =
    Appends-grows s k e run (find_event-append s m k es (new_row w m c extras ∷ []) e h)

new_row-fits :
    (w : PartitionWriter) (m : String) (c : Checked) (extras : Row)
    → matches_stored (new_row w m c extras) c extras ≡ true
unfolding matches_stored
new_row-fits w m c extras =
    rw ((==_iff c.type c.type).1 refl, (==_iff (event_values extras) (event_values extras)).1 refl)

new_row-key :
    (w : PartitionWriter) (m : String) (c : Checked) (extras : Row)
    → (in_partition w.source m (new_row w m c extras) && c.seq == c.seq) ≡ true
new_row-key w m c extras = ground (arith, ==_iff w.source w.source, ==_iff m m)

pub Appends-Holds :
    {w : PartitionWriter} {m : String} {before : List EventRow} {cs : List Checked}
    {es es' : List EventRow} {n : ℕ}
    → ((k : ℕ) (e : EventRow)
        → find_event before w.source m k ≡ some e
        → find_event es w.source m k ≡ some e)
    → Appends w m before cs es n es'
    → All (Holds w m es') cs
Appends-Holds p done = tt
Appends-Holds {w} p (kept {c = c} extras stored e f fits run) = (
  (extras, e, stored, Appends-grows w.source c.seq stored run (p c.seq stored f), fits),
  Appends-Holds p run,
)
Appends-Holds {w} {m} {es = es} p (added {c = c} extras e high below run) =
    let row = new_row w m c extras in
    let absent = find_event-absent w.source m c.seq es below in
    (
      (
        extras,
        e,
        row,
        Appends-grows w.source c.seq row run
            (find_event-snoc w.source m c.seq es row absent (new_row-key w m c extras)),
        new_row-fits w m c extras,
      ),
      Appends-Holds (λ k x q. find_event-append w.source m k es (row ∷ []) x (p k x q)) run,
    )

append_checked-Holds :
    (w : PartitionWriter) (m : String) (c : Checked) (db : Db)
    → Holds w m db.events c
    → Returns (append_checked w m db.events c) db 0 db
unfolding append_checked store_event ◌>>=◌
append_checked-Holds w m c db (extras, e, stored, f, fits) = rw (e, f, fits)

-- Where the table holds every event of a batch, the loop ends with the count 0.
pub append_all-Holds :
    (w : PartitionWriter) (m : String) (cs : List Checked) (db : Db)
    → All (Holds w m db.events) cs
    → Returns (append_all w m db.events cs) db 0 db
unfolding append_all pure
append_all-Holds w m [] db h = refl
append_all-Holds w m (c ∷ cs) db h =
    bind-of_Returns (append_checked w m db.events c) _ db 0 db (append_checked-Holds w m c db h.0)
    ∙ bind-of_Returns (append_all w m db.events cs) _ db 0 db (append_all-Holds w m cs db h.1)
