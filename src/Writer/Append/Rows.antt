-- ===== src/Writer/Append/Rows.antt =====
-- The rows that append_events of gamecollect/db/writer.py puts behind the table.
use gamealerts_collector.Prelude.{
  ℕ, suc, ◌<◌, String, ◌≡◌, refl, sym, ◌∙◌, ap, true, false, List, [], ◌∷◌, ◌++◌, Option, arith,
  All, All-append, length, ==_iff, string_eq,
}
use mathlib.Core.List.{append_assoc, append-nil}
use gamealerts_collector.Writer.Table.{EventRow, in_partition}
use gamealerts_collector.Writer.Rows.{PartitionWriter}
use gamealerts_collector.Writer.Events.{Checked, max_seq, at_or_below, new_row}
use gamealerts_collector.Writer.Append.Run.{Appends, done, kept, added}

-- A row of the writer's partition with a seq above `highest`.
abbrev pub IsOwn : PartitionWriter → String → Option ℕ → EventRow → Type 0
IsOwn w m highest e = (e.source ≡ w.source) × (e.match_id ≡ m) × (at_or_below e.seq highest ≡ false)

abbrev pub Extends :
    PartitionWriter → String → Option ℕ → List EventRow → ℕ → List EventRow → Type 0
Extends w m highest es n es' =
    (new : List EventRow) × (es' ≡ es ++ new) × (length new ≡ n) × All (IsOwn w m highest) new

pub Appends-Extends :
    {w : PartitionWriter} {m : String} {before : List EventRow} {cs : List Checked}
    {es es' : List EventRow} {n : ℕ}
    → Appends w m before cs es n es'
    → Extends w m (max_seq before w.source m) es n es'
Appends-Extends {es = es} done = ([], sym (append-nil es), refl, tt)
Appends-Extends (kept extras stored e f fits run) = Appends-Extends run
Appends-Extends {w} {m} {es = es} (added {c = c} extras e high below run) =
    let (new, grown, count, own) = Appends-Extends run in
    (
      new_row w m c extras ∷ new,
      grown ∙ append_assoc es (new_row w m c extras ∷ []) new,
      ap suc count,
      ((refl, refl, high), own),
    )

-- Within each partition the seqs of the table grow from row to row.
abbrev pub Follows : EventRow → EventRow → Type 0
Follows e x = in_partition e.source e.match_id x ≡ true → e.seq < x.seq

abbrev pub IsOrdered : List EventRow → Type 0
IsOrdered [] = Unit
IsOrdered (e ∷ es) = All (Follows e) es × IsOrdered es

Follows-new :
    (e r : EventRow) → (in_partition r.source r.match_id e ≡ true → e.seq < r.seq) → Follows e r
Follows-new e r h q = h (
    ground (
      arith,
      ==_iff r.source e.source,
      ==_iff e.source r.source,
      ==_iff r.match_id e.match_id,
      ==_iff e.match_id r.match_id,
    ))

IsOrdered-snoc :
    (es : List EventRow) (r : EventRow)
    → IsOrdered es
    → All (λ e. in_partition r.source r.match_id e ≡ true → e.seq < r.seq) es
    → IsOrdered (es ++ r ∷ [])
IsOrdered-snoc [] r o b = (tt, tt)
IsOrdered-snoc (e ∷ es) r o b =
    (All-append (Follows e) es (r ∷ []) o.0 (Follows-new e r b.0, tt), IsOrdered-snoc es r o.1 b.1)

pub Appends-IsOrdered :
    {w : PartitionWriter} {m : String} {before : List EventRow} {cs : List Checked}
    {es es' : List EventRow} {n : ℕ}
    → Appends w m before cs es n es'
    → IsOrdered es
    → IsOrdered es'
Appends-IsOrdered done o = o
Appends-IsOrdered (kept extras stored e f fits run) o = Appends-IsOrdered run o
Appends-IsOrdered {w} {m} {es = es} (added {c = c} extras e high below run) o =
    Appends-IsOrdered run (IsOrdered-snoc es (new_row w m c extras) o below)
