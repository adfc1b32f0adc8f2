-- ===== src/Writer/Append/Run.antt =====
-- The second loop of append_events of gamecollect/db/writer.py as a run of steps.
use gamealerts_collector.Prelude.{
  ℕ, suc, ◌+◌, ◌<◌, String, ◌≡◌, refl, sym, subst, ◌∙◌, ap, ◌⊎◌, inl, inr, true, false, List, [],
  ◌∷◌, ◌++◌, Option, some, arith, All, All-append, string_eq, nat_eq,
}
use gamealerts_collector.Writer.Table.{EventRow, Db, in_partition, find_event}
use gamealerts_collector.Writer.Action.{ok, pure}
use gamealerts_collector.Writer.Action.Returns.{Returns, Returns-bind, ok_pair}
use gamealerts_collector.Writer.Rows.{PartitionWriter, Row, pick, event_columns, event_keys}
use gamealerts_collector.Writer.Events.{
  Checked, increasing, max_seq, matches_stored, at_or_below, new_row, append_checked, append_all,
}
use gamealerts_collector.Writer.Append.{Precedes, Stores, below_of_Precedes, append_checked-Stores}

-- A batch that is ready: its first seq is above whatever the table has gained from the batch.
abbrev pub IsReady : PartitionWriter → String → Option ℕ → List Checked → List EventRow → Type 0
IsReady w m highest [] es = Unit
IsReady w m highest (c ∷ cs) es = All (Precedes w m highest c.seq) es

Precedes-lt :
    (w : PartitionWriter) (m : String) (highest : Option ℕ) (k n : ℕ) (es : List EventRow)
    → k < n
    → All (Precedes w m highest k) es
    → All (Precedes w m highest n) es
Precedes-lt w m highest k n [] h p = tt
Precedes-lt w m highest k n (e ∷ es) h p =
    (λ q. weaken (p.0 q), Precedes-lt w m highest k n es h p.1)
  where
    weaken :
        (at_or_below e.seq highest ≡ true) ⊎ (e.seq < k)
        → (at_or_below e.seq highest ≡ true) ⊎ (e.seq < n)
    weaken (inl a) = inl a
    weaken (inr b) = inr (omega arith)

IsReady-kept :
    (w : PartitionWriter) (m : String) (highest : Option ℕ) (c : Checked) (cs : List Checked)
    (es : List EventRow)
    → increasing (c ∷ cs) ≡ true
    → All (Precedes w m highest c.seq) es
    → IsReady w m highest cs es
unfolding increasing
IsReady-kept w m highest c [] es i p = tt
IsReady-kept w m highest c (d ∷ cs) es i p = Precedes-lt w m highest c.seq d.seq es (ground arith) p

IsReady-stored :
    (w : PartitionWriter) (m : String) (highest : Option ℕ) (c : Checked) (cs : List Checked)
    (extras : Row) (es : List EventRow)
    → increasing (c ∷ cs) ≡ true
    → All (Precedes w m highest c.seq) es
    → IsReady w m highest cs (es ++ new_row w m c extras ∷ [])
unfolding increasing
IsReady-stored w m highest c [] extras es i p = tt
IsReady-stored w m highest c (d ∷ cs) extras es i p =
    All-append (Precedes w m highest d.seq) es (new_row w m c extras ∷ [])
      (Precedes-lt w m highest c.seq d.seq es (ground arith) p) ((λ q. inr (ground arith)), tt)

increasing_tail :
    (c : Checked) (cs : List Checked) → increasing (c ∷ cs) ≡ true → increasing cs ≡ true
unfolding increasing
increasing_tail c [] h = refl
increasing_tail c (d ∷ cs) h = ground arith

-- The run of the loop over a batch, step by step: an event is in the table already, or it is
-- added above every event of its partition.
pub data Appends (w : PartitionWriter) (m : String) (before : List EventRow)
    : List Checked → List EventRow → ℕ → List EventRow → Type 0 where
  done : {es : List EventRow} → Appends w m before [] es 0 es
  kept :
      {c : Checked} {cs : List Checked} {es es' : List EventRow} {n : ℕ} (extras : Row)
      (stored : EventRow)
      → pick c.row event_columns event_keys ≡ ok extras
      → find_event before w.source m c.seq ≡ some stored
      → matches_stored stored c extras ≡ true
      → Appends w m before cs es n es'
      → Appends w m before (c ∷ cs) es n es'
  added :
      {c : Checked} {cs : List Checked} {es es' : List EventRow} {n : ℕ} (extras : Row)
      → pick c.row event_columns event_keys ≡ ok extras
      → at_or_below c.seq (max_seq before w.source m) ≡ false
      → All (λ e. in_partition w.source m e ≡ true → e.seq < c.seq) es
      → Appends w m before cs (es ++ new_row w m c extras ∷ []) n es'
      → Appends w m before (c ∷ cs) es (suc n) es'

-- Only the events change.
abbrev pub with_events : Db → List EventRow → Db
with_events db es = record db { events = es }

-- What the loop makes of a batch.
abbrev pub Loops : PartitionWriter → String → List EventRow → List Checked → ℕ → Db → Db → Type 0
Loops w m before cs n db db' =
    Appends w m before cs db.events n db'.events × (db' ≡ with_events db db'.events)

loop_step :
    (w : PartitionWriter) (m : String) (before : List EventRow) (c : Checked) (cs : List Checked)
    (a k n : ℕ) (db d db' : Db) (extras : Row)
    → increasing (c ∷ cs) ≡ true
    → All (Precedes w m (max_seq before w.source m) c.seq) db.events
    → pick c.row event_columns event_keys ≡ ok extras
    → a + k ≡ n
    → (IsReady w m (max_seq before w.source m) cs d.events → Loops w m before cs k d db')
    → Stores w m before c extras a db d
    → Loops w m before (c ∷ cs) n db db'
loop_step w m before c cs a k n db d db' extras i p e sum ih (inl (a0, same, stored, f, fits)) =
    let highest = max_seq before w.source m in
    let ready = IsReady-kept w m highest c cs db.events i p in
    let (run, frame) = ih (subst (λ (x : Db). IsReady w m highest cs x.events) (sym same) ready) in
    let run' = subst (λ (x : Db). Appends w m before cs x.events k db'.events) same run in
    let count : k ≡ n = omega arith in
    (
      subst (λ x. Appends w m before (c ∷ cs) db.events x db'.events) count
          (kept extras stored e f fits run'),
      frame ∙ ap (λ (x : Db). with_events x db'.events) same,
    )
loop_step w m before c cs a k n db d db' extras i p e sum ih (inr (a1, more, absent, high)) =
    let highest = max_seq before w.source m in
    let ready = IsReady-stored w m highest c cs extras db.events i p in
    let (run, frame) = ih (subst (λ (x : Db). IsReady w m highest cs x.events) (sym more) ready) in
    let run' = subst (λ (x : Db). Appends w m before cs x.events k db'.events) more run in
    let count : suc k ≡ n = omega arith in
    (
      subst (λ x. Appends w m before (c ∷ cs) db.events x db'.events) count
          (added extras e high (below_of_Precedes w m highest c.seq db.events high p) run'),
      frame ∙ ap (λ (x : Db). with_events x db'.events) more,
    )

pub append_all-Appends :
    (w : PartitionWriter) (m : String) (before : List EventRow) (cs : List Checked) (n : ℕ)
    (db db' : Db)
    → increasing cs ≡ true
    → IsReady w m (max_seq before w.source m) cs db.events
    → Returns (append_all w m before cs) db n db'
    → Loops w m before cs n db db'
unfolding append_all pure
append_all-Appends w m before [] n db db' i p h =
    let (count, same) = ok_pair h in
    (
      subst (λ x. Appends w m before [] db.events x db'.events) count
          (subst (λ x. Appends w m before [] db.events 0 x) (ap (λ (x : Db). x.events) same) done),
      sym same ∙ ap (with_events db) (ap (λ (x : Db). x.events) same),
    )
append_all-Appends w m before (c ∷ cs) n db db' i p h =
    let (a, d, first, later) = Returns-bind (append_checked w m before c) _ db n db' h in
    let (k, d', rest, last) = Returns-bind (append_all w m before cs) _ d n db' later in
    let (extras, e, s) = append_checked-Stores w m before c a db d p first in
    let (sum, same) = ok_pair last in
    loop_step w m before c cs a k n db d db' extras i p e sum
      (λ ready.
        append_all-Appends w m before cs k d db' (increasing_tail c cs i) ready
          (subst (λ (x : Db). Returns (append_all w m before cs) d k x) same rest))
      s
