-- ===== src/Writer/Batches.antt =====
-- append_events of gamecollect/db/writer.py as a whole.
use gamealerts_collector.Prelude.{
  ℕ, String, ◌≡◌, refl, sym, subst, ◌∙◌, ap, inl, Bool, true, not, List, [], ◌∷◌, Option, none,
  some, arith, All, All-map, ==_iff, string_eq,
}
use gamealerts_collector.Writer.Table.{EventRow, Db, owner, in_partition}
use gamealerts_collector.Writer.Action.{
  ok, ◌>>=◌, pure, lift, gets, transaction, raise_if, Error, sequence_error,
}
use gamealerts_collector.Writer.Action.Returns.{
  Returns, Returns-bind, Returns-bind_lift, Returns-transaction, ok_pair,
}
use gamealerts_collector.Writer.Rows.{PartitionWriter, Row}
use gamealerts_collector.Writer.Matches.{assert_match_owned}
use gamealerts_collector.Writer.Events.{
  Checked, check_events, increasing, max_seq, at_or_below, append_all, append_events,
}
use gamealerts_collector.Writer.Append.{Precedes}
use gamealerts_collector.Writer.Append.Run.{IsReady, with_events, Loops, append_all-Appends}
use gamealerts_collector.Writer.Append.Rows.{Extends, Appends-Extends, IsOrdered, Appends-IsOrdered}
use gamealerts_collector.Writer.Append.Repoll.{Holds, Appends-Holds, append_all-Holds}
use mathlib.Core.List.{append-nil}

max_seq_mono :
    (s m : String) (n : ℕ) (e : EventRow) (es : List EventRow)
    → at_or_below n (max_seq es s m) ≡ true
    → at_or_below n (max_seq (e ∷ es) s m) ≡ true
unfolding max_seq
max_seq_mono s m n e es h = ground arith

max_seq_head :
    (s m : String) (e : EventRow) (es : List EventRow)
    → in_partition s m e ≡ true
    → at_or_below e.seq (max_seq (e ∷ es) s m) ≡ true
unfolding max_seq
max_seq_head s m e es h = ground arith

-- No event of a partition is above its largest seq.
pub max_seq-upper :
    (s m : String) (es : List EventRow)
    → All (λ e. in_partition s m e ≡ true → at_or_below e.seq (max_seq es s m) ≡ true) es
max_seq-upper s m [] = tt
max_seq-upper s m (e ∷ es) = (
  max_seq_head s m e es,
  All-map (λ x. in_partition s m x ≡ true → at_or_below x.seq (max_seq es s m) ≡ true)
      (λ x. in_partition s m x ≡ true → at_or_below x.seq (max_seq (e ∷ es) s m) ≡ true) es
      (λ x h p. max_seq_mono s m x.seq e es (h p)) (max_seq-upper s m es),
)

IsReady-start :
    (w : PartitionWriter) (m : String) (cs : List Checked) (es : List EventRow)
    → IsReady w m (max_seq es w.source m) cs es
IsReady-start w m [] es = tt
IsReady-start w m (c ∷ cs) es =
    All-map
      (λ x. in_partition w.source m x ≡ true → at_or_below x.seq (max_seq es w.source m) ≡ true)
      (Precedes w m (max_seq es w.source m) c.seq) es (λ x h p. inl (h p))
      (max_seq-upper w.source m es)

pub assert_match_owned-Returns :
    (w : PartitionWriter) (m : String) (a : Unit {0}) (db d : Db)
    → Returns (assert_match_owned w m true) db a d
    → (owner db m ≡ some w.source) × (db ≡ d)
unfolding assert_match_owned
assert_match_owned-Returns w m a db d h = owned (owner db m) refl
  where
    owned : (o : Option String) → owner db m ≡ o → (owner db m ≡ some w.source) × (db ≡ d)
    owned none e = ground arith
    owned (some s) e = ground (arith, ==_iff s w.source)

raise_if-ok : (b : Bool) (x : Error) (a : Unit {0}) → raise_if (not b) x ≡ ok a → b ≡ true
raise_if-ok b x a h = ground arith

-- What a batch that is accepted has passed, and what it has done.
abbrev pub Accepted : PartitionWriter → String → List Row → List Checked → ℕ → Db → Db → Type 0
Accepted w m rows cs n db db' =
    (check_events w m rows ≡ ok cs)
    × (increasing cs ≡ true)
    × (owner db m ≡ some w.source)
    × Loops w m db.events cs n db db'

pub append_events-Accepted :
    (w : PartitionWriter) (m : String) (row : Row) (rows : List Row) (n : ℕ) (db db' : Db)
    → Returns (append_events w m (row ∷ rows)) db n db'
    → (cs : List Checked) × Accepted w m (row ∷ rows) cs n db db'
unfolding append_events gets
append_events-Accepted w m row rows n db db' h =
    let (cs, checked, h1) = Returns-bind_lift (check_events w m (row ∷ rows)) _ db n db' h in
    let (u, sorted, h2) =
      Returns-bind_lift (raise_if (not (increasing cs)) sequence_error) _ db n db' h1 in
    let (u', d, asserted, h3) = Returns-bind (assert_match_owned w m true) _ db n db' h2 in
    let (owned, same) = assert_match_owned-Returns w m u' db d asserted in
    let (before, d', read, h4) = Returns-bind (gets (λ x. x.events)) _ d n db' h3 in
    let up = raise_if-ok (increasing cs) sequence_error u sorted in
    let (now, still) = ok_pair read in
    let ran = Returns-transaction (append_all w m before cs) d' n db' h4 in
    let same' : db ≡ d' = same ∙ still in
    let events : db.events ≡ before = ap (λ (x : Db). x.events) same ∙ now in
    let ran' = subst (λ x. Returns (append_all w m x cs) d' n db') (sym events) ran in
    let ran'' = subst (λ x. Returns (append_all w m db.events cs) x n db') (sym same') ran' in
    (
      cs,
      (
        checked,
        up,
        owned,
        append_all-Appends w m db.events cs n db db' up (IsReady-start w m cs db.events) ran'',
      ),
    )

-- If append_events returns n, then the events table is the one before with exactly n rows
-- put behind it, each of the writer's source and of the given match, with a seq above every
-- seq that the partition held; and no other table changes.
pub append_events-Extends :
    (w : PartitionWriter) (m : String) (rows : List Row) (n : ℕ) (db db' : Db)
    → Returns (append_events w m rows) db n db'
    → Extends w m (max_seq db.events w.source m) db.events n db'.events
      × (db' ≡ with_events db db'.events)
append_events-Extends w m [] n db db' h = no_rows (unfold append_events pure in ok_pair h)
  where
    no_rows :
        (0 ≡ n) × (db ≡ db')
        → Extends w m (max_seq db.events w.source m) db.events n db'.events
          × (db' ≡ with_events db db'.events)
    no_rows (count, same) = (
      ([], sym (ap (λ (x : Db). x.events) same) ∙ sym (append-nil db.events), count, tt),
      sym same ∙ ap (with_events db) (ap (λ (x : Db). x.events) same),
    )
append_events-Extends w m (row ∷ rows) n db db' h =
    let (cs, acc) = append_events-Accepted w m row rows n db db' h in
    (Appends-Extends acc.3.0, acc.3.1)

pub append_events-IsOrdered :
    (w : PartitionWriter) (m : String) (rows : List Row) (n : ℕ) (db db' : Db)
    → Returns (append_events w m rows) db n db'
    → IsOrdered db.events
    → IsOrdered db'.events
append_events-IsOrdered w m [] n db db' h o =
    let same : db ≡ db' = unfold append_events pure in (ok_pair h).1 in
    subst (λ (x : Db). IsOrdered x.events) same o
append_events-IsOrdered w m (row ∷ rows) n db db' h o =
    let (cs, acc) = append_events-Accepted w m row rows n db db' h in Appends-IsOrdered acc.3.0 o

-- The batch, once accepted, is accepted again, with nothing added.
repoll :
    (w : PartitionWriter) (m : String) (row : Row) (rows : List Row) (cs : List Checked) (db : Db)
    → check_events w m (row ∷ rows) ≡ ok cs
    → increasing cs ≡ true
    → owner db m ≡ some w.source
    → All (Holds w m db.events) cs
    → Returns (append_events w m (row ∷ rows)) db 0 db
unfolding append_events gets lift assert_match_owned transaction ◌>>=◌
repoll w m row rows cs db checked up owned holds =
    rw (checked, up, owned, (==_iff w.source w.source).1 refl, append_all-Holds w m cs db holds)

pub owner-with_events :
    (db : Db) (m : String) (es : List EventRow) → owner (with_events db es) m ≡ owner db m
unfolding owner
owner-with_events db m es = refl

-- A batch that append_events accepts is accepted a second time, which inserts nothing and
-- changes nothing: a re-poll of the same events is idempotent.
pub append_events_again :
    (w : PartitionWriter) (m : String) (rows : List Row) (n : ℕ) (db db' : Db)
    → Returns (append_events w m rows) db n db'
    → Returns (append_events w m rows) db' 0 db'
append_events_again w m [] n db db' h = unfold append_events pure in refl
append_events_again w m (row ∷ rows) n db db' h =
    let (cs, acc) = append_events-Accepted w m row rows n db db' h in
    let holds = Appends-Holds (λ k e q. q) acc.3.0 in
    repoll w m row rows cs db' acc.0 acc.1 (owned_after acc.3.1 acc.2) holds
  where
    owned_after :
        db' ≡ with_events db db'.events → owner db m ≡ some w.source → owner db' m ≡ some w.source
    owned_after frame owned =
        ap (λ (x : Db). owner x m) frame ∙ owner-with_events db m db'.events ∙ owned
