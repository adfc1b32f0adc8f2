-- ===== src/Writer/Events.antt =====
-- append_events and append_event of PartitionWriter (gamecollect/db/writer.py).
use gamealerts_collector.Prelude.{
  ℕ, ◌+◌, String, Bool, true, false, not, ◌&&◌, List, [], ◌∷◌, ◌++◌, map, Option, none, some, max,
  ltb, leb, ◌==◌, Eq, string_eq, nat_eq, if◌then◌else◌, dec_beq, dec_beq_iff,
}
use gamealerts_collector.Json.{Value, null, int, str, array, object, Value-discrete, value_eq}
use gamealerts_collector.Writer.Table.{EventRow, in_partition, find_event}
use gamealerts_collector.Writer.Action.{
  value_error, interface_error, sequence_error, taxonomy_error, type_error, Result, ok, err, Action,
  ◌>>=◌, ◌>>◌, pure, lift, gets, raise_if, transaction,
}
use gamealerts_collector.Writer.Rows.{
  PartitionWriter, Row, get_value, check_source, require, one_of, pick, event_columns, event_keys,
  bindable, all_bindable,
}
use gamealerts_collector.Writer.Matches.{assert_match_owned, as_text}

-- an event of the batch that passed the checks, with its `seq` and `type`
pub record Checked : Type 0 where
  pub seq : ℕ
  pub type : Value
  pub row : Row

-- `isinstance(seq, int) and not isinstance(seq, bool)`
abbrev as_seq : Value → Result ℕ
as_seq (int n) = ok n
as_seq _ = err sequence_error

-- `event_type not in self._taxonomy`, where there is one; a list or a dict has no hash
abbrev check_type : Option (List String) → Value → Result (Unit {0})
check_type none v = ok tt
check_type (some types) (str s) = raise_if (not (one_of types s)) taxonomy_error
check_type (some types) (array xs) = err type_error
check_type (some types) (object fs) = err type_error
check_type (some types) v = err taxonomy_error

-- the body of the first loop of append_events
unfoldable pub check_event : PartitionWriter → String → Row → Result Checked
unfolding check_source require one_of
check_event w match_id event =
    let declared = get_value "match_id" event in
    elim (check_source w event) [
      | err e ↦ err e
      | ok _ ↦
          if not (declared == null) && not (declared == str match_id)
          then err value_error
          else elim (require event "seq") [
            | err e ↦ err e
            | ok value ↦ elim (as_seq value) [
              | err e ↦ err e
              | ok seq ↦ elim (require event "type") [
                | err e ↦ err e
                | ok type ↦ elim (check_type w.taxonomy type) [
                  | err e ↦ err e
                  | ok _ ↦ ok (record { seq = seq; type = type; row = event })
                ]
              ]
            ]
          ]
    ]

unfoldable pub check_events : PartitionWriter → String → List Row → Result (List Checked)
unfolding check_event
check_events w match_id [] = ok []
check_events w match_id (event ∷ events) =
    let rest = check_events w match_id events in
    elim (check_event w match_id event) [
      | err e ↦ err e
      | ok c ↦ elim rest [ err e ↦ err e | ok cs ↦ ok (c ∷ cs) ]
    ]

-- `sorted(set(seqs)) == seqs`
unfoldable pub increasing : List Checked → Bool
increasing [] = true
increasing (c ∷ []) = true
increasing (c ∷ d ∷ cs) = ltb c.seq d.seq && increasing (d ∷ cs)

-- `SELECT MAX(seq) FROM events WHERE source = ? AND match_id = ?`
abbrev max_of : ℕ → Option ℕ → Option ℕ
max_of n none = some n
max_of n (some m) = some (max n m)

unfoldable pub max_seq : List EventRow → String → String → Option ℕ
max_seq [] source match_id = none
max_seq (e ∷ es) source match_id =
    let rest = max_seq es source match_id in
    if in_partition source match_id e then max_of e.seq rest else rest

-- `{col: extras.get(col) for col in _EVENT_COLUMNS}`
abbrev pub event_values : Row → List Value
event_values extras = map (λ col. get_value col extras) event_columns

unfoldable pub Values-discrete : Discrete (List Value)
unfolding Value-discrete
Values-discrete = hlevel Value-discrete

instance abbrev pub values_eq : Eq (List Value)
values_eq = record { same = dec_beq Values-discrete; same_iff = dec_beq_iff Values-discrete }

-- the stored row and the event have one fingerprint
unfoldable pub matches_stored : EventRow → Checked → Row → Bool
matches_stored stored c extras = stored.type == c.type && stored.columns == event_values extras

-- `max_seq is not None and seq <= max_seq`
abbrev pub at_or_below : ℕ → Option ℕ → Bool
at_or_below seq none = false
at_or_below seq (some m) = leb seq m

-- INSERT OR IGNORE: an event whose key is there is left alone, and the count of rows is 0
unfoldable pub insert_or_ignore : EventRow → Action ℕ
insert_or_ignore e db = elim (find_event db.events e.source e.match_id e.seq) [
  | some _ ↦ (ok 0, db)
  | none ↦ (ok 1, record db { events = db.events ++ e ∷ [] })
]

abbrev pub new_row : PartitionWriter → String → Checked → Row → EventRow
new_row w match_id c extras = record {
  source = w.source;
  match_id = match_id;
  seq = c.seq;
  type = c.type;
  columns = event_values extras;
}

-- A seq that is stored under its fingerprint is passed over; any other seq must be above the
-- partition's largest.
unfoldable pub store_event :
    PartitionWriter → String → Option ℕ → Checked → Row → Option EventRow → Action ℕ
store_event w match_id highest c extras (some stored) =
    if matches_stored stored c extras then pure 0 else lift (err sequence_error)
store_event w match_id highest c extras none =
    if at_or_below c.seq highest
    then lift (err sequence_error)
    else if not (bindable c.type && all_bindable extras)
    then lift (err interface_error)
    else insert_or_ignore (new_row w match_id c extras)

-- The body of the second loop. `before` is the table that the SELECTs above the loop read.
unfoldable pub append_checked : PartitionWriter → String → List EventRow → Checked → Action ℕ
append_checked w match_id before c = do
  extras ← lift (pick c.row event_columns event_keys)
  store_event w match_id (max_seq before w.source match_id) c extras
      (find_event before w.source match_id c.seq)

unfoldable pub append_all : PartitionWriter → String → List EventRow → List Checked → Action ℕ
append_all w match_id before [] = pure 0
append_all w match_id before (c ∷ cs) = do
  inserted ← append_checked w match_id before c
  rest ← append_all w match_id before cs
  pure (inserted + rest)

unfoldable pub append_events : PartitionWriter → String → List Row → Action ℕ
append_events w match_id [] = pure 0
append_events w match_id (event ∷ events) = do
  checked ← lift (check_events w match_id (event ∷ events))
  lift (raise_if (not (increasing checked)) sequence_error)
  assert_match_owned w match_id true
  before ← gets (λ db. db.events)
  transaction (append_all w match_id before checked)

unfoldable pub append_event : PartitionWriter → Row → Action ℕ
append_event w event = do
  match_id ← lift (require event "match_id")
  match_id ← lift (as_text match_id)
  append_events w match_id (event ∷ [])
