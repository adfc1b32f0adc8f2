-- ===== src/Engine/Reconcile.antt =====
-- _append_new_events and _reconcile_sequence_conflict of gamecollect/engine.py, with the memory of
-- the drifts that were logged (_drift_signature, _log_drift_once). The rows of a batch are those
-- of _event_to_row, as at the only call, so their seqs are ints.
pub mod Drift
pub mod Growth
pub mod Above
pub mod Head
pub mod Turn
pub mod Progress
use gamealerts_collector.Prelude.{
  ℕ, String, Bool, true, false, List, [], ◌∷◌, ◌++◌, map, Option, none, some, max, if◌then◌else◌,
  Eq, ◌==◌, nat_eq, option_eq, string_discrete, ℕ_discrete, dec_beq, dec_beq_iff,
}
use gamealerts_collector.Dict.{Dict, get, insert}
use gamealerts_collector.Json.{Value, Value-discrete, text_le}
use gamealerts_collector.Provider.{NormalizedEvent, NormalizedMatch}
use gamealerts_collector.Diffing.{MatchDiff}
use gamealerts_collector.Writer.Table.{Db}
use gamealerts_collector.Writer.Action.{Error, sequence_error, Result, ok, err}
use gamealerts_collector.Writer.Rows.{PartitionWriter, Row}
use gamealerts_collector.Writer.Events.{append_events, at_or_below}
use gamealerts_collector.Engine.Rows.{event_to_row, stored_events}

pub data DriftKind : Type 0 where
  conflict retroactive malformed : DriftKind

-- the text of _drift_signature: the kind, and the row's items in the order of their keys
abbrev pub Signature : Type 0
Signature = DriftKind × Row

unfoldable pub Signature-discrete : Discrete Signature
unfolding string_discrete Value-discrete
Signature-discrete = hlevel (string_discrete, Value-discrete)

instance abbrev pub signature_eq : Eq Signature
signature_eq = record {
  same = dec_beq Signature-discrete;
  same_iff = dec_beq_iff Signature-discrete;
}

unfoldable pub insert_item : String → Value → Row → Row
insert_item k v [] = (k, v) ∷ []
insert_item k v ((j, x) ∷ row) =
    if text_le k j then (k, v) ∷ (j, x) ∷ row else (j, x) ∷ insert_item k v row

unfoldable pub sorted_items : Row → Row
unfolding insert_item
sorted_items [] = []
sorted_items ((k, v) ∷ row) = insert_item k v (sorted_items row)

unfoldable pub drift_signature : DriftKind → Row → Signature
unfolding sorted_items
drift_signature kind row = (kind, sorted_items row)

pub data Level : Type 0 where
  warning error : Level

-- a line of the log
pub record Report : Type 0 where
  pub level : Level
  pub match_id : String
  pub seq : ℕ

-- `_logged_drift[match]`, from a seq to the signature that was logged last
abbrev pub Signatures : Type 0
Signatures = List (ℕ × Signature)

abbrev pub signature_of : ℕ → Signatures → Option Signature
signature_of seq [] = none
signature_of seq ((n, s) ∷ rest) = if n == seq then some s else signature_of seq rest

unfoldable pub put_signature : ℕ → Signature → Signatures → Signatures
put_signature seq s [] = (seq, s) ∷ []
put_signature seq s ((n, t) ∷ rest) =
    if n == seq then (n, s) ∷ rest else (n, t) ∷ put_signature seq s rest

unfoldable pub drop_signature : ℕ → Signatures → Signatures
drop_signature seq [] = []
drop_signature seq ((n, t) ∷ rest) =
    let others = drop_signature seq rest in if n == seq then others else (n, t) ∷ others

-- `_logged_drift`, `_drifted_this_poll` and the log
pub record Memory : Type 0 where
  pub logged : Dict Signatures
  pub drifted : List String
  pub reports : List Report

-- `_logged_drift.get(match, {})`
abbrev pub signatures : String → Memory → Signatures
signatures match_id memory = elim (get match_id memory.logged) [ none ↦ [] | some s ↦ s ]

abbrev pub level_of : Option Signature → Signature → Level
level_of known s = if known == some s then warning else error

-- _log_drift_once; writing a signature that is there changes nothing
unfoldable pub log_drift_once : String → ℕ → Signature → Memory → Memory
unfolding put_signature
log_drift_once match_id seq s memory =
    let known = signatures match_id memory in
    record {
      logged = insert match_id (put_signature seq s known) memory.logged;
      drifted = match_id ∷ memory.drifted;
      reports =
          record { level = level_of (signature_of seq known) s; match_id = match_id; seq = seq }
          ∷ memory.reports;
    }

-- `_logged_drift.get(match, {}).pop(seq, None)`
unfoldable pub clear_drift : String → ℕ → Memory → Memory
unfolding drop_signature
clear_drift match_id seq memory = elim (get match_id memory.logged) [
  | none ↦ memory
  | some s ↦ record memory { logged = insert match_id (drop_signature seq s) memory.logged }
]

-- what _reconcile_sequence_conflict has at each turn of its loop
pub record Loop : Type 0 where
  pub db : Db
  pub memory : Memory
  pub head : Option ℕ
  pub stored_seqs : List ℕ
  pub appended : List ℕ

-- `seq in seqs`
unfoldable pub seen : ℕ → List ℕ → Bool
seen seq [] = false
seen seq (n ∷ seqs) = if n == seq then true else seen seq seqs

-- `max(seqs) if seqs else None`
abbrev pub raise_head : ℕ → Option ℕ → Option ℕ
raise_head seq none = some seq
raise_head seq (some n) = some (max n seq)

unfoldable pub highest : List ℕ → Option ℕ
highest [] = none
highest (n ∷ seqs) = raise_head n (highest seqs)

-- the duplicate-in-snapshot WARNING
abbrev pub warn_duplicate : String → ℕ → Memory → Memory
warn_duplicate match_id seq memory = record memory {
  reports = record { level = warning; match_id = match_id; seq = seq } ∷ memory.reports;
}

module _ (provider_match_id : String) (event : NormalizedEvent) (loop : Loop) where
  abbrev pub drifts : DriftKind → Memory
  drifts kind =
      log_drift_once provider_match_id event.seq (drift_signature kind (event_to_row event))
        loop.memory

  -- the `try` over a seq that is stored
  abbrev pub after_stored : Result ℕ × Db → Result (Unit {0}) × Loop
  after_stored (ok n, db) =
      (ok tt, record loop { db = db; memory = clear_drift provider_match_id event.seq loop.memory })
  after_stored (err sequence_error, db) = (ok tt, record loop { db = db; memory = drifts conflict })
  after_stored (err e, db) = (err e, record loop { db = db })

  -- the `try` over a seq beyond the head
  abbrev pub after_new : Result ℕ × Db → Result (Unit {0}) × Loop
  after_new (ok n, db) = (
    ok tt,
    record loop {
      db = db;
      head = raise_head event.seq loop.head;
      stored_seqs = event.seq ∷ loop.stored_seqs;
      appended = event.seq ∷ loop.appended;
    },
  )
  after_new (err sequence_error, db) = (ok tt, record loop { db = db; memory = drifts malformed })
  after_new (err e, db) = (err e, record loop { db = db })

-- the body of the loop
unfoldable pub reconcile_event :
    PartitionWriter → String → String → NormalizedEvent → Loop → Result (Unit {0}) × Loop
unfolding seen
reconcile_event w seeded_id provider_match_id event loop =
    let append = append_events w seeded_id (event_to_row event ∷ []) loop.db in
    if at_or_below event.seq loop.head
    then (if seen event.seq loop.appended
        then (
          ok tt,
          record loop { memory = warn_duplicate provider_match_id event.seq loop.memory },
        )
        else if seen event.seq loop.stored_seqs
        then after_stored provider_match_id event loop append
        else (ok tt, record loop { memory = drifts provider_match_id event loop retroactive }))
    else after_new provider_match_id event loop append

unfoldable pub reconcile_events :
    PartitionWriter → String → String → List NormalizedEvent → Loop → Result (Unit {0}) × Loop
reconcile_events w seeded_id provider_match_id [] loop = (ok tt, loop)
reconcile_events w seeded_id provider_match_id (event ∷ events) loop =
    let (r, next) = reconcile_event w seeded_id provider_match_id event loop in
    elim r [
      | err e ↦ (err e, next)
      | ok _ ↦ reconcile_events w seeded_id provider_match_id events next
    ]

unfoldable pub start_loop : PartitionWriter → String → Db → Memory → Loop
unfolding highest
start_loop w seeded_id db memory =
    let seqs = map (λ (e : NormalizedEvent). e.seq) (stored_events w seeded_id db) in
    record { db = db; memory = memory; head = highest seqs; stored_seqs = seqs; appended = [] }

unfoldable pub reconcile_sequence_conflict :
    PartitionWriter
    → String
    → String
    → List NormalizedEvent
    → Db
    → Memory
    → Result (List NormalizedEvent) × Loop
unfolding start_loop
reconcile_sequence_conflict w seeded_id provider_match_id events db memory =
    let (r, loop) =
      reconcile_events w seeded_id provider_match_id events (start_loop w seeded_id db memory) in
    (elim r [ err e ↦ err e | ok _ ↦ ok (stored_events w seeded_id loop.db) ], loop)

-- The baseline, the database and the memory after _append_new_events.
abbrev pub Appended : Type 0
Appended = Result NormalizedMatch × (Db × Memory)

abbrev pub rebased : NormalizedMatch → Result (List NormalizedEvent) × Loop → Appended
rebased match (ok events, loop) = (ok (record match { events = events }), (loop.db, loop.memory))
rebased match (err e, loop) = (err e, (loop.db, loop.memory))

abbrev pub after_batch : PartitionWriter → String → MatchDiff → Memory → Result ℕ × Db → Appended
after_batch w seeded_id diff memory (ok n, db) = (ok diff.match, (db, memory))
after_batch w seeded_id diff memory (err sequence_error, db) =
    rebased diff.match
      (reconcile_sequence_conflict w seeded_id diff.match.match_id diff.new_events db memory)
after_batch w seeded_id diff memory (err e, db) = (err e, (db, memory))

unfoldable pub append_new_events : PartitionWriter → String → MatchDiff → Db → Memory → Appended
append_new_events w seeded_id diff db memory =
    after_batch w seeded_id diff memory
      (append_events w seeded_id (map event_to_row diff.new_events) db)
