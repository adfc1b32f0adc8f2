-- ===== src/Engine/Poll/State.antt =====
-- The state of _fetch_poll_snapshots of gamecollect/engine.py, and what it reads. Beside the code's
-- own variables the model keeps the calls of fetch_match_detail, in order.
use gamealerts_collector.Prelude.{
  ℕ, suc, String, Bool, List, [], ◌∷◌, ◌++◌, Option, none, some, if◌then◌else◌,
}
use gamealerts_collector.Dict.{Dict, get, insert}
use gamealerts_collector.Provider.{NormalizedMatch}
use gamealerts_collector.Writer.Table.{Db}
use gamealerts_collector.Engine.Tracking.{Tracker, Tracking}
use gamealerts_collector.Engine.Stored.{stored_match_snapshot}
use gamealerts_collector.Engine.GiveUp.{emit_give_up, emit_backfill_give_up}

-- _BACKFILL_MAX_FETCHES_PER_POLL
abbrev pub backfill_max_fetches_per_poll : ℕ
backfill_max_fetches_per_poll = 5

-- what fetch_match_detail returns or raises
pub data Fetched : Type 0 where
  fetched : NormalizedMatch → Fetched
  unavailable shape_drift : Fetched

-- what a poll reads and does not change until it applies its snapshots
pub record View : Type 0 where
  pub source : String
  pub default_seed : Bool
  pub backfill_finished_matches : Bool
  pub last : Dict NormalizedMatch
  pub db : Db
  pub fetch_match_detail : String → Fetched

-- a call of fetch_match_detail
pub record Request : Type 0 where
  pub match_id : String
  pub is_backfill : Bool

pub record Poll : Type 0 where
  pub tracking : Tracking
  pub apply_pending : List String
  pub live_resumptions : List String
  pub backfill_fetches : ℕ
  pub hydrated : List NormalizedMatch
  pub requests : List Request

-- `hydrated.append(match)`
abbrev pub queue : NormalizedMatch → Poll → Poll
queue match p = record p { hydrated = p.hydrated ++ match ∷ [] }

abbrev pub queue_if_some : Option NormalizedMatch → Poll → Poll
queue_if_some none p = p
queue_if_some (some match) p = queue match p

abbrev pub request : String → Bool → Poll → Poll
request id is_backfill p = record p {
  requests = p.requests ++ record { match_id = id; is_backfill = is_backfill } ∷ [];
}

abbrev pub stored_snapshot : View → String → Option NormalizedMatch
stored_snapshot v id = stored_match_snapshot v.default_seed v.source v.db id

-- the call of _emit_give_up
unfoldable pub give_up : View → String → Tracker → Option NormalizedMatch → Poll → Poll
give_up v id tracker fresh p =
    let (out, t) =
      emit_give_up id tracker fresh (get id v.last) (stored_snapshot v id) p.tracking in
    queue_if_some out (record p { tracking = t })

abbrev pub mark_pending : String → Bool → List String → List String
mark_pending id b ids = if b then id ∷ ids else ids

-- the call of _emit_backfill_give_up
unfoldable pub backfill_give_up : View → String → Tracker → Option NormalizedMatch → Poll → Poll
backfill_give_up v id tracker fresh p =
    let (out, (pending, t)) =
      emit_backfill_give_up id tracker fresh (get id v.last) (stored_snapshot v id) p.tracking in
    queue_if_some out
      (record p { tracking = t; apply_pending = mark_pending id pending p.apply_pending })

-- a tracker written back to its dict
abbrev pub put_tracker : String → Tracker → Poll → Poll
put_tracker id found p = record p {
  tracking = record p.tracking { transitions = insert id found p.tracking.transitions };
}

-- a backfill tracker written back to its dict
abbrev pub put_backfill : String → Tracker → Poll → Poll
put_backfill id found p = record p {
  tracking = record p.tracking { backfill = insert id found p.tracking.backfill };
}

-- `_backfill_apply_pending.add(id)`, for a backfill
abbrev pub note_pending : Bool → String → Poll → Poll
note_pending is_backfill id p =
    if is_backfill then record p { apply_pending = id ∷ p.apply_pending } else p

-- a detail fetch of the loop over the slate, with its count
abbrev pub charge : String → Bool → Poll → Poll
charge id is_backfill p = record (request id is_backfill p) {
  backfill_fetches = if is_backfill then suc p.backfill_fetches else p.backfill_fetches;
}
