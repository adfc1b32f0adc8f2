-- ===== src/Client/Views.antt =====
-- The events of gamecollect/client.py beside those that gamecollect/engine.py reads.
use gamealerts_collector.Prelude.{
  ◌≡◌, refl, ◌⊎◌, inl, inr, Bool, Bool-cases, true, false, not, ◌&&◌, String, [], Option, none,
  some, if◌then◌else◌, arith,
}
use gamealerts_collector.Dict.{get, contains, remove, get-insert_self}
use gamealerts_collector.Json.{Value, null, bool, int, float, str, array, object, Payload}
use gamealerts_collector.FallbackMerge.{or_else}
use gamealerts_collector.Fixture.RoundTrip.{entries-fields_of}
use gamealerts_collector.Writer.Table.{EventRow}
use gamealerts_collector.Writer.Rows.{get_value}
use gamealerts_collector.Engine.Rows.{
  goal_family, participant_key, as_str, entries, column_of, read_player, read_event,
}
use gamealerts_collector.Client.{
  rename_player, normalize_fields, normalize_legacy_payload, event_from_row, type_of,
}

-- The payload has a scorer that is a text, or no scorer.
abbrev pub IsWritten : Payload → Type 0
IsWritten payload =
    (get "scorer" payload ≡ none) ⊎ ((s : String) × (get "scorer" payload ≡ some (str s)))

participant-normalize_fields :
    (goal : Bool) (type : String) (payload : Payload)
    → goal_family type ≡ goal
    → IsWritten payload
    → as_str (get_value (participant_key type) (normalize_fields type payload))
      ≡ read_player goal payload
unfolding normalize_fields participant_key
participant-normalize_fields false type payload g h = rw g refl
participant-normalize_fields true type payload g (inr (s, e)) = ground arith
participant-normalize_fields true type payload g (inl e) = by_player (get "player" payload) refl
  where
    by_player :
        (o : Option Value)
        → get "player" payload ≡ o
        → as_str (
            get_value (if goal_family type then "scorer" else "player") (
              if goal_family type && (not (contains "scorer" payload) && contains "player" payload)
              then rename_player payload
              else payload))
          ≡ or_else (as_str (get_value "scorer" payload)) (as_str (get_value "player" payload))
    by_player none n = ground arith
    by_player (some v) n = ground (arith, get-insert_self "scorer" v (remove "player" payload))

nothing :
    (type : String)
    → as_str (get_value (participant_key type) []) ≡ read_player (goal_family type) []
nothing type = elim (Bool-cases (goal_family type)) [ inl e ↦ rw e refl | inr e ↦ rw e refl ]

participant-normalize_legacy_payload :
    (type : String) (payload : Value)
    → IsWritten (entries payload)
    → as_str (get_value (participant_key type) (entries (normalize_legacy_payload type payload)))
      ≡ read_player (goal_family type) (entries payload)
unfolding normalize_legacy_payload
participant-normalize_legacy_payload type (object fs) h =
    rw (entries-fields_of (normalize_fields type (entries (object fs))))
      (participant-normalize_fields (goal_family type) type (entries (object fs)) refl h)
participant-normalize_legacy_payload type null h = nothing type
participant-normalize_legacy_payload type (bool b) h = nothing type
participant-normalize_legacy_payload type (int n) h = nothing type
participant-normalize_legacy_payload type (float s) h = nothing type
participant-normalize_legacy_payload type (str s) h = nothing type
participant-normalize_legacy_payload type (array xs) h = nothing type

-- If a stored payload has no scorer, or one that is a text, the event that a client gets
-- has the seq, the type, the minute, the detail and, under the participant key of its type,
-- the player that the engine reads from the same row, for the rows of goals from before the
-- scorer had a key too.
pub event_from_row-read_event :
    (row : EventRow)
    → IsWritten (entries (column_of "payload" row))
    → ((event_from_row row).seq ≡ (read_event row).seq)
      × ((event_from_row row).type ≡ (read_event row).event_type)
      × ((event_from_row row).minute ≡ (read_event row).minute)
      × ((event_from_row row).detail ≡ (read_event row).detail)
      × (as_str (
            get_value
              (participant_key (event_from_row row).type)
              (entries (event_from_row row).payload))
          ≡ (read_event row).player)
unfolding event_from_row read_event
event_from_row-read_event row h = (
  refl,
  refl,
  refl,
  refl,
  participant-normalize_legacy_payload (type_of row) (column_of "payload" row) h,
)
