-- ===== src/Client/Tests.antt =====
-- The events of gamecollect/client.py at concrete rows.
use gamealerts_collector.Prelude.{◌≡◌, refl, inl, [], ◌∷◌, none, some}
use gamealerts_collector.Json.{null, int, str, object, fields_of}
use gamealerts_collector.Writer.Table.{EventRow}
use gamealerts_collector.Writer.Rows.{get_value}
use gamealerts_collector.Engine.Rows.{participant_key, as_str, column_of, entries, read_event}
use gamealerts_collector.Client.{event_from_row}
use gamealerts_collector.Client.Views.{IsWritten, event_from_row-read_event}

-- A goal's row from before the scorer had a key of its own.
abbrev legacy : EventRow
legacy = record {
  source = "wc";
  match_id = "1";
  seq = 0;
  type = str "goal";
  columns =
      int 12
      ∷ null
      ∷ int 1
      ∷ null
      ∷ null
      ∷ null
      ∷ object (fields_of (("player", str "David") ∷ []))
      ∷ [];
}

legacy-IsWritten : IsWritten (entries (column_of "payload" legacy))
unfolding fields_of
legacy-IsWritten = inl refl

event_from_row-read_event_example :
    ((event_from_row legacy).seq ≡ (read_event legacy).seq)
    × ((event_from_row legacy).type ≡ (read_event legacy).event_type)
    × ((event_from_row legacy).minute ≡ (read_event legacy).minute)
    × ((event_from_row legacy).detail ≡ (read_event legacy).detail)
    × (as_str (
          get_value
            (participant_key (event_from_row legacy).type)
            (entries (event_from_row legacy).payload))
        ≡ (read_event legacy).player)
event_from_row-read_event_example = event_from_row-read_event legacy legacy-IsWritten

-- A row whose scorer is null: the engine falls back to the player, and the view does not.
abbrev unknown_scorer : EventRow
unknown_scorer = record legacy {
  columns =
      int 12
      ∷ null
      ∷ int 1
      ∷ null
      ∷ null
      ∷ null
      ∷ object (fields_of (("scorer", null) ∷ ("player", str "David") ∷ []))
      ∷ [];
}

engine_player : (read_event unknown_scorer).player ≡ some "David"
unfolding read_event fields_of
engine_player = refl

view_player : as_str (get_value "scorer" (entries (event_from_row unknown_scorer).payload)) ≡ none
unfolding event_from_row fields_of
view_player = refl
