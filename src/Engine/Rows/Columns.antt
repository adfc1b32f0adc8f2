-- ===== src/Engine/Rows/Columns.antt =====
-- The columns of one event's row, written by _event_to_row and read by _stored_events of
-- gamecollect/engine.py.
use gamealerts_collector.Prelude.{
  ℕ, String, ◌≡◌, refl, ◌∙◌, ap, Bool, true, false, [], ◌∷◌, Option, none, some, arith, string_eq,
  nat_eq, if◌then◌else◌,
}
use gamealerts_collector.Json.{
  Value, int, null, str, value_eq, Payload, fields_of, sort_value, insert_field,
}
use gamealerts_collector.Provider.{NormalizedEvent}
use gamealerts_collector.Writer.Table.{EventRow}
use gamealerts_collector.Writer.Rows.{get_value, picked, event_columns}
use gamealerts_collector.Writer.Events.{Checked, event_values, values_eq}
use gamealerts_collector.Engine.Rows.{
  goal_family, event_payload, event_to_row, read_event, payload_entry, opt_int, opt_str, as_int,
  as_str, entries, read_player, present,
}

-- What the writer makes of an event's row.
abbrev pub checked_of : NormalizedEvent → Checked
checked_of e = record { seq = e.seq; type = str e.event_type; row = event_to_row e }

-- The row that the table holds for an event.
abbrev pub row_of : String → String → NormalizedEvent → EventRow
row_of source match_id e = record {
  source = source;
  match_id = match_id;
  seq = e.seq;
  type = str e.event_type;
  columns = event_values (picked event_columns (event_to_row e));
}

-- The payload that is stored for a participant key, a team, a player and an assist.
abbrev stored_payload : Bool → Option String → Option String → Option String → Value
stored_payload goal team player assist =
    let key = if goal then "scorer" else "player" in
    get_value "payload" (
      picked ("payload" ∷ [])
        (payload_entry (present (("team", team) ∷ (key, player) ∷ ("assist", assist) ∷ []))))

abbrev IsReadBack : Bool → Option String → Option String → Option String → Type 0
IsReadBack goal team player assist =
    let extras = entries (stored_payload goal team player assist) in
    (as_str (get_value "team" extras) ≡ team)
    × (read_player goal extras ≡ player)
    × (as_str (get_value "assist" extras) ≡ assist)

stored_payload-IsReadBack :
    (goal : Bool) (team player assist : Option String) → IsReadBack goal team player assist
unfolding picked present fields_of sort_value insert_field
stored_payload-IsReadBack true none none none = (refl, refl, refl)
stored_payload-IsReadBack true none none (some a) = (refl, refl, refl)
stored_payload-IsReadBack true none (some p) none = (refl, refl, refl)
stored_payload-IsReadBack true none (some p) (some a) = (refl, refl, refl)
stored_payload-IsReadBack true (some t) none none = (refl, refl, refl)
stored_payload-IsReadBack true (some t) none (some a) = (refl, refl, refl)
stored_payload-IsReadBack true (some t) (some p) none = (refl, refl, refl)
stored_payload-IsReadBack true (some t) (some p) (some a) = (refl, refl, refl)
stored_payload-IsReadBack false none none none = (refl, refl, refl)
stored_payload-IsReadBack false none none (some a) = (refl, refl, refl)
stored_payload-IsReadBack false none (some p) none = (refl, refl, refl)
stored_payload-IsReadBack false none (some p) (some a) = (refl, refl, refl)
stored_payload-IsReadBack false (some t) none none = (refl, refl, refl)
stored_payload-IsReadBack false (some t) none (some a) = (refl, refl, refl)
stored_payload-IsReadBack false (some t) (some p) none = (refl, refl, refl)
stored_payload-IsReadBack false (some t) (some p) (some a) = (refl, refl, refl)

pub as_int-opt_int : (o : Option ℕ) → as_int (opt_int o) ≡ o
as_int-opt_int none = refl
as_int-opt_int (some n) = refl

pub as_str-opt_str : (o : Option String) → as_str (opt_str o) ≡ o
as_str-opt_str none = refl
as_str-opt_str (some n) = refl

event_eq :
    (a b : NormalizedEvent)
    → a.seq ≡ b.seq
    → a.minute ≡ b.minute
    → a.event_type ≡ b.event_type
    → a.importance ≡ b.importance
    → a.detail ≡ b.detail
    → (a.team ≡ b.team) × (a.player ≡ b.player) × (a.assist ≡ b.assist)
    → a ≡ b
event_eq a b p q r s t u = ground arith

-- The columns of an event's row, in the order of the table.
columns_of :
    (e : NormalizedEvent) (p : Payload)
    → event_values (
        picked event_columns (
          ("seq", int e.seq)
          ∷ ("type", str e.event_type)
          ∷ ("minute", opt_int e.minute)
          ∷ ("importance", int e.importance)
          ∷ ("detail", opt_str e.detail)
          ∷ payload_entry p))
      ≡ opt_int e.minute
        ∷ null
        ∷ int e.importance
        ∷ null
        ∷ null
        ∷ opt_str e.detail
        ∷ get_value "payload" (picked ("payload" ∷ []) (payload_entry p))
        ∷ []
unfolding picked
columns_of e [] = refl
columns_of e (x ∷ p) = refl

IsReadBack-event_payload :
    (e : NormalizedEvent)
    → let extras =
        entries (get_value "payload" (picked ("payload" ∷ []) (payload_entry (event_payload e)))) in
      (as_str (get_value "team" extras) ≡ e.team)
      × (read_player (goal_family e.event_type) extras ≡ e.player)
      × (as_str (get_value "assist" extras) ≡ e.assist)
unfolding event_payload
IsReadBack-event_payload e =
    stored_payload-IsReadBack (goal_family e.event_type) e.team e.player e.assist

pub read_event-row_of : (s m : String) (e : NormalizedEvent) → read_event (row_of s m e) ≡ e
unfolding read_event event_to_row
read_event-row_of s m e =
    ap (λ columns. read_event (record (row_of s m e) { columns = columns }))
      (columns_of e (event_payload e))
    ∙ event_eq _ e refl (as_int-opt_int e.minute) refl refl (as_str-opt_str e.detail)
        (IsReadBack-event_payload e)
