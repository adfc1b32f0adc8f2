-- ===== src/Football/Orientation.antt =====
-- The turning round of a match in gamecollect_football/reconcile.py.
pub mod Lookup
pub mod Nested
pub mod Turned
use gamealerts_collector.Prelude.{
  ℕ, String, Bool, true, false, not, ◌&&◌, List, [], ◌∷◌, Option, none, some, if◌then◌else◌, ◌==◌,
  string_eq,
}
use gamealerts_collector.Dict.{Dict, get, insert, remove}
use gamealerts_collector.Json.{
  Value, null, bool, int, float, str, array, object, Fields, end, field, Items, nil, cons, Payload,
  fields_of, value_eq,
}
use gamealerts_collector.Provider.{NormalizedMatch}
use gamealerts_collector.Fold.{Unicode}
use gamealerts_collector.Engine.Rows.{entries}
use gamealerts_collector.Football.Names.{canonical_team_name}

-- the values under two keys change places; a key without a value is popped
unfoldable pub swap_keys : String → String → Payload → Payload
unfolding insert remove
swap_keys home away d = elim (get home d) [
  | none ↦ elim (get away d) [ none ↦ d | some w ↦ remove away (insert home w d) ]
  | some v ↦ elim (get away d) [
    | none ↦ insert away v (remove home d)
    | some w ↦ insert away v (insert home w d)
  ]
]

-- _flip_side_value
unfoldable pub flip_side_value : Value → Value
flip_side_value value =
    if value == str "home" then str "away" else if value == str "away" then str "home" else value

-- `if key in flipped: flipped[key] = f(flipped[key])`
unfoldable pub update_key : (Value → Value) → String → Payload → Payload
unfolding insert
update_key f key d = elim (get key d) [ none ↦ d | some v ↦ insert key (f v) d ]

-- what becomes of a dict whose values are turned round
unfoldable pub flip_dict : Payload → Payload
unfolding swap_keys update_key flip_side_value
flip_dict d =
    update_key flip_side_value "homeAway"
      (update_key flip_side_value "home_away" (swap_keys "home" "away" d))

-- _flip_nested_home_away
unfoldable mutual
  unfolding flip_dict fields_of

  pub flip_nested_home_away : Value → Value
  flip_nested_home_away (array xs) = array (flip_items xs)
  flip_nested_home_away (object fs) = object (fields_of (flip_dict (flip_fields fs)))
  flip_nested_home_away null = null
  flip_nested_home_away (bool b) = bool b
  flip_nested_home_away (int n) = int n
  flip_nested_home_away (float s) = float s
  flip_nested_home_away (str s) = str s

  pub flip_items : Items → Items
  flip_items nil = nil
  flip_items (cons x xs) = cons (flip_nested_home_away x) (flip_items xs)

  pub flip_fields : Fields → Payload
  flip_fields end = []
  flip_fields (field k v fs) = (k, flip_nested_home_away v) ∷ flip_fields fs

-- the pairs of keys and the side of the winner
unfoldable pub flip_flat : Payload → Payload
unfolding swap_keys update_key flip_side_value
flip_flat payload = update_key flip_side_value "pen_winner_side" (
    swap_keys "score_pen_home" "score_pen_away" (swap_keys "score_ht_home" "score_ht_away" payload))

-- _flip_home_away_payload
unfoldable pub flip_home_away_payload : Payload → Payload
unfolding flip_flat flip_nested_home_away
flip_home_away_payload payload = update_key flip_nested_home_away "formations" (
    update_key flip_nested_home_away "lineups"
      (update_key flip_nested_home_away "stats" (flip_flat payload)))

-- _is_reverse_oriented
unfoldable pub is_reverse_oriented :
    Unicode → NormalizedMatch → Option String → Option String → Bool
unfolding canonical_team_name
is_reverse_oriented u match none away = false
is_reverse_oriented u match (some home) none = false
is_reverse_oriented u match (some home) (some away) = elim match.home_team [
  | none ↦ false
  | some provider_home ↦ elim match.away_team [
    | none ↦ false
    | some provider_away ↦
        let key = canonical_team_name u in
        not (home == "")
        && (not (away == "")
            && (not (provider_home == "")
                && (not (provider_away == "")
                    && (not (key home == key away)
                        && (key provider_home == key away && key provider_away == key home)))))
  ]
]

-- _home_away_view
unfoldable pub home_away_view : NormalizedMatch → Bool → Option ℕ × (Option ℕ × Payload)
unfolding flip_home_away_payload
home_away_view match reverse_oriented =
    if reverse_oriented
    then (match.score_away, (match.score_home, flip_home_away_payload match.payload))
    else (match.score_home, (match.score_away, match.payload))
