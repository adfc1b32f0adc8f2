-- ===== src/Football/Seeding.antt =====
-- seed_or_reconcile_match of gamecollect_football/reconcile.py, the seed hook of the football pack,
-- with register_unreconciled_match and the resolution of a provider's id. What
-- datetime.fromisoformat makes of a kickoff is a parameter, as its number of seconds.
pub mod Contract
use Prim.Native.String.String.{◌∷◌ as char, [] as no_text}
use gamealerts_collector.Prelude.{
  ℕ, ◌+◌, String, Bool, true, false, not, ◌&&◌, ◌||◌, List, [], ◌∷◌, Option, none, some, filter,
  leb, is_some, if◌then◌else◌, ◌==◌, string_eq, option_eq,
}
use gamealerts_collector.Dict.{get, insert}
use gamealerts_collector.Json.{
  Value, str, object, Payload, fields_of, merge_payload_preserving_richer,
}
use gamealerts_collector.Provider.{status_value, NormalizedMatch}
use gamealerts_collector.Fold.{Unicode}
use gamealerts_collector.Writer.Table.{MatchRow, ProviderRow, Db, owner}
use gamealerts_collector.Writer.Action.{Action, ok, pure, gets, modify, ◌>>=◌, ◌>>◌}
use gamealerts_collector.Writer.Rows.{PartitionWriter, Row, get_value}
use gamealerts_collector.Writer.Matches.{upsert_match, map_provider_match}
use gamealerts_collector.Engine.Rows.{opt_int, opt_str, as_str}
use gamealerts_collector.Engine.Stored.{qualified}
use gamealerts_collector.Reader.{list_matches, get_entity}
use gamealerts_collector.Seed.{get_stored_payload, put_name}
use gamealerts_collector.Football.Names.{canonical_display_name}
use gamealerts_collector.Football.Nearest.{KickoffCandidate, reconcile_by_kickoff}
use gamealerts_collector.Football.Orientation.{is_reverse_oriented, home_away_view}
use gamealerts_collector.Football.Adoption.{adopt_stub_rows}

-- what the hook works with
pub record Hook : Type 0 where
  pub unicode : Unicode
  pub instant : String → Option ℕ
  pub provider : String
  pub writer : PartitionWriter
  pub now : String

-- `":" in text`
unfoldable pub has_colon : String → Bool
has_colon no_text = false
has_colon (char c text) = let rest = has_colon text in (char c no_text) == ":" || rest

-- a name that is not empty
abbrev pub known : Option String → Option String
known none = none
known (some name) = if name == "" then none else some name

abbrev pub all_three :
    Option String → Option String → Option String → Option (String × (String × String))
all_three (some a) (some b) (some c) = some (a, (b, c))
all_three _ _ _ = none

-- the two teams and the kickoff, if all of them are known
abbrev pub identity : NormalizedMatch → Option (String × (String × String))
identity match = all_three (known match.home_team) (known match.away_team) (known match.kickoff_utc)

-- _lookup_provider_match
unfoldable pub lookup_provider_match : String → String → String → List ProviderRow → Option String
lookup_provider_match source provider id [] = none
lookup_provider_match source provider id (p ∷ ps) =
    if p.source == source && (p.provider == provider && p.provider_match_id == id)
    then some p.match_id
    else lookup_provider_match source provider id ps

-- `DELETE FROM provider_match_map WHERE …`
abbrev pub purge : String → String → String → Db → Db
purge source provider id db = record db {
  provider_match_map =
      filter
        (λ (p : ProviderRow).
          not (p.source == source && (p.provider == provider && p.provider_match_id == id)))
        db.provider_match_map;
}

-- the display name of an entity
unfoldable pub entity_name : Db → String → Option String → Option String
unfolding get_entity
entity_name db source none = none
entity_name db source (some id) = elim (get_entity db.entities source id) [
  | none ↦ none
  | some e ↦ as_str (get_value "display_name" e.columns)
]

-- one name of _candidate_team_names: the payload's, or else the entity's
abbrev pub team_name : Db → String → Option String → Option String → Option String
team_name db source payload_name entity = elim (known payload_name) [
  | some name ↦ some name
  | none ↦ elim (known entity) [ none ↦ payload_name | some id ↦ entity_name db source (some id) ]
]

unfoldable pub kickoff_candidate : Hook → Db → String × MatchRow → ℕ → KickoffCandidate
unfolding get_stored_payload entity_name
kickoff_candidate hook db (match_id, row) kickoff =
    let payload = get_stored_payload match_id db in
    record {
      match_id = match_id;
      home_team =
          team_name db row.source (as_str (get_value "home_team" payload))
            (as_str (get_value "home_entity" row.columns));
      away_team =
          team_name db row.source (as_str (get_value "away_team" payload))
            (as_str (get_value "away_entity" row.columns));
      kickoff = some kickoff;
    }

-- _KICKOFF_WINDOW_MINUTES, in seconds
abbrev pub kickoff_window : ℕ
kickoff_window = 10800

abbrev pub parsed : Hook → Option String → Option ℕ
parsed hook text = elim (known text) [ none ↦ none | some t ↦ hook.instant t ]

-- the body of the loop of _matches_in_kickoff_window
unfoldable pub in_window : Hook → Db → ℕ → List (String × MatchRow) → List KickoffCandidate
unfolding kickoff_candidate has_colon
in_window hook db target [] = []
in_window hook db target ((match_id, row) ∷ rows) =
    let rest = in_window hook db target rows in
    if has_colon match_id
    then rest
    else elim (parsed hook (as_str (get_value "kickoff_utc" row.columns))) [
      | none ↦ rest
      | some kickoff ↦
          if leb target (kickoff + kickoff_window) && leb kickoff (target + kickoff_window)
          then kickoff_candidate hook db (match_id, row) kickoff ∷ rest
          else rest
    ]

-- _matches_in_kickoff_window, with no candidates where the kickoff cannot be parsed
unfoldable pub matches_in_kickoff_window : Hook → Db → String → List KickoffCandidate
unfolding in_window list_matches
matches_in_kickoff_window hook db kickoff = elim (parsed hook (some kickoff)) [
  | none ↦ []
  | some target ↦ in_window hook db target (list_matches db (some hook.writer.source) none)
]

-- step (c): by the kickoff and the teams
unfoldable pub by_kickoff : Hook → NormalizedMatch → Db → Option String
unfolding matches_in_kickoff_window reconcile_by_kickoff
by_kickoff hook match db = elim (identity match) [
  | none ↦ none
  | some (home, (away, kickoff)) ↦
      reconcile_by_kickoff
        (record {
          unicode = hook.unicode;
          home_team = home;
          away_team = away;
          instant = parsed hook (some kickoff);
        })
        (matches_in_kickoff_window hook db kickoff)
]

-- steps (b) to (d)
unfoldable pub resolve_uncached : Hook → NormalizedMatch → Db → Option String × Bool
unfolding by_kickoff owner
resolve_uncached hook match db =
    let stub = qualified hook.writer.source match.match_id in
    if owner db match.match_id == some hook.writer.source
    then (some match.match_id, true)
    else elim (by_kickoff hook match db) [
      | some canonical ↦ (some canonical, true)
      | none ↦ if is_some (get stub db.matches) then (some stub, false) else (none, false)
    ]

-- _resolve_canonical_match_id_deferred
unfoldable pub resolve_deferred : Hook → NormalizedMatch → Action (Option String × Bool)
unfolding lookup_provider_match resolve_uncached
resolve_deferred hook match db =
    let source = hook.writer.source in
    elim (lookup_provider_match source hook.provider match.match_id db.provider_match_map) [
      | none ↦ (ok (resolve_uncached hook match db), db)
      | some cached ↦
          let purged = purge source hook.provider match.match_id db in
          if cached == qualified source match.match_id
          then (ok (resolve_uncached hook match purged), purged)
          else (ok (some cached, false), db)
    ]

-- the payload that is stored, with the canonical display names
unfoldable pub unreconciled_payload : NormalizedMatch → String → String → Payload → Payload
unfolding merge_payload_preserving_richer canonical_display_name insert
unreconciled_payload match home away stored =
    insert "away_team" (str (canonical_display_name away)) (
      insert "home_team" (str (canonical_display_name home))
        (merge_payload_preserving_richer stored match.payload))

-- the row of a match that is not reconciled
unfoldable pub unreconciled_row : NormalizedMatch → String → String → Payload → Row
unreconciled_row match id kickoff payload =
    ("match_id", str id)
    ∷ ("kickoff_utc", str kickoff)
    ∷ ("payload", object (fields_of payload))
    ∷ ("status", str (status_value match.status))
    ∷ ("minute", opt_int match.minute)
    ∷ ("score_home", opt_int match.score_home)
    ∷ ("score_away", opt_int match.score_away)
    ∷ ("display_clock", opt_str match.display_clock)
    ∷ []

-- register_unreconciled_match, where home_team, away_team and kickoff_utc are known
unfoldable pub register_known :
    Hook → NormalizedMatch → String → String → String → Action (Option String)
unfolding get_stored_payload unreconciled_payload unreconciled_row upsert_match
register_known hook match home away kickoff = do
  let id = qualified hook.writer.source match.match_id
  stored ← gets (get_stored_payload id)
  upsert_match hook.writer hook.now
      (unreconciled_row match id kickoff (unreconciled_payload match home away stored))
  pure (some id)

-- register_unreconciled_match
unfoldable pub register_unreconciled_match : Hook → NormalizedMatch → Action (Option String)
unfolding register_known
register_unreconciled_match hook match = elim (identity match) [
  | none ↦ pure none
  | some (home, (away, kickoff)) ↦ register_known hook match home away kickoff
]

-- a name that the schedule owns, or else the snapshot's
abbrev pub owned_name : String → Option String → Option String → Payload → Payload
owned_name key scheduled name payload = elim (known scheduled) [
  | some s ↦ put_name key (some s) payload
  | none ↦ elim (known name) [
    | none ↦ payload
    | some n ↦ put_name key (some (canonical_display_name n)) payload
  ]
]

-- the stored payload, with what the view adds, and the names
unfoldable pub reconciled_payload :
    NormalizedMatch → Option String → Option String → Payload → Payload → Payload
unfolding merge_payload_preserving_richer canonical_display_name insert
reconciled_payload match scheduled_home scheduled_away stored payload =
    owned_name "away_team" scheduled_away match.away_team (
      owned_name "home_team" scheduled_home match.home_team
        (merge_payload_preserving_richer stored payload))

-- the row of a match that is reconciled
unfoldable pub reconciled_row : NormalizedMatch → String → Option ℕ → Option ℕ → Payload → Row
reconciled_row match id score_home score_away payload =
    ("match_id", str id)
    ∷ ("payload", object (fields_of payload))
    ∷ ("status", str (status_value match.status))
    ∷ ("minute", opt_int match.minute)
    ∷ ("score_home", opt_int score_home)
    ∷ ("score_away", opt_int score_away)
    ∷ ("display_clock", opt_str match.display_clock)
    ∷ []

-- `if cache_pending: writer.map_provider_match(…)`
unfoldable pub cache_mapping : Hook → String → String → Bool → Action (Unit {0})
unfolding map_provider_match
cache_mapping hook id canonical false = pure tt
cache_mapping hook id canonical true = map_provider_match hook.writer hook.provider id canonical

-- what follows an adoption that is not refused
unfoldable pub seed_canonical :
    Hook
    → NormalizedMatch
    → String
    → Bool
    → Bool
    → Option String
    → Option String
    → Action (Option String)
unfolding cache_mapping get_stored_payload reconciled_row reconciled_payload home_away_view
    upsert_match
seed_canonical hook match canonical pending reverse scheduled_home scheduled_away = do
  cache_mapping hook match.match_id canonical pending
  stored ← gets (get_stored_payload canonical)
  let view = home_away_view match reverse
  let payload = reconciled_payload match scheduled_home scheduled_away stored view.1.1
  upsert_match hook.writer hook.now (reconciled_row match canonical view.0 view.1.0 payload)
  pure (some canonical)

-- what follows an adoption that is refused
unfoldable pub keep_stub : Hook → NormalizedMatch → Action (Option String)
unfolding register_unreconciled_match
keep_stub hook match = do
  modify (purge hook.writer.source hook.provider match.match_id)
  register_unreconciled_match hook match

-- the adoption, where there is a stub to adopt
unfoldable pub adopt : Hook → NormalizedMatch → String → Bool → Action Bool
unfolding adopt_stub_rows
adopt hook match canonical reverse db =
    let stub = qualified hook.writer.source match.match_id in
    if canonical == stub
    then (ok true, db)
    else (let (adopted, db') = adopt_stub_rows reverse hook.writer.source stub canonical db in
        (ok adopted, db'))

unfoldable pub seed_resolved :
    Hook → NormalizedMatch → Option String × Bool → Action (Option String)
unfolding get_stored_payload is_reverse_oriented adopt keep_stub seed_canonical
    register_unreconciled_match
seed_resolved hook match (none, pending) = register_unreconciled_match hook match
seed_resolved hook match (some canonical, pending) = do
  stored ← gets (get_stored_payload canonical)
  let home = as_str (get_value "home_team" stored)
  let away = as_str (get_value "away_team" stored)
  let reverse = is_reverse_oriented hook.unicode match home away
  adopted ← adopt hook match canonical reverse
  if adopted
      then seed_canonical hook match canonical pending reverse home away
      else keep_stub hook match

-- seed_or_reconcile_match
unfoldable pub seed_or_reconcile_match : Hook → NormalizedMatch → Action (Option String)
unfolding resolve_deferred seed_resolved
seed_or_reconcile_match hook match = do
  resolved ← resolve_deferred hook match
  seed_resolved hook match resolved
