-- ===== src/Writer/Matches.antt =====
-- PartitionWriter: the matches table and the map of provider ids. Ids are texts; `now` is the
-- clock that _utcnow reads.
use gamealerts_collector.Prelude.{
  String, Bool, true, false, not, ◌&&◌, List, [], ◌∷◌, ◌++◌, Option, none, some, ◌==◌, string_eq,
  if◌then◌else◌,
}
use gamealerts_collector.Dict.{get, contains, insert}
use gamealerts_collector.Json.{Value, str}
use gamealerts_collector.Writer.Table.{MatchRow, ProviderRow, owner}
use gamealerts_collector.Writer.Action.{
  type_error, interface_error, cross_partition_error, unseeded_match_error, Result, ok, err, Action,
  ◌>>=◌, ◌>>◌, lift, modify, raise_if, transaction,
}
use gamealerts_collector.Writer.Rows.{
  PartitionWriter, Row, check_source, require, pick, match_columns, match_keys, all_bindable,
}

-- an id or a key that is bound as a text
abbrev pub as_text : Value → Result String
as_text (str s) = ok s
as_text _ = err type_error

-- _assert_match_owned
abbrev pub owned_by : PartitionWriter → Bool → Option String → Result (Unit {0})
owned_by w require_seeded none = raise_if require_seeded unseeded_match_error
owned_by w require_seeded (some source) = raise_if (not (source == w.source)) cross_partition_error

unfoldable pub assert_match_owned : PartitionWriter → String → Bool → Action (Unit {0})
assert_match_owned w match_id require_seeded db =
    (owned_by w require_seeded (owner db match_id), db)

-- `provided.setdefault(key, value)`
unfoldable pub set_default : String → Value → Row → Row
set_default key value row = if contains key row then row else row ++ (key, value) ∷ []

-- `UPDATE … SET col = excluded.col` for each column that is provided
unfoldable pub update_columns : Row → Row → Row
update_columns columns [] = columns
update_columns columns ((col, v) ∷ provided) = update_columns (insert col v columns) provided

-- The INSERT … ON CONFLICT (match_id) DO UPDATE … WHERE matches.source = excluded.source; the
-- count of rows is 0 where the guard fails.
abbrev pub upsert_row : PartitionWriter → Row → Option MatchRow → Option MatchRow
upsert_row w provided none = some (record { source = w.source; columns = provided })
upsert_row w provided (some row) =
    if row.source == w.source
    then some (record row { columns = update_columns row.columns provided })
    else none

unfoldable pub execute_match_upsert : PartitionWriter → String → Row → Action (Unit {0})
unfolding update_columns
execute_match_upsert w match_id provided db =
    if not (all_bindable provided)
    then (err interface_error, db)
    else elim (upsert_row w provided (get match_id db.matches)) [
      | none ↦ (err cross_partition_error, db)
      | some row ↦ (ok tt, record db { matches = insert match_id row db.matches })
    ]

unfoldable pub upsert_match : PartitionWriter → String → Row → Action (Unit {0})
unfolding check_source require pick set_default assert_match_owned owner transaction
    execute_match_upsert
upsert_match w now match = do
  lift (check_source w match)
  match_id ← lift (require match "match_id")
  match_id ← lift (as_text match_id)
  provided ← lift (pick match match_columns match_keys)
  let provided = set_default "updated_at" (str now) provided
  assert_match_owned w match_id false
  transaction (execute_match_upsert w match_id provided)

-- `ON CONFLICT (source, provider, provider_match_id) DO UPDATE SET match_id = excluded.match_id`
unfoldable pub put_provider : ProviderRow → List ProviderRow → List ProviderRow
put_provider r [] = r ∷ []
put_provider r (x ∷ xs) =
    if x.source == r.source
      && (x.provider == r.provider && x.provider_match_id == r.provider_match_id)
    then r ∷ xs
    else x ∷ put_provider r xs

unfoldable pub map_provider_match : PartitionWriter → String → String → String → Action (Unit {0})
unfolding assert_match_owned owner transaction
map_provider_match w provider provider_match_id match_id = do
  assert_match_owned w match_id true
  transaction (
      modify (λ db. record db {
        provider_match_map =
            put_provider
              (record {
                source = w.source;
                provider = provider;
                provider_match_id = provider_match_id;
                match_id = match_id;
              })
              db.provider_match_map;
      }))
