-- ===== src/Writer/Upserts.antt =====
-- What upsert_match of gamecollect/db/writer.py makes of the columns of a match.
use gamealerts_collector.Prelude.{
  String, ◌≡◌, refl, sym, ap, ◌∙◌, subst, Bool, true, false, not, [], ◌++◌, Option, none, some,
  if◌then◌else◌, ◌==◌, ==_iff, string_eq, arith,
}
use gamealerts_collector.Dict.{get, insert, IsDict, get-insert, get-insert_self}
use gamealerts_collector.Json.{Value, null, str, value_eq}
use gamealerts_collector.Writer.Table.{MatchRow, Db, owner}
use gamealerts_collector.Writer.Action.{
  value_error, interface_error, cross_partition_error, Result, ok, err,
}
use gamealerts_collector.Writer.Action.Returns.{
  Returns, Returns-bind, Returns-bind_lift, Returns-transaction,
}
use gamealerts_collector.Writer.Rows.{
  PartitionWriter, Row, one_of, picked, pick, all_known, all_bindable, get_value, check_source,
  require, match_columns, match_keys,
}
use gamealerts_collector.Writer.Matches.{
  as_text, set_default, update_columns, upsert_row, assert_match_owned, execute_match_upsert,
  upsert_match,
}
use gamealerts_collector.Writer.Columns.{
  or_value, encoded, get-picked, get-set_default, get-update_columns, match_columns-Distinct,
  picked-IsDict, set_default-IsDict, or_value-none, or_value-or_value,
}

-- what a caller provides for a column
abbrev pub provided : String → Row → Option Value
provided col row = if one_of match_columns col then encoded col (get col row) else none

-- the columns of a match, of which a match without a row has none
abbrev pub columns_of : String → Db → Row
columns_of id db = elim (get id db.matches) [ none ↦ [] | some row ↦ row.columns ]

-- What a column must hold after the upsert: the value that the caller provides, or else, for
-- updated_at, the clock, or else what the stored row has there.
abbrev pub column_after : String → String → Row → Db → String → Option Value
column_after now id row db k =
    or_value (provided k row)
      (or_value (if "updated_at" == k then some (str now) else none) (get k (columns_of id db)))

-- The row of the match is the writer's, holds the columns of the upsert, and no other row of
-- the table is touched.
abbrev pub IsUpserted : PartitionWriter → String → String → Row → Db → Db → Type 0
IsUpserted w now id row db after =
    (owner after id ≡ some w.source)
    × ((k : String) → get k (columns_of id after) ≡ column_after now id row db k)
    × ((j : String)
        → get j after.matches ≡ (if id == j then get id after.matches else get j db.matches))

execute_match_upsert-Stores :
    (w : PartitionWriter) (id : String) (values : Row) (db after : Db) (a : Unit {0})
    → Returns (execute_match_upsert w id values) db a after
    → (row : MatchRow) × (upsert_row w values (get id db.matches) ≡ some row)
      × (insert id row db.matches ≡ after.matches)
unfolding execute_match_upsert
execute_match_upsert-Stores w id values db after a h =
    by_bindable (all_bindable values) (upsert_row w values (get id db.matches)) refl h
  where
    by_bindable :
        (b : Bool) (o : Option MatchRow)
        → upsert_row w values (get id db.matches) ≡ o
        → let out : Result (Unit {0}) × Db =
            if not b then (err interface_error, db) else elim o as (λ _. Result (Unit {0}) × Db) [
              | none ↦ (err cross_partition_error, db)
              | some row ↦ (ok tt, record db { matches = insert id row db.matches })
            ] in
          ◌≡◌ {A = Result (Unit {0}) × Db} out (ok a, after)
          → (row : MatchRow) × (upsert_row w values (get id db.matches) ≡ some row)
            × (insert id row db.matches ≡ after.matches)
    by_bindable false o e k = cc
    by_bindable true none e k = cc
    by_bindable true (some row) e k = (row, e, ap (λ (p : Result (Unit {0}) × Db). p.1.matches) k)

some_row : (a b : MatchRow) → some a ≡ some b → a ≡ b
some_row a b h = cc

picked_as :
    (row values : Row)
    → pick row match_columns match_keys ≡ ok values
    → picked match_columns row ≡ values
unfolding pick
picked_as row values h = by_test (all_known (match_columns ++ match_keys) row) h
  where
    by_test :
        (b : Bool)
        → ◌≡◌ {A = Result Row}
            (if b then ok (picked match_columns row) else err value_error)
            (ok values)
        → picked match_columns row ≡ values
    by_test true k = cc
    by_test false k = cc

-- the columns that the row of the upsert has
get-upsert_row :
    (w : PartitionWriter) (values : Row) (o : Option MatchRow) (row : MatchRow) (k : String)
    → IsDict values
    → upsert_row w values o ≡ some row
    → (row.source ≡ w.source)
      × (get k row.columns
          ≡ or_value
              (get k values)
              (get k (elim o as (λ _. Row) [ none ↦ [] | some old ↦ old.columns ])))
get-upsert_row w values none row k d h =
    let stored : row ≡ record { source = w.source; columns = values } = sym (some_row _ row h) in
    (
      ap (λ (r : MatchRow). r.source) stored,
      ap (λ (r : MatchRow). get k r.columns) stored ∙ sym (or_value-none (get k values)),
    )
get-upsert_row w values (some old) row k d h = by_owner (old.source == w.source) refl h
  where
    by_owner :
        (b : Bool)
        → (old.source == w.source) ≡ b
        → ◌≡◌ {A = Option MatchRow}
            (if b then some (record old { columns = update_columns old.columns values }) else none)
            (some row)
        → (row.source ≡ w.source)
          × (get k row.columns ≡ or_value (get k values) (get k old.columns))
    by_owner false e q = cc
    by_owner true e q =
        let stored : row ≡ record old { columns = update_columns old.columns values } =
          sym (some_row _ row q) in
        (
          ap (λ (r : MatchRow). r.source) stored ∙ (==_iff old.source w.source).0 e,
          ap (λ (r : MatchRow). get k r.columns) stored ∙ get-update_columns old.columns values k d,
        )

text_of : (v : Value) (k id : String) → v ≡ str id → as_text v ≡ ok k → k ≡ id
text_of v k id e h = let text : ok id ≡ ok k = ap as_text (sym e) ∙ h in cc

required_value :
    (row : Row) (v : Value) (id : String)
    → get_value "match_id" row ≡ str id
    → require row "match_id" ≡ ok v
    → v ≡ str id
unfolding require
required_value row v id named h = ground (arith, ==_iff (get_value "match_id" row) null)

-- what is provided for a column, with the clock for updated_at
get-values :
    (now : String) (row values : Row) (k : String)
    → pick row match_columns match_keys ≡ ok values
    → get k (set_default "updated_at" (str now) values)
      ≡ or_value (provided k row) (if "updated_at" == k then some (str now) else none)
get-values now row values k h =
    get-set_default "updated_at" (str now) values k
    ∙ ap (λ (o : Option Value). or_value o (if "updated_at" == k then some (str now) else none))
        (ap (get k) (sym (picked_as row values h)) ∙ get-picked match_columns row k)

stored-IsUpserted :
    (w : PartitionWriter) (now id : String) (row values : Row) (db after : Db) (a : Unit {0})
    → pick row match_columns match_keys ≡ ok values
    → Returns (execute_match_upsert w id (set_default "updated_at" (str now) values)) db a after
    → IsUpserted w now id row db after
unfolding owner
stored-IsUpserted w now id row values db after a h ran =
    let full = set_default "updated_at" (str now) values in
    let dict : IsDict full = set_default-IsDict "updated_at" (str now) values (
      subst IsDict (picked_as row values h)
        (picked-IsDict match_columns row match_columns-Distinct)) in
    let (new, made, there) = execute_match_upsert-Stores w id full db after a ran in
    let found : get id after.matches ≡ some new =
      ap (get id) (sym there) ∙ get-insert_self id new db.matches in
    let columns = λ (k : String). get-upsert_row w full (get id db.matches) new k dict made in
    (
      ap owned_as found ∙ ap some (columns "match_id").0,
      λ k.
          ap (λ (o : Option MatchRow). get k (columns_in o)) found
          ∙ (columns k).1
          ∙ ap (λ (o : Option Value). or_value o (get k (columns_of id db)))
              (get-values now row values k h)
          ∙ or_value-or_value (provided k row) (if "updated_at" == k then some (str now) else none)
              (get k (columns_of id db)),
      λ j.
          ap (get j) (sym there)
          ∙ get-insert id j new db.matches
          ∙ ap (λ (o : Option MatchRow). if id == j then o else get j db.matches) (sym found),
    )
  where
    owned_as : Option MatchRow → Option String
    owned_as o = elim o [ none ↦ none | some r ↦ some r.source ]

    columns_in : Option MatchRow → Row
    columns_in o = elim o [ none ↦ [] | some r ↦ r.columns ]

-- If upsert_match returns for a row with a text as its match_id, then the stored row of
-- that id belongs to the writer; each of its columns holds the value that the caller
-- provides for it, with the payload encoded, or else, for updated_at, the clock, or else
-- what the row held there before, if anything; and no other row of the table is touched.
pub upsert_match-IsUpserted :
    (w : PartitionWriter) (now id : String) (row : Row) (db after : Db) (a : Unit {0})
    → get_value "match_id" row ≡ str id
    → Returns (upsert_match w now row) db a after
    → IsUpserted w now id row db after
unfolding upsert_match assert_match_owned
upsert_match-IsUpserted w now id row db after a named h =
    let (_, _, h1) = Returns-bind_lift (check_source w row) _ db a after h in
    let (v, required, h2) = Returns-bind_lift (require row "match_id") _ db a after h1 in
    let (k, text, h3) = Returns-bind_lift (as_text v) _ db a after h2 in
    let (values, picks, h4) =
      Returns-bind_lift (pick row match_columns match_keys) _ db a after h3 in
    let (_, d, q, h5) = Returns-bind (assert_match_owned w k false) _ db a after h4 in
    let full = set_default "updated_at" (str now) values in
    let ran = Returns-transaction (execute_match_upsert w k full) d a after h5 in
    let same : d ≡ db = sym (ap (λ (p : Result (Unit {0}) × Db). p.1) q) in
    let named_id : k ≡ id = text_of v k id (required_value row v id named required) text in
    subst (λ (start : Db). IsUpserted w now id row start after) same
      (subst (λ (i : String). IsUpserted w now i row d after) named_id
        (stored-IsUpserted w now k row values d after a picks ran))
