-- ===== src/Writer/Partition/Others.antt =====
-- The rows of other sources, in the tables that a writer's statements change.
use gamealerts_collector.Prelude.{
  String, ◌≡◌, refl, sym, ◌∙◌, Bool, false, not, List, [], ◌∷◌, ◌++◌, Option, none, some, arith,
  filter, ◌==◌, ==_iff, string_eq, nat_eq, Bool-cases, inl, inr,
}
use gamealerts_collector.Dict.{Dict, get, insert}
use gamealerts_collector.Json.{Value, value_eq}
use gamealerts_collector.Writer.Table.{MatchRow, EventRow, EntityRow, StandingRow, ProviderRow, Db}
use gamealerts_collector.Writer.Action.Keeps.{Keeps}
use gamealerts_collector.Writer.Rows.{PartitionWriter, Row}
use gamealerts_collector.Writer.Matches.{execute_match_upsert, put_provider, update_columns}
use gamealerts_collector.Writer.Events.{insert_or_ignore}
use gamealerts_collector.Writer.Entities.{put_entity, put_standing}

-- The rows of every other source.
unfoldable pub others : String → Db → Db
others source db = record {
  matches = filter (λ kv. not (kv.1.source == source)) db.matches;
  events = filter (λ e. not (e.source == source)) db.events;
  entities = filter (λ e. not (e.source == source)) db.entities;
  standings = filter (λ e. not (e.source == source)) db.standings;
  provider_match_map = filter (λ e. not (e.source == source)) db.provider_match_map;
}

pub filter-snoc :
    {A : Type 0} (p : A → Bool) (xs : List A) (x : A)
    → p x ≡ false
    → filter p (xs ++ x ∷ []) ≡ filter p xs
filter-snoc p [] x h = rw h
filter-snoc p (y ∷ ys) x h = ground (arith, filter-snoc p ys x h)

pub filter-put_provider :
    (s : String) (r : ProviderRow) (rows : List ProviderRow)
    → r.source ≡ s
    → filter (λ e. not (e.source == s)) (put_provider r rows)
      ≡ filter (λ e. not (e.source == s)) rows
unfolding put_provider
filter-put_provider s r [] h = ground (arith, ==_iff r.source s)
filter-put_provider s r (x ∷ xs) h = ground (
  arith,
  ==_iff r.source s,
  ==_iff x.source s,
  ==_iff x.source r.source,
  filter-put_provider s r xs h,
)

pub filter-put_entity :
    (s : String) (id : Value) (provided : Row) (rows : List EntityRow)
    → filter (λ e. not (e.source == s)) (put_entity s id provided rows)
      ≡ filter (λ e. not (e.source == s)) rows
unfolding put_entity
filter-put_entity s id p [] = ground (arith, ==_iff s s)
filter-put_entity s id p (x ∷ xs) =
    ground (arith, ==_iff s s, ==_iff x.source s, filter-put_entity s id p xs)

pub filter-put_standing :
    (s : String) (g id : Value) (provided : Row) (rows : List StandingRow)
    → filter (λ e. not (e.source == s)) (put_standing s g id provided rows)
      ≡ filter (λ e. not (e.source == s)) rows
unfolding put_standing
filter-put_standing s g id p [] = ground (arith, ==_iff s s)
filter-put_standing s g id p (x ∷ xs) =
    ground (arith, ==_iff s s, ==_iff x.source s, filter-put_standing s g id p xs)

pub filter-insert :
    (s k : String) (row : MatchRow) (d : Dict MatchRow)
    → row.source ≡ s
    → ((old : MatchRow) → get k d ≡ some old → old.source ≡ s)
    → filter (λ kv. not (kv.1.source == s)) (insert k row d)
      ≡ filter (λ kv. not (kv.1.source == s)) d
unfolding insert
filter-insert s k row [] h own = ground (arith, ==_iff row.source s)
filter-insert s k row ((j, old) ∷ d) h own = elim (Bool-cases (j == k)) [
  | inl e ↦ ground (arith, ==_iff row.source s, ==_iff old.source s, own old)
  | inr e ↦
      let rest = filter-insert s k row d h (λ x p. own x (rw e p)) in
      ground (arith, ==_iff old.source s, rest)
]

pub insert_or_ignore-Keeps : (e : EventRow) → Keeps (others e.source) (insert_or_ignore e)
unfolding insert_or_ignore others
insert_or_ignore-Keeps e = record {
  at = λ db.
      ground (
        arith,
        ==_iff e.source e.source,
        filter-snoc (λ x. not (x.source == e.source)) db.events e,
      );
}

some_source : {s : String} (a b : MatchRow) → some a ≡ some b → a.source ≡ s → b.source ≡ s
some_source a b p h = cc

pub execute_match_upsert-Keeps :
    (w : PartitionWriter) (k : String) (provided : Row)
    → Keeps (others w.source) (execute_match_upsert w k provided)
unfolding execute_match_upsert others
execute_match_upsert-Keeps w k provided = record { at = λ db. own db (get k db.matches) refl }
  where
    own :
        (db : Db) (o : Option MatchRow)
        → get k db.matches ≡ o
        → others w.source (execute_match_upsert w k provided db).1 ≡ others w.source db
    own db none e = ground (
      arith,
      filter-insert w.source k (record { source = w.source; columns = provided }) db.matches refl
          (λ old p. cc),
    )
    own db (some row) e = elim (Bool-cases (row.source == w.source)) [
      | inl mine ↦
          let source = (==_iff row.source w.source).0 mine in
          let next : MatchRow = record row { columns = update_columns row.columns provided } in
          ground (
            arith,
            filter-insert w.source k next db.matches source
                (λ old p. some_source row old (sym e ∙ p) source),
          )
      | inr foreign ↦ ground arith
    ]
