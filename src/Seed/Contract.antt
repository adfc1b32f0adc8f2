-- ===== src/Seed/Contract.antt =====
-- What the engine relies on in default_seed_match of gamecollect/packs/spec.py.
use gamealerts_collector.Prelude.{◌≡◌, refl, sym, String, Option, some, string_eq}
use gamealerts_collector.Json.{str, value_eq}
use gamealerts_collector.Provider.{NormalizedMatch}
use gamealerts_collector.Writer.Table.{Db, owner}
use gamealerts_collector.Writer.Action.{pure, gets}
use gamealerts_collector.Writer.Action.Returns.{Returns, ok_pair, Returns-bind}
use gamealerts_collector.Writer.Action.Preserves.{Preserves, preserves_rules}
use gamealerts_collector.Writer.Rows.{PartitionWriter, Row, get_value}
use gamealerts_collector.Writer.Matches.{upsert_match}
use gamealerts_collector.Writer.Valid.{IsValid}
use gamealerts_collector.Writer.Valid.Calls.{upsert_match-IsValid}
use gamealerts_collector.Writer.Upserts.{upsert_match-IsUpserted}
use gamealerts_collector.Engine.Apply.Stored.{IsSound}
use gamealerts_collector.Seed.{seeded_payload, seed_row, default_seed_match, default_pack}

default_seed_match-IsValid :
    (w : PartitionWriter) (now : String) (m : NormalizedMatch)
    → Preserves IsValid (default_seed_match w now m)
unfolding default_seed_match
default_seed_match-IsValid w now m = search (preserves_rules, upsert_match-IsValid) depth 12

pub default_pack-IsSound : (w : PartitionWriter) (now : String) → IsSound (default_pack w now)
default_pack-IsSound w now = record {
  seeds = λ m db v. (default_seed_match-IsValid w now m).at db v;
  persists = λ m id db v. v;
}

pub upsert_match-Owns :
    (w : PartitionWriter) (now id : String) (row : Row) (db db' : Db) (a : Unit {0})
    → get_value "match_id" row ≡ str id
    → Returns (upsert_match w now row) db a db'
    → owner db' id ≡ some w.source
upsert_match-Owns w now id row db db' a named h =
    (upsert_match-IsUpserted w now id row db db' a named h).0

-- If default_seed_match returns, it returns the id of the snapshot, and the match of that
-- id then belongs to the writer: what a seed hook promises to the engine, so the child
-- writes that follow find their match seeded.
pub default_seed_match-IsSeeded :
    (w : PartitionWriter) (now : String) (m : NormalizedMatch) (db db' : Db)
    (seeded : Option String)
    → Returns (default_seed_match w now m) db seeded db'
    → (seeded ≡ some m.match_id) × (owner db' m.match_id ≡ some w.source)
unfolding default_seed_match seed_row pure gets
default_seed_match-IsSeeded w now m db db' seeded h =
    let (stored, d, _, k) = Returns-bind _ _ db seeded db' h in
    let (u, d', k1, k2) = Returns-bind _ _ d seeded db' k in
    let (same, there) = ok_pair k2 in
    (
      sym same,
      rw (sym there) (
          upsert_match-Owns w now m.match_id (seed_row m (seeded_payload m stored)) d d' u refl k1),
    )
