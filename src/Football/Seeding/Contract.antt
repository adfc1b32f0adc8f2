-- ===== src/Football/Seeding/Contract.antt =====
-- What the engine relies on in seed_or_reconcile_match of gamecollect_football/reconcile.py.
use gamealerts_collector.Prelude.{◌≡◌, refl, subst, String, Bool, Option, none, some, if-cases}
use gamealerts_collector.Json.{str}
use gamealerts_collector.Provider.{NormalizedMatch}
use gamealerts_collector.Writer.Table.{Db, owner}
use gamealerts_collector.Writer.Action.{Action, pure, ◌>>=◌, ◌>>◌}
use gamealerts_collector.Writer.Action.Returns.{Returns, ok_pair, Returns-bind}
use gamealerts_collector.Writer.Rows.{Row, get_value}
use gamealerts_collector.Writer.Matches.{upsert_match}
use gamealerts_collector.Engine.Rows.{as_str}
use gamealerts_collector.Engine.Stored.{qualified}
use gamealerts_collector.Football.Orientation.{is_reverse_oriented, home_away_view}
use gamealerts_collector.Seed.Contract.{upsert_match-Owns}
use gamealerts_collector.Football.Seeding.{
  Hook, identity, unreconciled_payload, reconciled_payload, register_known,
  register_unreconciled_match, unreconciled_row, reconciled_row, seed_canonical, keep_stub,
  seed_resolved, resolve_deferred, seed_or_reconcile_match,
}

-- Each id that the action returns is that of a match of the writer.
abbrev Seeds : Hook → Action (Option String) → Type 0
Seeds hook m =
    (db db' : Db) (id : String)
    → Returns m db (some id) db'
    → owner db' id ≡ some hook.writer.source

-- an upsert under an id, and then that id
Seeds-upsert :
    (hook : Hook) (now k : String) (row : Row)
    → get_value "match_id" row ≡ str k
    → Seeds hook (upsert_match hook.writer now row >> pure (some k))
unfolding pure
Seeds-upsert hook now k row named db db' id h =
    let (u, d, up, back) = Returns-bind _ _ db (some id) db' h in
    let (same, there) = ok_pair back in
    let k_id : k ≡ id = cc in
    subst (λ x. owner x id ≡ some hook.writer.source) there
      (subst (λ j. owner d j ≡ some hook.writer.source) k_id
        (upsert_match-Owns hook.writer now k row db d u named up))

Seeds-none : (hook : Hook) → Seeds hook (pure none)
unfolding pure
Seeds-none hook db db' id h = let (same, _) = ok_pair h in cc

Seeds-bind :
    {A : Type 0} (hook : Hook) (m : Action A) (f : A → Action (Option String))
    → ((a : A) → Seeds hook (f a))
    → Seeds hook (m >>= f)
Seeds-bind hook m f k db db' id h =
    let (a, d, _, back) = Returns-bind m f db (some id) db' h in k a d db' id back

register_known-Seeds :
    (hook : Hook) (m : NormalizedMatch) (home away kickoff : String)
    → Seeds hook (register_known hook m home away kickoff)
unfolding register_known unreconciled_row
register_known-Seeds hook m home away kickoff =
    let id = qualified hook.writer.source m.match_id in
    Seeds-bind hook _ _ (λ stored.
      Seeds-upsert hook hook.now id
        (unreconciled_row m id kickoff (unreconciled_payload m home away stored)) refl)

register_unreconciled_match-Seeds :
    (hook : Hook) (m : NormalizedMatch) → Seeds hook (register_unreconciled_match hook m)
unfolding register_unreconciled_match
register_unreconciled_match-Seeds hook m =
    elim (identity m)
      as (λ o. Seeds hook (elim o as (λ _. Action (Option String)) [
        | none ↦ pure none
        | some (home, (away, kickoff)) ↦ register_known hook m home away kickoff
      ])) [
        | none ↦ Seeds-none hook
        | some (home, (away, kickoff)) ↦ register_known-Seeds hook m home away kickoff
      ]

seed_canonical-Seeds :
    (hook : Hook) (m : NormalizedMatch) (canonical : String) (pending reverse : Bool)
    (home away : Option String)
    → Seeds hook (seed_canonical hook m canonical pending reverse home away)
unfolding seed_canonical reconciled_row
seed_canonical-Seeds hook m canonical pending reverse home away =
    let view = home_away_view m reverse in
    Seeds-bind hook _ _ (λ _. Seeds-bind hook _ _ (λ stored.
      Seeds-upsert hook hook.now canonical
        (reconciled_row m canonical view.0 view.1.0
          (reconciled_payload m home away stored view.1.1))
        refl))

keep_stub-Seeds : (hook : Hook) (m : NormalizedMatch) → Seeds hook (keep_stub hook m)
unfolding keep_stub
keep_stub-Seeds hook m = Seeds-bind hook _ _ (λ _. register_unreconciled_match-Seeds hook m)

seed_resolved-Seeds :
    (hook : Hook) (m : NormalizedMatch) (r : Option String × Bool)
    → Seeds hook (seed_resolved hook m r)
unfolding seed_resolved
seed_resolved-Seeds hook m (none, pending) = register_unreconciled_match-Seeds hook m
seed_resolved-Seeds hook m (some canonical, pending) = Seeds-bind hook _ _ (λ stored.
    let home = as_str (get_value "home_team" stored) in
    let away = as_str (get_value "away_team" stored) in
    let reverse = is_reverse_oriented hook.unicode m home away in
    Seeds-bind hook _ _ (λ (adopted : Bool).
      if-cases (Seeds hook) adopted (seed_canonical hook m canonical pending reverse home away)
        (keep_stub hook m) (λ _. seed_canonical-Seeds hook m canonical pending reverse home away)
        (λ _. keep_stub-Seeds hook m)))

-- Whenever seed_or_reconcile_match returns an id - of a canonical match, of an adopted one,
-- or of a stub, whose adoption was refused or which is new - the match of that id belongs
-- to the writer, so the child writes that follow find their match seeded.
pub seed_or_reconcile_match-Seeds :
    (hook : Hook) (m : NormalizedMatch) (db db' : Db) (id : String)
    → Returns (seed_or_reconcile_match hook m) db (some id) db'
    → owner db' id ≡ some hook.writer.source
unfolding seed_or_reconcile_match
seed_or_reconcile_match-Seeds hook m =
    Seeds-bind hook (resolve_deferred hook m) (seed_resolved hook m) (seed_resolved-Seeds hook m)
