-- ===== src/Engine/Poll/Once/Laws.antt =====
-- What poll_once of gamecollect/engine.py leaves in the database, the baselines and the trackers.
use gamealerts_collector.Prelude.{
  String, ◌≡◌, refl, true, false, List, [], ◌∷◌, Option, none, some, if-cases, subst, sym,
}
use gamealerts_collector.Provider.{NormalizedMatch}
use gamealerts_collector.Diffing.{MatchDiff, has_changes, diff_matches}
use gamealerts_collector.Writer.Action.{Result, ok, err}
use gamealerts_collector.Writer.Valid.{IsValid}
use gamealerts_collector.Engine.Tracking.{listed}
use gamealerts_collector.Engine.Apply.{apply_diff}
use gamealerts_collector.Engine.Apply.Stored.{IsSound, apply_diff-IsValid}
use gamealerts_collector.Engine.Poll.State.{Fetched}
use gamealerts_collector.Engine.Poll.Once.{
  Config, Engine, Slate, slate, slate_unavailable, slate_shape_drift, register_if_pending,
  is_caught, settled, conclude, step_diff, apply_diffs, poll_slate, recorded, poll_once,
}

db-register_if_pending :
    (pending : List String) (m : NormalizedMatch) (e : Engine)
    → (register_if_pending pending m e).db ≡ e.db
db-register_if_pending pending m e =
    if-cases (λ (x : Engine). x.db ≡ e.db) (listed m.match_id pending) _ e (λ _. refl) (λ _. refl)

db-conclude :
    (pending resumed : List String) (m : NormalizedMatch) (r : Result (Option NormalizedMatch))
    (e : Engine)
    → (conclude pending resumed m r e).1.db ≡ e.db
db-conclude pending resumed m (err x) e =
    if-cases (λ (s : Result (Unit {0}) × Engine). s.1.db ≡ e.db) (is_caught x) _ (err x, e)
      (λ _. db-register_if_pending pending m e) (λ _. refl)
db-conclude pending resumed m (ok none) e = db-register_if_pending pending m e
db-conclude pending resumed m (ok (some b)) e = refl

module _ (config : Config) (sound : IsSound config.pack) where
  step_diff-IsValid :
      (pending resumed : List String) (d : MatchDiff) (e : Engine)
      → IsValid e.db
      → IsValid (step_diff config pending resumed d e).1.db
  unfolding step_diff
  step_diff-IsValid pending resumed d e v =
      let applied = apply_diff config.pack config.writer d false e.db e.tracking.memory in
      if-cases (λ (s : Result (Unit {0}) × Engine). IsValid s.1.db) (has_changes d)
        (conclude pending resumed d.match applied.0 (settled applied e)) _
        (λ _.
          subst IsValid (sym (db-conclude pending resumed d.match applied.0 (settled applied e)))
            (apply_diff-IsValid config.pack config.writer d false e.db e.tracking.memory sound v))
        (λ _. v)

  apply_diffs-IsValid :
      (pending resumed : List String) (ds : List MatchDiff) (e : Engine)
      → IsValid e.db
      → IsValid (apply_diffs config pending resumed ds e).1.db
  unfolding apply_diffs
  apply_diffs-IsValid pending resumed [] e v = v
  apply_diffs-IsValid pending resumed (d ∷ ds) e v =
      let e' = (step_diff config pending resumed d e).1 in
      let here = step_diff-IsValid pending resumed d e v in
      let later = apply_diffs-IsValid pending resumed ds e' here in
      elim (step_diff config pending resumed d e).0
        as (λ r.
          IsValid
            (elim r as (λ _. Result (Unit {0}) × Engine) [
              | err x ↦ (err x, e')
              | ok _ ↦ apply_diffs config pending resumed ds e'
            ]).1.db) [ err x ↦ here | ok u ↦ later ]

-- If the hooks of the pack keep the database valid, poll_once keeps it valid, whatever the
-- slate, the fetched details and the refused matches are.
pub poll_once-IsValid :
    (config : Config) (fetch : String → Fetched) (s : Slate) (e : Engine)
    → IsSound config.pack
    → IsValid e.db
    → IsValid (poll_once config fetch s e).1.db
unfolding poll_once
poll_once-IsValid config fetch (slate ms) e sound v =
    let p = poll_slate config fetch ms e in
    apply_diffs-IsValid config sound p.apply_pending p.live_resumptions
      (diff_matches p.hydrated e.last)
      (record e {
        tracking = p.tracking;
        restart_scan_done = true;
        recorder = recorded p.hydrated e.recorder;
      })
      v
poll_once-IsValid config fetch slate_unavailable e sound v = v
poll_once-IsValid config fetch slate_shape_drift e sound v = v
