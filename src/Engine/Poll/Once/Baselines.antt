-- ===== src/Engine/Poll/Once/Baselines.antt =====
-- How poll_once of gamecollect/engine.py moves the baselines of the matches.
use gamealerts_collector.Prelude.{
  String, ◌≡◌, refl, sym, ap, ◌∙◌, ◌⊎◌, inl, inr, Bool-cases, true, false, List, [], ◌∷◌, ◌++◌,
  Option, none, some, if-cases, subst, ◌==◌, ==_iff, string_eq,
}
use gamealerts_collector.Dict.{get, get-insert}
use gamealerts_collector.Provider.{NormalizedMatch}
use gamealerts_collector.Diffing.{MatchDiff, has_changes, diff_matches}
use gamealerts_collector.Writer.Action.{Result, ok, err}
use gamealerts_collector.Engine.Tracking.{listed}
use gamealerts_collector.Engine.Apply.{apply_diff}
use gamealerts_collector.Engine.Poll.State.{Fetched}
use gamealerts_collector.Engine.Poll.Once.{
  Config, Engine, Slate, slate, slate_unavailable, slate_shape_drift, register_if_pending,
  is_caught, settled, conclude, step_diff, apply_diffs, poll_slate, recorded, poll_once,
}

-- what _apply returns for a diff, in a state of the engine
abbrev pub applied : Config → MatchDiff → Engine → Result (Option NormalizedMatch)
applied config d e = (apply_diff config.pack config.writer d false e.db e.tracking.memory).0

last-register_if_pending :
    (pending : List String) (m : NormalizedMatch) (e : Engine)
    → (register_if_pending pending m e).last ≡ e.last
last-register_if_pending pending m e =
    if-cases (λ (x : Engine). x.last ≡ e.last) (listed m.match_id pending) _ e (λ _. refl)
      (λ _. refl)

module _ (config : Config) (pending resumed : List String) (id : String) where
  -- The baseline of the match is the one that _apply has returned for the diff.
  abbrev pub IsGiven : MatchDiff → Engine → Engine → Type 0
  IsGiven d e after =
      (b : NormalizedMatch) × (d.match.match_id ≡ id)
      × (has_changes d ≡ true)
      × (applied config d e ≡ ok (some b))
      × (get id after.last ≡ some b)

  abbrev Concluded : MatchDiff → Result (Option NormalizedMatch) → Engine → Engine → Type 0
  Concluded d r e after =
      (get id after.last ≡ get id e.last)
      ⊎ ((b : NormalizedMatch) × (d.match.match_id ≡ id)
          × (r ≡ ok (some b))
          × (get id after.last ≡ some b))

  conclude-Concluded :
      (d : MatchDiff) (r : Result (Option NormalizedMatch)) (e : Engine)
      → Concluded d r e (conclude pending resumed d.match r e).1
  conclude-Concluded d (err x) e =
      if-cases (λ (s : Result (Unit {0}) × Engine). Concluded d (err x) e s.1) (is_caught x)
        (ok tt, register_if_pending pending d.match e) (err x, e)
        (λ _. inl (ap (get id) (last-register_if_pending pending d.match e))) (λ _. inl refl)
  conclude-Concluded d (ok none) e = inl (ap (get id) (last-register_if_pending pending d.match e))
  conclude-Concluded d (ok (some b)) e =
      let found = get-insert d.match.match_id id b e.last in
      elim (Bool-cases (d.match.match_id == id)) [
        | inl h ↦ inr (b, (==_iff d.match.match_id id).0 h, refl, found ∙ rw h refl)
        | inr h ↦ inl (found ∙ rw h refl)
      ]

  step_diff-IsGiven :
      (d : MatchDiff) (e : Engine)
      → let after = (step_diff config pending resumed d e).1 in
        (get id after.last ≡ get id e.last) ⊎ IsGiven d e after
  unfolding step_diff
  step_diff-IsGiven d e =
      let result = apply_diff config.pack config.writer d false e.db e.tracking.memory in
      if-cases
        (λ (s : Result (Unit {0}) × Engine). (get id s.1.last ≡ get id e.last) ⊎ IsGiven d e s.1)
        (has_changes d) (conclude pending resumed d.match result.0 (settled result e)) _
        (λ c. elim (conclude-Concluded d result.0 (settled result e)) [
          | inl h ↦ inl h
          | inr (b, named, r, g) ↦ inr (b, named, c, r, g)
        ])
        (λ _. inl refl)

  -- The diffs before the one that moved the baseline, and those behind it.
  abbrev pub IsMoved : List MatchDiff → Engine → Engine → Type 0
  IsMoved ds e after =
      (before : List MatchDiff) × (rest : List MatchDiff) × (d : MatchDiff) × (ds
        ≡ before ++ d ∷ rest)
      × IsGiven d (apply_diffs config pending resumed before e).1 after

  -- The baseline of the match is the same, or one diff has moved it.
  abbrev pub IsAccounted : List MatchDiff → Engine → Engine → Type 0
  IsAccounted ds e after = (get id after.last ≡ get id e.last) ⊎ IsMoved ds e after

  -- what the first diff does to the baseline, if those behind it leave it
  at_first :
      (d : MatchDiff) (ds : List MatchDiff) (e after : Engine)
      → get id after.last ≡ get id (step_diff config pending resumed d e).1.last
      → IsAccounted (d ∷ ds) e after
  unfolding apply_diffs
  at_first d ds e after same = elim (step_diff-IsGiven d e) [
    | inl kept ↦ inl (same ∙ kept)
    | inr (b, named, c, r, g) ↦ inr ([], ds, d, refl, (b, named, c, r, same ∙ g))
  ]

  -- what a later diff does to it
  behind :
      (d : MatchDiff) (ds : List MatchDiff) (e after : Engine)
      → (step_diff config pending resumed d e).0 ≡ ok tt
      → IsMoved ds (step_diff config pending resumed d e).1 after
      → IsMoved (d ∷ ds) e after
  unfolding apply_diffs
  behind d ds e after q (before, rest, x, split, given) =
      let e' = (step_diff config pending resumed d e).1 in
      let same : (apply_diffs config pending resumed (d ∷ before) e).1
          ≡ (apply_diffs config pending resumed before e').1 =
        ap
          (λ (r : Result (Unit {0})).
            (elim r as (λ _. Result (Unit {0}) × Engine) [
              | err x ↦ (err x, e')
              | ok _ ↦ apply_diffs config pending resumed before e'
            ]).1)
          q in
      (
        d ∷ before,
        rest,
        x,
        ap (λ (xs : List MatchDiff). d ∷ xs) split,
        subst (λ (y : Engine). IsGiven x y after) (sym same) given,
      )

  apply_diffs-IsAccounted :
      (ds : List MatchDiff) (e : Engine)
      → IsAccounted ds e (apply_diffs config pending resumed ds e).1
  unfolding apply_diffs
  apply_diffs-IsAccounted [] e = inl refl
  apply_diffs-IsAccounted (d ∷ ds) e =
      by_result (step_diff config pending resumed d e).0 refl (apply_diffs-IsAccounted ds e')
    where
      e' : Engine
      e' = (step_diff config pending resumed d e).1

      after : Engine
      after = (apply_diffs config pending resumed ds e').1

      by_result :
          (r : Result (Unit {0}))
          → (step_diff config pending resumed d e).0 ≡ r
          → IsAccounted ds e' after
          → IsAccounted
              (d ∷ ds)
              e
              (elim r as (λ _. Result (Unit {0}) × Engine) [
                | err x ↦ (err x, e')
                | ok _ ↦ apply_diffs config pending resumed ds e'
              ]).1
      by_result (err x) q later = at_first d ds e e' refl
      by_result (ok tt) q (inl same) = at_first d ds e after same
      by_result (ok tt) q (inr moved) = inr (behind d ds e after q moved)

-- the diffs that poll_once works through, and the engine that it begins them with
abbrev pub poll_diffs : Config → (String → Fetched) → List NormalizedMatch → Engine → List MatchDiff
poll_diffs config fetch ms e = diff_matches (poll_slate config fetch ms e).hydrated e.last

abbrev pub poll_start : Config → (String → Fetched) → List NormalizedMatch → Engine → Engine
poll_start config fetch ms e =
    let p = poll_slate config fetch ms e in
    record e {
      tracking = p.tracking;
      restart_scan_done = true;
      recorder = recorded p.hydrated e.recorder;
    }

-- The baseline of a match is the same after a poll, or one diff of the slate has moved it.
abbrev pub IsPolled : Config → (String → Fetched) → String → Slate → Engine → Engine → Type 0
IsPolled config fetch id (slate ms) e after =
    let p = poll_slate config fetch ms e in
    (get id after.last ≡ get id e.last)
    ⊎ IsMoved config p.apply_pending p.live_resumptions id (poll_diffs config fetch ms e)
        (poll_start config fetch ms e) after
IsPolled config fetch id slate_unavailable e after = after.last ≡ e.last
IsPolled config fetch id slate_shape_drift e after = after.last ≡ e.last

-- After poll_once, whatever the slate, the fetched details and the pack are, the baseline
-- of a match is the same as before; or there is one diff of the slate, of this match and
-- with changes, for which _apply, in the state that the diffs before it left, returned a
-- baseline, and the match's baseline is that one. A slate that fails keeps every baseline.
pub poll_once-IsPolled :
    (config : Config) (fetch : String → Fetched) (id : String) (s : Slate) (e : Engine)
    → IsPolled config fetch id s e (poll_once config fetch s e).1
unfolding poll_once
poll_once-IsPolled config fetch id (slate ms) e =
    let p = poll_slate config fetch ms e in
    apply_diffs-IsAccounted config p.apply_pending p.live_resumptions id
      (poll_diffs config fetch ms e) (poll_start config fetch ms e)
poll_once-IsPolled config fetch id slate_unavailable e = refl
poll_once-IsPolled config fetch id slate_shape_drift e = refl
