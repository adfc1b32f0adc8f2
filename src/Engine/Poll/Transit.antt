-- ===== src/Engine/Poll/Transit.antt =====
-- How _fetch_poll_snapshots of gamecollect/engine.py classifies a board, and what it queues.
use gamealerts_collector.Prelude.{
  String, ◌≡◌, refl, ◌∙◌, sym, ◌⊎◌, inl, inr, Bool, Bool-cases, true, false, not, false≢true, ◌&&◌,
  ◌||◌, List, [], ◌∷◌, ◌++◌, Option, none, some, arith, ltb, if◌then◌else◌, if-cases, is_some,
}
use gamealerts_collector.Dict.{get, contains, insert}
use gamealerts_collector.Provider.{
  MatchStatus, scheduled, in_play, paused, finished, unknown, is_live, NormalizedMatch,
}
use gamealerts_collector.FallbackMerge.{is_terminal}
use gamealerts_collector.Engine.Tracking.{
  Tracker, Tracking, first_sight_finished, live_to_terminal_transition, abandon, cooling_down,
}
use gamealerts_collector.Engine.GiveUp.{
  build_give_up_snapshot, emit_give_up, emitted, max_give_up_emissions,
}
use gamealerts_collector.Engine.GiveUp.Monotone.{build_give_up_snapshot-Covers}
use gamealerts_collector.Engine.Poll.State.{View, Poll, note_pending}
use gamealerts_collector.Engine.Poll.Board.{
  Case, followed, probe, classify, accrue_while_cooling, clear_failures, due, resume,
}

-- no candidate of a backfill was live
first_sight-quiet :
    (o : Option NormalizedMatch) (s : MatchStatus) (was_live stored : Bool)
    → first_sight_finished o s was_live stored ≡ true
    → (was_live ≡ false) × (is_live s ≡ false)
unfolding first_sight_finished
first_sight-quiet none s true stored h = ground arith
first_sight-quiet none scheduled false stored h = ground arith
first_sight-quiet none in_play false stored h = ground arith
first_sight-quiet none paused false stored h = ground arith
first_sight-quiet none finished false stored h = (refl, refl)
first_sight-quiet none unknown false stored h = ground arith
first_sight-quiet (some m) s was_live stored h = ground arith

backfill_cases :
    (on first cooling held live was : Bool)
    → (first ≡ true → (was ≡ false) × (live ≡ false))
    → (on && ((first && not cooling) || (on && (held && (not live && not was))))) ≡ true
    → (was ≡ false) × (live ≡ false)
backfill_cases on true cooling held live was h k = h refl
backfill_cases on false cooling held live was h k = ground arith

-- If a board is taken for a backfill, its match was not live and the board is not, so it is
-- not in transition.
pub classify-exclusive :
    (v : View) (m : NormalizedMatch) (t : Tracking)
    → (classify v m t).is_backfill ≡ true
    → ((classify v m t).was_live ≡ false)
      × (is_live m.status ≡ false)
      × ((classify v m t).in_transition ≡ false)
unfolding classify
classify-exclusive v m t h =
    let was = (classify v m t).was_live in
    let first = first_sight-quiet (get m.match_id v.last) m.status was (is_some (probe v m t)) in
    let (a, b) =
      backfill_cases v.backfill_finished_matches _ (cooling_down m.match_id t)
        (contains m.match_id t.backfill) (is_live m.status) was first h in
    (a, b, rw (a, live_to_terminal_transition) refl)

-- The status of a snapshot is live or terminal.
abbrev pub is_settled : NormalizedMatch → Bool
is_settled m = is_live m.status || is_terminal m.status

-- Of the snapshots `h`, at most one more is queued, and its status is live or terminal.
abbrev pub IsSettled : List NormalizedMatch → Poll → Type 0
IsSettled h q =
    (q.hydrated ≡ h) ⊎ ((x : NormalizedMatch) × (q.hydrated ≡ h ++ x ∷ []) × (is_settled x ≡ true))

-- An emission, if there is one, is terminal.
abbrev IsFinal : Option NormalizedMatch → Type 0
IsFinal o = (o ≡ none) ⊎ ((x : NormalizedMatch) × (o ≡ some x) × (is_terminal x.status ≡ true))

pub emit_give_up-IsFinal :
    (id : String) (found : Tracker) (fresh baseline stored : Option NormalizedMatch) (t : Tracking)
    → IsFinal (emit_give_up id found fresh baseline stored t).0
unfolding emit_give_up
emit_give_up-IsFinal id found fresh baseline stored t =
    by_snapshot (build_give_up_snapshot true found.fallback fresh baseline stored) refl
  where
    by_snapshot :
        (o : Option NormalizedMatch)
        → build_give_up_snapshot true found.fallback fresh baseline stored ≡ o
        → let next = record (emitted found) { give_up_pending = true } in
          let limit = ltb max_give_up_emissions (emitted found).give_up_emissions in
          IsFinal
            (elim o as (λ _. Option NormalizedMatch × Tracking) [
              | none ↦ (none, (abandon id t).1)
              | some s ↦
                  if limit
                  then (none, (abandon id t).1)
                  else (some s, record t { transitions = insert id next t.transitions })
            ]).0
    by_snapshot none e = inl refl
    by_snapshot (some s) e =
        let final =
          (build_give_up_snapshot-Covers true found.fallback fresh baseline stored s e).3 refl in
        if-cases (λ (r : Option NormalizedMatch × Tracking). IsFinal r.0) _ _ _ (λ _. inl refl)
          (λ _. inr (s, refl, final))

pub settled_of_terminal : (x : NormalizedMatch) → is_terminal x.status ≡ true → is_settled x ≡ true
settled_of_terminal x h = ground arith

pub hydrated-accrue_while_cooling :
    (id : String) (m : NormalizedMatch) (drift : Bool) (p : Poll)
    → (accrue_while_cooling id m drift p).hydrated ≡ p.hydrated
unfolding accrue_while_cooling
hydrated-accrue_while_cooling id m drift p = ground arith

pub hydrated-clear_failures : (id : String) (p : Poll) → (clear_failures id p).hydrated ≡ p.hydrated
unfolding clear_failures
hydrated-clear_failures id p = ground arith

pub hydrated-note_pending :
    (b : Bool) (id : String) (p : Poll) → (note_pending b id p).hydrated ≡ p.hydrated
hydrated-note_pending true id p = refl
hydrated-note_pending false id p = refl

pub not_both : (b : Bool) → not b ≡ true → b ≡ true → ⊥
not_both b h k = ground arith

pub no_backfill : (b c : Bool) → b ≡ false → (b && c) ≡ true → ⊥
no_backfill b c h k = ground arith

pub not_passed : (live was b : Bool) → (not live && (not was && not b)) ≡ true → was ≡ true → ⊥
not_passed live was b h k = ground arith

pub ended :
    (b : Bool) (x : NormalizedMatch)
    → b ≡ true
    → (b && not (is_terminal x.status)) ≡ false
    → is_settled x ≡ true
ended b x h k = ground arith

pub classify-was_live :
    (v : View) (m : NormalizedMatch) (t : Tracking)
    → followed v m.match_id t ≡ true
    → (classify v m t).was_live ≡ true
unfolding classify
classify-was_live v m t f = ground arith

in_transition_of :
    (v : View) (m : NormalizedMatch) (t : Tracking)
    → (classify v m t).was_live ≡ true
    → is_live m.status ≡ false
    → (classify v m t).in_transition ≡ true
unfolding classify live_to_terminal_transition
in_transition_of v m t w n = rw (w, n) refl

pub classify-in_transition :
    (v : View) (m : NormalizedMatch) (t : Tracking)
    → followed v m.match_id t ≡ true
    → is_live m.status ≡ false
    → ((classify v m t).is_backfill ≡ false) × ((classify v m t).in_transition ≡ true)
classify-in_transition v m t f n =
    let was = classify-was_live v m t f in
    (
      elim (Bool-cases (classify v m t).is_backfill) [
        | inl b ↦ absurd (false≢true (sym (classify-exclusive v m t b).0 ∙ was))
        | inr b ↦ b
      ],
      in_transition_of v m t was n,
    )

pub due-off :
    (b : Bool) (at_cap : Tracker → Bool) (o : Option Tracker) → b ≡ false → due b at_cap o ≡ none
due-off true at_cap o h = absurd (false≢true (sym h))
due-off false at_cap o h = refl

pub resume-off : (m : NormalizedMatch) (p : Poll) → is_live m.status ≡ false → resume m p ≡ p
resume-off m p h = rw h refl

-- the case of a board in transition
abbrev pub IsTransit : Case → Type 0
IsTransit c = (c.is_backfill ≡ false) × (c.in_transition ≡ true)
