-- ===== src/Engine/Poll/Elsewhere.antt =====
-- One match's turn in a poll of gamecollect/engine.py, and the entries of the other matches.
use gamealerts_collector.Prelude.{
  String, ◌≡◌, ◌≢◌, refl, ◌∙◌, subst, sym, Bool, Bool-cases, inl, inr, true, false, Option, none,
  some, ltb, if◌then◌else◌, if-cases, ◌==◌, ==_iff, string_eq,
}
use gamealerts_collector.Dict.{Dict, get, insert, remove, get-insert, get-remove}
use gamealerts_collector.Provider.{NormalizedMatch}
use gamealerts_collector.Engine.Tracking.{Cooldown, Tracker, Tracking, enter_cooldown, abandon}
use gamealerts_collector.Engine.GiveUp.{
  build_give_up_snapshot, abandon_backfill, emit_give_up, emit_backfill_give_up,
  max_give_up_emissions, emitted,
}
use gamealerts_collector.Engine.Poll.State.{
  fetched, View, Poll, stored_snapshot, give_up, backfill_give_up,
}
use gamealerts_collector.Engine.Poll.Board.{accrue_while_cooling, step_board}
use gamealerts_collector.Engine.Poll.Turn.{
  Turn, stays, chains, queues, tracks, backfills, gives_up, gives_up_backfill, accrues, pends,
  resumes, fetches,
}
use gamealerts_collector.Engine.Poll.Turn.Boards.{step_board-Turn}
use gamealerts_collector.Engine.Poll.Kept.{tracking-queue_if_some}

-- The match's tracker, backfill tracker and cooldown are the same.
abbrev pub IsSame : String → Tracking → Tracking → Type 0
IsSame id t u =
    (get id u.transitions ≡ get id t.transitions)
    × (get id u.backfill ≡ get id t.backfill)
    × (get id u.cooldowns ≡ get id t.cooldowns)

IsSame-trans : (id : String) (t u w : Tracking) → IsSame id t u → IsSame id u w → IsSame id t w
IsSame-trans id t u w h k = (k.0 ∙ h.0, k.1 ∙ h.1, k.2 ∙ h.2)

module _ (id other : String) (apart : other == id ≡ false) where
  get-insert-other : {V : Type 0} (x : V) (d : Dict V) → get id (insert other x d) ≡ get id d
  get-insert-other x d = get-insert other id x d ∙ rw apart refl

  get-remove-other : {V : Type 0} (d : Dict V) → get id (remove other d) ≡ get id d
  get-remove-other d = get-remove other id d ∙ rw apart refl

  enter_cooldown-IsSame :
      (f : Option NormalizedMatch) (b : Bool) (t : Tracking)
      → IsSame id t (enter_cooldown other f b t).1
  unfolding enter_cooldown
  enter_cooldown-IsSame f b t = (refl, refl, get-insert-other _ t.cooldowns)

  abandon-IsSame : (t : Tracking) → IsSame id t (abandon other t).1
  unfolding abandon enter_cooldown
  abandon-IsSame t = (get-remove-other t.transitions, refl, get-insert-other _ t.cooldowns)

  emit_give_up-IsSame :
      (found : Tracker) (fresh baseline stored : Option NormalizedMatch) (t : Tracking)
      → IsSame id t (emit_give_up other found fresh baseline stored t).1
  unfolding emit_give_up
  emit_give_up-IsSame found fresh baseline stored t =
      let next = record (emitted found) { give_up_pending = true } in
      let put = record t { transitions = insert other next t.transitions } in
      let over_limit = ltb max_give_up_emissions (emitted found).give_up_emissions in
      elim (build_give_up_snapshot true found.fallback fresh baseline stored)
        as (λ o.
          IsSame id t
            (elim o as (λ _. Option NormalizedMatch × Tracking) [
              | none ↦ (none, (abandon other t).1)
              | some s ↦ if over_limit then (none, (abandon other t).1) else (some s, put)
            ]).1) [
              | none ↦ abandon-IsSame t
              | some s ↦
                  if-cases (λ (r : Option NormalizedMatch × Tracking). IsSame id t r.1) over_limit
                    (none, (abandon other t).1) (some s, put) (λ _. abandon-IsSame t)
                    (λ _. (get-insert-other next t.transitions, refl, refl))
            ]

  emit_backfill_give_up-IsSame :
      (found : Tracker) (fresh baseline stored : Option NormalizedMatch) (t : Tracking)
      → IsSame id t (emit_backfill_give_up other found fresh baseline stored t).1.1
  unfolding emit_backfill_give_up enter_cooldown
  emit_backfill_give_up-IsSame found fresh baseline stored t =
      let next = record (emitted found) { give_up_pending = true } in
      let put = record t { backfill = insert other next t.backfill } in
      let given : IsSame id t (abandon_backfill other found t) =
        (refl, get-remove-other t.backfill, get-insert-other _ t.cooldowns) in
      let over_limit = ltb max_give_up_emissions (emitted found).give_up_emissions in
      elim (build_give_up_snapshot false found.fallback fresh baseline stored)
        as (λ o.
          IsSame id t
            (elim o as (λ _. Option NormalizedMatch × (Bool × Tracking)) [
              | none ↦ (none, (false, abandon_backfill other found t))
              | some s ↦
                  if over_limit
                  then (none, (false, abandon_backfill other found t))
                  else (some s, (true, put))
            ]).1.1) [
              | none ↦ given
              | some s ↦
                  if-cases (λ (r : Option NormalizedMatch × (Bool × Tracking)). IsSame id t r.1.1)
                    over_limit (none, (false, abandon_backfill other found t)) (some s, (true, put))
                    (λ _. given) (λ _. (refl, get-insert-other next t.backfill, refl))
            ]

  accrue_while_cooling-IsSame :
      (m : NormalizedMatch) (drift : Bool) (p : Poll)
      → IsSame id p.tracking (accrue_while_cooling other m drift p).tracking
  unfolding accrue_while_cooling
  accrue_while_cooling-IsSame m drift p = by_entry (get other p.tracking.cooldowns) refl
    where
      by_entry :
          (o : Option Cooldown)
          → get other p.tracking.cooldowns ≡ o
          → IsSame id p.tracking (accrue_while_cooling other m drift p).tracking
      by_entry none e = rw (e, accrue_while_cooling) (refl, refl, refl)
      by_entry (some c) e =
          rw (e, accrue_while_cooling) (refl, refl, get-insert-other _ p.tracking.cooldowns)

apart_of : (id other : String) → id ≢ other → other == id ≡ false
apart_of id other n = elim (Bool-cases (other == id)) [
  | inl e ↦ absurd (n (sym ((==_iff other id).0 e)))
  | inr e ↦ e
]

-- A turn that owns only other matches leaves this one's entries.
Turn-IsSame :
    (v : View) (id : String) {May : Bool → Poll → Type 0} {p q : Poll}
    → Turn v (λ other. id ≢ other) May p q
    → IsSame id p.tracking q.tracking
unfolding give_up backfill_give_up
Turn-IsSame v id (stays p) = (refl, refl, refl)
Turn-IsSame v id (chains {p = p} {q = q} {r = r} a b) =
    IsSame-trans id p.tracking q.tracking r.tracking (Turn-IsSame v id a) (Turn-IsSame v id b)
Turn-IsSame v id (queues m p) = (refl, refl, refl)
Turn-IsSame v id (tracks other found p own) =
    (get-insert-other id other (apart_of id other own) found p.tracking.transitions, refl, refl)
Turn-IsSame v id (backfills other found p own) =
    (refl, get-insert-other id other (apart_of id other own) found p.tracking.backfill, refl)
Turn-IsSame v id (gives_up other found fresh p own) =
    subst (IsSame id p.tracking) (sym (tracking-queue_if_some _ _)) (
      emit_give_up-IsSame id other (apart_of id other own) found fresh (get other v.last)
        (stored_snapshot v other) p.tracking)
Turn-IsSame v id (gives_up_backfill other found fresh p own) =
    subst (IsSame id p.tracking) (sym (tracking-queue_if_some _ _)) (
      emit_backfill_give_up-IsSame id other (apart_of id other own) found fresh (get other v.last)
        (stored_snapshot v other) p.tracking)
Turn-IsSame v id (accrues other m drift p own) =
    accrue_while_cooling-IsSame id other (apart_of id other own) m drift p
Turn-IsSame v id (pends other p) = (refl, refl, refl)
Turn-IsSame v id (resumes other p) = (refl, refl, refl)
Turn-IsSame v id (fetches other b p may) = (refl, refl, refl)

-- If the detail that the provider gives for a board, where it gives one, has the board's
-- match id, the loop body of _fetch_poll_snapshots leaves the trackers and the cooldown of
-- every other match as they are: a match whose detail cannot be fetched never disturbs
-- another.
pub step_board-IsSame :
    (v : View) (m : NormalizedMatch) (p : Poll) (id : String)
    → ((d : NormalizedMatch)
        → v.fetch_match_detail m.match_id ≡ fetched d
        → d.match_id ≡ m.match_id)
    → id ≢ m.match_id
    → IsSame id p.tracking (step_board v m p).tracking
step_board-IsSame v m p id answers n =
    Turn-IsSame v id (step_board-Turn v (λ other. id ≢ other) m p n (λ d e k. n (k ∙ answers d e)))
