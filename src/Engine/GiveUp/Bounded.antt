-- ===== src/Engine/GiveUp/Bounded.antt =====
-- The emissions of _emit_give_up of gamecollect/engine.py and the cooldown behind them.
use gamealerts_collector.Prelude.{
  ℕ, suc, ◌<◌, String, ◌≡◌, refl, ◌∙◌, ap, ◌⊎◌, inl, inr, Bool, true, false, Option, none, some,
  arith, is_some, ltb, if◌then◌else◌,
}
use gamealerts_collector.Dict.{get, insert, remove, get-insert_self, get-remove_self}
use gamealerts_collector.Provider.{NormalizedMatch}
use gamealerts_collector.Engine.Tracking.{
  Cooldown, Tracker, Tracking, fallback_of, abandon, enter_cooldown, cooling_down,
}
use gamealerts_collector.Engine.Tracking.Aging.{interval, interval_bounds}
use gamealerts_collector.Engine.GiveUp.{
  build_give_up_snapshot, emitted, emit_give_up, max_give_up_emissions,
}

pub enter_cooldown-cools :
    (id : String) (fallback : Option NormalizedMatch) (b : Bool) (t : Tracking)
    → cooling_down id (enter_cooldown id fallback b t).1 ≡ true
unfolding enter_cooldown cooling_down
enter_cooldown-cools id fallback b t =
    ap
      (λ (o : Option Cooldown). elim o as (λ _. Bool) [ none ↦ false | some c ↦ ltb 0 c.remaining ])
      (get-insert_self id _ t.cooldowns)
    ∙ positive (enter_cooldown id fallback b t).0
  where
    positive : (epoch : ℕ) → ltb 0 (interval epoch) ≡ true
    positive epoch = let bound = (interval_bounds epoch).0 in ground (arith, bound)

-- The match is followed no more, and waits.
abbrev pub IsWaiting : String → Tracking → Type 0
IsWaiting id t = (get id t.transitions ≡ none) × (cooling_down id t ≡ true)

abandon-IsWaiting : (id : String) (t : Tracking) → IsWaiting id (abandon id t).1
abandon-IsWaiting id t =
    unfold abandon in
    (
      get-remove_self id t.transitions,
      enter_cooldown-cools id (fallback_of (get id t.transitions)) false
          (record t { transitions = remove id t.transitions }),
    )

-- One more emission is counted, or the match waits.
abbrev pub IsBounded : String → Tracker → Option NormalizedMatch × Tracking → Type 0
IsBounded id tracker (out, t') =
    ((is_some out ≡ true)
      × (tracker.give_up_emissions < 3)
      × (get id t'.transitions ≡ some (record (emitted tracker) { give_up_pending = true })))
    ⊎ ((out ≡ none) × IsWaiting id t')

-- _emit_give_up either emits a snapshot, which it does only if fewer than 3 emissions were
-- counted, and stores the tracker with one more emission and a pending give-up; or it emits
-- none, and then the match has no tracker and cools down.
pub emit_give_up-IsBounded :
    (id : String) (tracker : Tracker) (fresh baseline stored : Option NormalizedMatch)
    (t : Tracking)
    → IsBounded id tracker (emit_give_up id tracker fresh baseline stored t)
unfolding emit_give_up
emit_give_up-IsBounded id tracker fresh baseline stored t =
    by_snapshot (build_give_up_snapshot true tracker.fallback fresh baseline stored)
  where
    by_count :
        (b : Bool) (s : NormalizedMatch)
        → ltb max_give_up_emissions (suc tracker.give_up_emissions) ≡ b
        → let next = record (emitted tracker) { give_up_pending = true } in
          IsBounded id tracker (
            if b
            then (none, (abandon id t).1)
            else (some s, record t { transitions = insert id next t.transitions }))
    by_count true s e = inr (refl, abandon-IsWaiting id t)
    by_count false s e = inl (refl, ground arith, get-insert_self id _ t.transitions)

    by_snapshot :
        (o : Option NormalizedMatch)
        → let next = record (emitted tracker) { give_up_pending = true } in
          let result : Option NormalizedMatch × Tracking = elim o [
            | none ↦ (none, (abandon id t).1)
            | some s ↦
                if ltb max_give_up_emissions (suc tracker.give_up_emissions)
                then (none, (abandon id t).1)
                else (some s, record t { transitions = insert id next t.transitions })
          ] in
          IsBounded id tracker result
    by_snapshot none = inr (refl, abandon-IsWaiting id t)
    by_snapshot (some s) =
        by_count (ltb max_give_up_emissions (suc tracker.give_up_emissions)) s refl
