-- ===== src/Engine/Tracking/Durable/Resolved.antt =====
-- What a durable snapshot settles for the trackers and cooldowns of gamecollect/engine.py.
use gamealerts_collector.Prelude.{
  ℕ, String, ◌≡◌, refl, ap, subst, sym, ◌∙◌, ltb, Bool, true, false, List, Option, none, some,
  arith, string_eq, if◌then◌else◌,
}
use gamealerts_collector.Dict.{Dict, get, remove, get-insert_self, get-remove_self}
use gamealerts_collector.Provider.{is_live, NormalizedMatch}
use gamealerts_collector.Engine.Tracking.{Cooldown, Tracking, listed, cooling_down}
use gamealerts_collector.Engine.Tracking.Durable.{
  clear_cooling_gate, reconcile_live_apply, unsuperseded, resolve_backfill_tracker,
  on_durable_snapshot,
}

-- Nothing of the match is tracked any more.
abbrev pub IsForgotten : String → Tracking → Type 0
IsForgotten id t =
    (get id t.transitions ≡ none) × (get id t.backfill ≡ none) × (get id t.cooldowns ≡ none)

-- After a durable snapshot with a status that is not live, the match has no tracker, no
-- backfill tracker and no cooldown.
pub on_durable_snapshot-IsForgotten :
    (id : String) (m : NormalizedMatch) (resumed : List String) (advanced : Bool) (t : Tracking)
    → is_live m.status ≡ false
    → IsForgotten id (on_durable_snapshot id m resumed advanced t)
unfolding on_durable_snapshot
on_durable_snapshot-IsForgotten id m resumed advanced t h = ground (
  arith,
  get-remove_self id t.transitions,
  get-remove_self id t.backfill,
  get-remove_self id t.cooldowns,
  get-remove_self id (remove id t.cooldowns),
)

-- A cooldown's epoch, if there is one.
abbrev pub epoch_of : String → Tracking → Option ℕ
epoch_of id t = elim (get id t.cooldowns) [ none ↦ none | some c ↦ some c.epoch ]

pub cooldowns-reconcile_live_apply :
    (id : String) (m : NormalizedMatch) (t : Tracking)
    → (reconcile_live_apply id m t).cooldowns ≡ t.cooldowns
unfolding reconcile_live_apply
cooldowns-reconcile_live_apply id m t = ground arith

-- The gate is open, and the epoch is the same.
abbrev IsCleared : String → Tracking → Tracking → Type 0
IsCleared id t t' = (cooling_down id t' ≡ false) × (epoch_of id t' ≡ epoch_of id t)

clear_cooling_gate-IsCleared :
    (id : String) (m : NormalizedMatch) (t : Tracking) → IsCleared id t (clear_cooling_gate id m t)
unfolding clear_cooling_gate cooling_down
clear_cooling_gate-IsCleared id m t = by_entry (get id t.cooldowns) refl
  where
    by_entry :
        (o : Option Cooldown) → get id t.cooldowns ≡ o → IsCleared id t (clear_cooling_gate id m t)
    by_entry none e = ground arith
    by_entry (some c) e =
        let now =
          get-insert_self id (record c { remaining = 0; fallback = unsuperseded m c.fallback })
            t.cooldowns in
        ground (arith, now)

IsCleared-by_cooldowns :
    (id : String) (t a b : Tracking)
    → a.cooldowns ≡ b.cooldowns
    → IsCleared id t a
    → IsCleared id t b
unfolding cooling_down
IsCleared-by_cooldowns id t a b p h = (
  ap
        (λ (d : Dict Cooldown). elim (get id d) as (λ _. Bool) [
          | none ↦ false
          | some c ↦ ltb 0 c.remaining
        ])
        (sym p)
      ∙ h.0,
  ap
        (λ (d : Dict Cooldown). elim (get id d) as (λ _. Option ℕ) [
          | none ↦ none
          | some c ↦ some c.epoch
        ])
        (sym p)
      ∙ h.1,
)

cooldowns-resolve_backfill_tracker :
    (id : String) (t : Tracking)
    → get id t.backfill ≡ none
    → (resolve_backfill_tracker id t).cooldowns ≡ t.cooldowns
unfolding resolve_backfill_tracker
cooldowns-resolve_backfill_tracker id t b = rw b

gate-IsCleared :
    (id : String) (m : NormalizedMatch) (resumed : Bool) (t : Tracking)
    → let t2 = clear_cooling_gate id m t in
      IsCleared id t (if resumed then reconcile_live_apply id m t2 else t2)
gate-IsCleared id m true t =
    let t2 = clear_cooling_gate id m t in
    IsCleared-by_cooldowns id t t2 (reconcile_live_apply id m t2)
      (sym (cooldowns-reconcile_live_apply id m t2)) (clear_cooling_gate-IsCleared id m t)
gate-IsCleared id m false t = clear_cooling_gate-IsCleared id m t

on_live :
    (id : String) (m : NormalizedMatch) (resumed : List String) (t : Tracking)
    → is_live m.status ≡ true
    → let t1 = resolve_backfill_tracker id t in
      let t2 = clear_cooling_gate id m t1 in
      on_durable_snapshot id m resumed true t
      ≡ (if listed id resumed then reconcile_live_apply id m t2 else t2)
unfolding on_durable_snapshot
on_live id m resumed t h = rw h

-- After a durable live snapshot that advanced the state of a match with no backfill
-- tracker, the match is not cooling down, and the epoch of its cooldown, if it has one, is
-- the same as before.
pub on_durable_snapshot-live :
    (id : String) (m : NormalizedMatch) (resumed : List String) (t : Tracking)
    → is_live m.status ≡ true
    → get id t.backfill ≡ none
    → (cooling_down id (on_durable_snapshot id m resumed true t) ≡ false)
      × (epoch_of id (on_durable_snapshot id m resumed true t) ≡ epoch_of id t)
on_durable_snapshot-live id m resumed t h b =
    let t1 = resolve_backfill_tracker id t in
    let cleared =
      subst (IsCleared id t1) (sym (on_live id m resumed t h))
        (gate-IsCleared id m (listed id resumed) t1) in
    (
      cleared.0,
      cleared.1
          ∙ ap
              (λ (d : Dict Cooldown). elim (get id d) as (λ _. Option ℕ) [
                | none ↦ none
                | some c ↦ some c.epoch
              ])
              (cooldowns-resolve_backfill_tracker id t b),
    )

-- A live snapshot that did not advance the state of a match with no backfill tracker
-- changes neither its cooldown nor its tracker.
pub on_durable_snapshot-unchanged :
    (id : String) (m : NormalizedMatch) (resumed : List String) (t : Tracking)
    → is_live m.status ≡ true
    → get id t.backfill ≡ none
    → (get id (on_durable_snapshot id m resumed false t).cooldowns ≡ get id t.cooldowns)
      × (get id (on_durable_snapshot id m resumed false t).transitions ≡ get id t.transitions)
unfolding on_durable_snapshot
on_durable_snapshot-unchanged id m resumed t h b = ground arith
