-- ===== src/Engine/Tracking/Aging/Gate.antt =====
-- How long a cooldown of gamecollect/engine.py lasts, between what is settled of other matches.
use gamealerts_collector.Prelude.{
  ℕ, suc, String, ◌≡◌, refl, sym, ap, subst, ◌∙◌, Bool, false, List, [], ◌∷◌, Option, none, some,
  string_eq, ◌==◌, if-cases, is_some,
}
use gamealerts_collector.Dict.{get, insert, get-insert, get-remove, IsDict, insert-IsDict}
use gamealerts_collector.Provider.{is_live, NormalizedMatch}
use gamealerts_collector.Engine.Tracking.{
  Cooldown, Tracking, listed, evict_match_tracking, age_cooldowns,
}
use gamealerts_collector.Engine.Tracking.Durable.{
  clear_cooling_gate, reconcile_live_apply, unsuperseded, resolve_tracker, resolve_backfill_tracker,
  on_durable_snapshot,
}
use gamealerts_collector.Engine.Tracking.Durable.Resolved.{cooldowns-reconcile_live_apply}
use gamealerts_collector.Engine.Tracking.Aging.{remove-IsDict}

module _ (id other : String) (apart : (other == id) ≡ false) where
  -- The cooldown of the match is as before.
  abbrev pub Leaves : Tracking → Tracking → Type 0
  Leaves t u = (get id u.cooldowns ≡ get id t.cooldowns) × IsDict u.cooldowns

  Leaves-trans : (t u v : Tracking) → Leaves t u → Leaves u v → Leaves t v
  Leaves-trans t u v h k = (k.0 ∙ h.0, k.1)

  evict_match_tracking-Leaves :
      (b : Bool) (t : Tracking) → IsDict t.cooldowns → Leaves t (evict_match_tracking other b t)
  unfolding evict_match_tracking
  evict_match_tracking-Leaves b t d =
      (get-remove other id t.cooldowns ∙ rw apart refl, remove-IsDict other t.cooldowns d)

  resolve_tracker-Leaves : (t : Tracking) → IsDict t.cooldowns → Leaves t (resolve_tracker other t)
  unfolding resolve_tracker
  resolve_tracker-Leaves t d = evict_match_tracking-Leaves false t d

  resolve_backfill_tracker-Leaves :
      (t : Tracking) → IsDict t.cooldowns → Leaves t (resolve_backfill_tracker other t)
  unfolding resolve_backfill_tracker
  resolve_backfill_tracker-Leaves t d =
      if-cases (Leaves t) (is_some (get other t.backfill)) _ _
        (λ _. evict_match_tracking-Leaves false t d) (λ _. (refl, d))

  clear_cooling_gate-Leaves :
      (m : NormalizedMatch) (t : Tracking)
      → IsDict t.cooldowns
      → Leaves t (clear_cooling_gate other m t)
  unfolding clear_cooling_gate
  clear_cooling_gate-Leaves m t d = by_entry (get other t.cooldowns)
    where
      by_entry :
          (o : Option Cooldown)
          → Leaves t (elim o [
            | none ↦ t
            | some c ↦ record t {
              cooldowns =
                  insert other
                    (record c { remaining = 0; fallback = unsuperseded m c.fallback })
                    t.cooldowns;
            }
          ])
      by_entry none = (refl, d)
      by_entry (some c) =
          (get-insert other id _ t.cooldowns ∙ rw apart refl, insert-IsDict other _ t.cooldowns d)

  reconcile_live_apply-Leaves :
      (m : NormalizedMatch) (t : Tracking)
      → IsDict t.cooldowns
      → Leaves t (reconcile_live_apply other m t)
  unfolding reconcile_live_apply
  reconcile_live_apply-Leaves m t d =
      let same = cooldowns-reconcile_live_apply other m t in
      (ap (get id) same, subst IsDict (sym same) d)

  pub on_durable_snapshot-Leaves :
      (m : NormalizedMatch) (resumed : List String) (advanced : Bool) (t : Tracking)
      → IsDict t.cooldowns
      → Leaves t (on_durable_snapshot other m resumed advanced t)
  unfolding on_durable_snapshot
  on_durable_snapshot-Leaves m resumed advanced t d =
      let t1 = resolve_backfill_tracker other t in
      let first = resolve_backfill_tracker-Leaves t d in
      let t2 = clear_cooling_gate other m t1 in
      let second = clear_cooling_gate-Leaves m t1 first.1 in
      Leaves-trans t t1 (on_durable_snapshot other m resumed advanced t) first (
        if-cases (Leaves t1) (is_live m.status) _ (resolve_tracker other t1)
          (λ _.
            if-cases (Leaves t1) advanced _ t1
              (λ _.
                if-cases (Leaves t1) (listed other resumed) (reconcile_live_apply other m t2) t2
                  (λ _.
                    Leaves-trans t1 t2 (reconcile_live_apply other m t2) second
                      (reconcile_live_apply-Leaves m t2 second.1))
                  (λ _. second))
              (λ _. (refl, first.1)))
          (λ _. resolve_tracker-Leaves t1 first.1))

-- A step of a poll that bears on the cooldowns: their aging, with the slate, or what is settled
-- by a durable snapshot.
pub data Step : Type 0 where
  aging : List String → Step
  durable : String → NormalizedMatch → List String → Bool → Step

unfoldable pub run_steps : List Step → Tracking → Tracking
run_steps [] t = t
run_steps (aging slate ∷ steps) t = run_steps steps (age_cooldowns slate t)
run_steps (durable id m resumed advanced ∷ steps) t =
    run_steps steps (on_durable_snapshot id m resumed advanced t)

-- how often the cooldowns age
abbrev pub agings : List Step → ℕ
agings [] = 0
agings (aging slate ∷ steps) = suc (agings steps)
agings (durable id m resumed advanced ∷ steps) = agings steps

-- No step settles the match.
abbrev pub IsElsewhere : String → List Step → Type 0
IsElsewhere id [] = Unit
IsElsewhere id (aging slate ∷ steps) = IsElsewhere id steps
IsElsewhere id (durable other m resumed advanced ∷ steps) =
    ((other == id) ≡ false) × IsElsewhere id steps
