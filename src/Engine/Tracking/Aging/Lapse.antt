-- ===== src/Engine/Tracking/Aging/Lapse.antt =====
-- How the cooldowns of gamecollect/engine.py lapse and are purged over a run of polls.
use gamealerts_collector.Prelude.{
  ℕ, suc, ◌+◌, ◌-◌, ◌≤◌, ◌*◌, min, max, String, ◌≡◌, refl, ◌∙◌, ap, Bool, true, false, List, [],
  ◌∷◌, Option, none, some, arith, ltb, length, All, string_eq, if◌then◌else◌,
}
use gamealerts_collector.Dict.{get, contains, IsDict, get-insert_self, insert-IsDict}
use gamealerts_collector.Provider.{NormalizedMatch}
use gamealerts_collector.Engine.Tracking.{
  Cooldown, Tracking, aged, is_purged, is_seen, to_purge, evict_all, evict_match_tracking,
  age_cooldowns, cooling_down, next_epoch, enter_cooldown, listed,
}
use gamealerts_collector.Engine.Tracking.Durable.{on_durable_snapshot}
use gamealerts_collector.Engine.Tracking.Aging.Gate.{
  Step, aging, durable, run_steps, agings, IsElsewhere, on_durable_snapshot-Leaves,
}
use gamealerts_collector.Engine.Tracking.Aging.{
  interval, interval_bounds, interval_doubles, age_one, get-age_cooldowns, age_cooldowns-IsDict,
}

-- A run of polls, each with its slate.
unfoldable pub age_run : List (List String) → Tracking → Tracking
age_run [] t = t
age_run (slate ∷ slates) t = age_run slates (age_cooldowns slate t)

-- Whether a cooldown lasts beyond a number of polls.
abbrev pub outlasts : ℕ → Option Cooldown → Bool
outlasts n none = false
outlasts n (some c) = ltb n c.remaining

outlasts-age_one :
    (n : ℕ) (sees : Bool) (o : Option Cooldown) → outlasts n (age_one sees o) ≡ outlasts (suc n) o
unfolding is_purged aged
outlasts-age_one n sees none = refl
outlasts-age_one n sees (some c) = ground arith

outlasts_now : (id : String) (t : Tracking) → cooling_down id t ≡ outlasts 0 (get id t.cooldowns)
unfolding cooling_down
outlasts_now id t = by_entry (get id t.cooldowns)
  where
    by_entry :
        (o : Option Cooldown)
        → ◌≡◌ {A = Bool} (elim o [ none ↦ false | some c ↦ ltb 0 c.remaining ]) (outlasts 0 o)
    by_entry none = refl
    by_entry (some c) = refl

cooling_down-run_steps :
    (id : String) (steps : List Step) (t : Tracking)
    → IsDict t.cooldowns
    → IsElsewhere id steps
    → cooling_down id (run_steps steps t) ≡ outlasts (agings steps) (get id t.cooldowns)
unfolding run_steps
cooling_down-run_steps id [] t h away = outlasts_now id t
cooling_down-run_steps id (aging slate ∷ steps) t h away =
    cooling_down-run_steps id steps (age_cooldowns slate t) (age_cooldowns-IsDict slate t h) away
    ∙ ap (outlasts (agings steps)) (get-age_cooldowns id slate t h)
    ∙ outlasts-age_one (agings steps) (is_seen slate t id) (get id t.cooldowns)
cooling_down-run_steps id (durable other m resumed advanced ∷ steps) t h (apart, away) =
    let (same, dict) = on_durable_snapshot-Leaves id other apart m resumed advanced t h in
    cooling_down-run_steps id steps (on_durable_snapshot other m resumed advanced t) dict away
    ∙ ap (outlasts (agings steps)) same

-- The polls after which an unseen cooldown is gone.
budget : Option Cooldown → ℕ
budget none = 0
budget (some c) = if ltb 0 c.remaining then c.remaining + 256 else max 1 (256 - c.expired_unseen)

budget-age_one : (o : Option Cooldown) → budget (age_one false o) ≤ budget o - 1
unfolding budget is_purged aged
budget-age_one none = omega arith
budget-age_one (some c) = ground arith

no_budget : (o : Option Cooldown) → budget o ≤ 0 → o ≡ none
unfolding budget
no_budget none h = refl
no_budget (some c) h = ground arith

-- Two states follow the same matches.
abbrev SameTracks : Tracking → Tracking → Type 0
SameTracks a b = (a.transitions ≡ b.transitions) × (a.backfill ≡ b.backfill)

evict_all-SameTracks : (ids : List String) (t : Tracking) → SameTracks (evict_all ids t) t
unfolding evict_all evict_match_tracking
evict_all-SameTracks [] t = (refl, refl)
evict_all-SameTracks (x ∷ ids) t = evict_all-SameTracks ids (evict_match_tracking x true t)

age_cooldowns-SameTracks :
    (slate : List String) (t : Tracking) → SameTracks (age_cooldowns slate t) t
unfolding age_cooldowns
age_cooldowns-SameTracks slate t = evict_all-SameTracks (to_purge (is_seen slate t) t.cooldowns) _

-- Neither followed nor waited for.
abbrev pub IsUntracked : String → Tracking → Type 0
IsUntracked id t = (contains id t.transitions ≡ false) × (contains id t.backfill ≡ false)

IsUntracked-age_cooldowns :
    (id : String) (slate : List String) (t : Tracking)
    → IsUntracked id t
    → IsUntracked id (age_cooldowns slate t)
IsUntracked-age_cooldowns id slate t (a, b) =
    let (p, q) = age_cooldowns-SameTracks slate t in
    (ap (contains id) p ∙ a, ap (contains id) q ∙ b)

is_seen-IsUntracked :
    (id : String) (slate : List String) (t : Tracking)
    → listed id slate ≡ false
    → IsUntracked id t
    → is_seen slate t id ≡ false
is_seen-IsUntracked id slate t h (a, b) = rw (h, a, b)

spent :
    (id : String) (slates : List (List String)) (t : Tracking)
    → IsDict t.cooldowns
    → IsUntracked id t
    → All (λ slate. listed id slate ≡ false) slates
    → budget (get id t.cooldowns) ≤ length slates
    → get id (age_run slates t).cooldowns ≡ none
unfolding age_run
spent id [] t d u away h = no_budget (get id t.cooldowns) h
spent id (slate ∷ slates) t d u away h =
    let unseen = is_seen-IsUntracked id slate t away.0 u in
    let next = get-age_cooldowns id slate t d ∙ ap (λ b. age_one b (get id t.cooldowns)) unseen in
    let less = budget-age_one (get id t.cooldowns) in
    spent id slates (age_cooldowns slate t) (age_cooldowns-IsDict slate t d)
      (IsUntracked-age_cooldowns id slate t u) away.1 (omega (arith, ap budget next, less, h))

budget_bound : (c : Cooldown) → budget (some c) ≤ c.remaining + 256
unfolding budget
budget_bound c = ground arith

-- If no match has two cooldown entries, and a match with a cooldown has no tracker and is
-- on no slate of a run of polls that is at least 256 polls longer than what remains of its
-- cooldown, the entry is gone after the run.
pub age_run-purges :
    (id : String) (slates : List (List String)) (c : Cooldown) (t : Tracking)
    → IsDict t.cooldowns
    → get id t.cooldowns ≡ some c
    → IsUntracked id t
    → All (λ slate. listed id slate ≡ false) slates
    → c.remaining + 256 ≤ length slates
    → get id (age_run slates t).cooldowns ≡ none
age_run-purges id slates c t d here u away h =
    spent id slates t d u away (omega (arith, ap budget here, budget_bound c, h))

-- The epoch that the next abandonment of a match starts.
abbrev pub epoch_after : String → Tracking → ℕ
epoch_after id t = next_epoch (get id t.cooldowns)

next_epoch-positive : (o : Option Cooldown) → 1 ≤ next_epoch o
next_epoch-positive none = omega arith
next_epoch-positive (some c) = omega arith

-- If no match has two cooldown entries, _enter_cooldown starts the epoch after the match's
-- last one, or the first. Over any run of steps, each of which is _age_cooldowns with any
-- slate or _on_durable_snapshot of another match, the match then cools down for exactly
-- min(8 * 2 ** (epoch - 1), 256) runs of _age_cooldowns; that number lies between 8 and
-- 256, and the next epoch doubles it up to 256. A durable snapshot of the match itself is
-- not among the steps.
pub cooling_down-enter_cooldown :
    (id : String) (fallback : Option NormalizedMatch) (from_backfill : Bool) (steps : List Step)
    (t : Tracking)
    → IsDict t.cooldowns
    → IsElsewhere id steps
    → let (epoch, t') = enter_cooldown id fallback from_backfill t in
      (epoch ≡ epoch_after id t)
      × (cooling_down id (run_steps steps t') ≡ ltb (agings steps) (interval epoch))
      × (8 ≤ interval epoch)
      × (interval epoch ≤ 256)
      × (interval (epoch + 1) ≡ min (2 * interval epoch) 256)
unfolding enter_cooldown
cooling_down-enter_cooldown id fallback from_backfill steps t d away =
    let t' = (enter_cooldown id fallback from_backfill t).1 in
    (
      refl,
      cooling_down-run_steps id steps t' (insert-IsDict id _ t.cooldowns d) away
          ∙ ap (outlasts (agings steps)) (get-insert_self id _ t.cooldowns),
      (interval_bounds (epoch_after id t)).0,
      (interval_bounds (epoch_after id t)).1,
      interval_doubles (epoch_after id t) (next_epoch-positive (get id t.cooldowns)),
    )
