-- ===== src/Engine/Poll/Kept.antt =====
-- What a poll of gamecollect/engine.py makes of the matches in transition before it applies
-- anything.
pub mod Run
use gamealerts_collector.Prelude.{
  ℕ, String, ◌≡◌, refl, ◌∙◌, ap, subst, sym, ◌⊎◌, inl, inr, Bool, Bool-cases, true, false, ◌||◌,
  List, [], ◌∷◌, Option, none, some, arith, ltb, if◌then◌else◌, if-cases, ◌==◌, ==_iff, string_eq,
}
use gamealerts_collector.Dict.{
  Dict, get, contains, insert, remove, get-insert, get-insert_self, get-remove,
}
use gamealerts_collector.Provider.{NormalizedMatch}
use gamealerts_collector.Writer.Table.{MatchRow}
use gamealerts_collector.FallbackMerge.{accrue_fallback}
use gamealerts_collector.Engine.Tracking.{
  Cooldown, Tracker, Tracking, new_tracker, seed, cooling_down, tracker, backfill_tracker,
  age_cooldowns, evict_all, evict_match_tracking, enter_cooldown, abandon,
}
use gamealerts_collector.Engine.GiveUp.{
  build_give_up_snapshot, abandon_backfill, emit_give_up, emit_backfill_give_up,
  max_give_up_emissions, emitted,
}
use gamealerts_collector.Engine.GiveUp.Bounded.{enter_cooldown-cools}
use gamealerts_collector.Engine.Poll.State.{
  View, Poll, queue_if_some, stored_snapshot, give_up, backfill_give_up,
}
use gamealerts_collector.Engine.Poll.Board.{accrue_while_cooling, step_board}
use gamealerts_collector.Engine.Poll.Vanished.{
  step_vanished, run_vanished, vanished_ids, step_backfill, run_backfill_pass,
  hydrate_vanished_backfill_matches, hydrate_vanished_matches, sorted_ids, off_slate, keys,
}
use gamealerts_collector.Engine.Poll.Restart.{
  seed_tracker, seed_live_rows, seed_restart_trackers, seed_backfill, seed_eventless_rows,
  seed_restart_backfill_trackers,
}
use gamealerts_collector.Engine.Poll.Slate.{
  slate_ids, run_slate, begin, restart_scan, fetch_poll_snapshots,
}
use gamealerts_collector.Engine.Poll.Turn.{
  Turn, stays, chains, queues, tracks, backfills, gives_up, gives_up_backfill, accrues, pends,
  resumes, fetches,
}
use gamealerts_collector.Engine.Poll.Turn.Boards.{step_board-Turn}
use gamealerts_collector.Engine.Poll.Turn.Gone.{step_vanished-Turn, step_backfill-rule}

-- The match is followed, or it waits.
abbrev pub IsKept : String → Tracking → Type 0
IsKept id t = (contains id t.transitions ≡ true) ⊎ (cooling_down id t ≡ true)

contains-insert :
    {V : Type 0} (k j : String) (v : V) (d : Dict V)
    → contains j d ≡ true
    → contains j (insert k v d) ≡ true
contains-insert k j v d h = ground (arith, get-insert k j v d)

cooling_down-same :
    (id : String) (t u : Tracking)
    → get id u.cooldowns ≡ get id t.cooldowns
    → cooling_down id u ≡ cooling_down id t
unfolding cooling_down
cooling_down-same id t u e =
    ap
      (λ (o : Option Cooldown). elim o as (λ _. Bool) [ none ↦ false | some c ↦ ltb 0 c.remaining ])
      e

cooling_down-enter_cooldown :
    (id other : String) (f : Option NormalizedMatch) (b : Bool) (t : Tracking)
    → cooling_down id t ≡ true
    → cooling_down id (enter_cooldown other f b t).1 ≡ true
cooling_down-enter_cooldown id other f b t h = elim (Bool-cases (other == id)) [
  | inl e ↦
      subst (λ x. cooling_down x (enter_cooldown other f b t).1 ≡ true) ((==_iff other id).0 e)
        (enter_cooldown-cools other f b t)
  | inr e ↦
      cooling_down-same id t (enter_cooldown other f b t).1
        (unfold enter_cooldown in get-insert other id _ t.cooldowns ∙ rw e refl)
      ∙ h
]

-- A cooldown that is entered keeps the match, whatever becomes of its tracker.
enter_cooldown-IsKept :
    (id other : String) (f : Option NormalizedMatch) (b : Bool) (t u : Tracking)
    → (other == id ≡ false → contains id u.transitions ≡ contains id t.transitions)
    → u.cooldowns ≡ t.cooldowns
    → IsKept id t
    → IsKept id (enter_cooldown other f b u).1
enter_cooldown-IsKept id other f b t u same cool h = elim (Bool-cases (other == id)) [
  | inl e ↦ inr (
      subst (λ x. cooling_down x (enter_cooldown other f b u).1 ≡ true) ((==_iff other id).0 e)
        (enter_cooldown-cools other f b u))
  | inr e ↦ elim h [
    | inl k ↦ inl (unfold enter_cooldown in (same e ∙ k))
    | inr k ↦
        let c = cooling_down-same id t u (ap (get id) cool) ∙ k in
        inr (cooling_down-enter_cooldown id other f b u c)
  ]
]

contains-remove :
    {V : Type 0} (k j : String) (d : Dict V)
    → k == j ≡ false
    → contains j (remove k d) ≡ contains j d
contains-remove k j d h = ground (arith, get-remove k j d)

abandon-IsKept : (id other : String) (t : Tracking) → IsKept id t → IsKept id (abandon other t).1
unfolding abandon
abandon-IsKept id other t h =
    enter_cooldown-IsKept id other _ false t _ (contains-remove other id t.transitions) refl h

pub insert-IsKept :
    (id other : String) (found : Tracker) (t : Tracking)
    → IsKept id t
    → IsKept id (record t { transitions = insert other found t.transitions })
unfolding cooling_down
insert-IsKept id other found t (inl h) = inl (contains-insert other id found t.transitions h)
insert-IsKept id other found t (inr h) = inr h

pub backfill-IsKept :
    (id : String) (d : Dict Tracker) (t : Tracking)
    → IsKept id t
    → IsKept id (record t { backfill = d })
unfolding cooling_down
backfill-IsKept id d t h = h

pub emit_give_up-IsKept :
    (id other : String) (found : Tracker) (fresh baseline stored : Option NormalizedMatch)
    (t : Tracking)
    → IsKept id t
    → IsKept id (emit_give_up other found fresh baseline stored t).1
unfolding emit_give_up
emit_give_up-IsKept id other found fresh baseline stored t h =
    let next = record (emitted found) { give_up_pending = true } in
    let put = record t { transitions = insert other next t.transitions } in
    let given = abandon-IsKept id other t h in
    let over_limit = ltb max_give_up_emissions (emitted found).give_up_emissions in
    elim (build_give_up_snapshot true found.fallback fresh baseline stored)
      as (λ o.
        IsKept id
          (elim o as (λ _. Option NormalizedMatch × Tracking) [
            | none ↦ (none, (abandon other t).1)
            | some s ↦ if over_limit then (none, (abandon other t).1) else (some s, put)
          ]).1) [
            | none ↦ given
            | some s ↦
                if-cases (λ (r : Option NormalizedMatch × Tracking). IsKept id r.1) over_limit
                  (none, (abandon other t).1) (some s, put) (λ _. given)
                  (λ _. insert-IsKept id other next t h)
          ]

pub emit_backfill_give_up-IsKept :
    (id other : String) (found : Tracker) (fresh baseline stored : Option NormalizedMatch)
    (t : Tracking)
    → IsKept id t
    → IsKept id (emit_backfill_give_up other found fresh baseline stored t).1.1
unfolding emit_backfill_give_up
emit_backfill_give_up-IsKept id other found fresh baseline stored t h =
    let next = record (emitted found) { give_up_pending = true } in
    let put = record t { backfill = insert other next t.backfill } in
    let gone = record t { backfill = remove other t.backfill } in
    let given = enter_cooldown-IsKept id other found.fallback true t gone (λ _. refl) refl h in
    let over_limit = ltb max_give_up_emissions (emitted found).give_up_emissions in
    elim (build_give_up_snapshot false found.fallback fresh baseline stored)
      as (λ o.
        IsKept id
          (elim o as (λ _. Option NormalizedMatch × (Bool × Tracking)) [
            | none ↦ (none, (false, abandon_backfill other found t))
            | some s ↦
                if over_limit
                then (none, (false, abandon_backfill other found t))
                else (some s, (true, put))
          ]).1.1) [
            | none ↦ given
            | some s ↦
                if-cases (λ (r : Option NormalizedMatch × (Bool × Tracking)). IsKept id r.1.1)
                  over_limit (none, (false, abandon_backfill other found t)) (some s, (true, put))
                  (λ _. given) (λ _. backfill-IsKept id (insert other next t.backfill) t h)
          ]

cooldown-IsKept :
    (id other : String) (c c' : Cooldown) (t : Tracking)
    → get other t.cooldowns ≡ some c
    → c'.remaining ≡ c.remaining
    → IsKept id t
    → IsKept id (record t { cooldowns = insert other c' t.cooldowns })
unfolding cooling_down
cooldown-IsKept id other c c' t e same h =
    ground (arith, ==_iff other id, get-insert other id c' t.cooldowns)

pub accrue_while_cooling-IsKept :
    (id other : String) (m : NormalizedMatch) (drift : Bool) (p : Poll)
    → IsKept id p.tracking
    → IsKept id (accrue_while_cooling other m drift p).tracking
unfolding accrue_while_cooling
accrue_while_cooling-IsKept id other m drift p h = by_entry (get other p.tracking.cooldowns) refl
  where
    by_entry :
        (o : Option Cooldown)
        → get other p.tracking.cooldowns ≡ o
        → IsKept id (accrue_while_cooling other m drift p).tracking
    by_entry none e = rw (e, accrue_while_cooling) h
    by_entry (some c) e =
        let accrued = record c {
          fallback = some (accrue_fallback c.fallback m);
          drift_logged = c.drift_logged || drift;
        } in
        rw (e, accrue_while_cooling) (cooldown-IsKept id other c accrued p.tracking e refl h)

pub tracking-queue_if_some :
    (o : Option NormalizedMatch) (p : Poll) → (queue_if_some o p).tracking ≡ p.tracking
tracking-queue_if_some none p = refl
tracking-queue_if_some (some m) p = refl
