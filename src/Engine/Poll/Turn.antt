-- ===== src/Engine/Poll/Turn.antt =====
-- What one turn of a loop of _fetch_poll_snapshots of gamecollect/engine.py can do: a chain of small
-- changes, to the entries of the match ids that `Owns` admits,
-- with the detail fetches that `May` admits.
pub mod Boards
pub mod Gone
use gamealerts_collector.Prelude.{
  ℕ, suc, ◌≤◌, ◌≡◌, refl, sym, subst, String, Bool, true, false, not, ◌&&◌, ◌∷◌, Option, none, some,
  arith, leb, if◌then◌else◌, is_some,
}
use gamealerts_collector.Dict.{get}
use gamealerts_collector.Provider.{is_live, NormalizedMatch}
use gamealerts_collector.Merge.{merge_detail, lags}
use gamealerts_collector.FallbackMerge.{is_terminal}
use gamealerts_collector.Engine.Tracking.{
  Tracker, Tracking, new_tracker, seed, tracker, backfill_tracker, register_backfill_apply_failure,
  tracker_at_cap, backfill_tracker_at_cap,
}
use gamealerts_collector.Engine.Tracking.Durable.{reset_resumption_budget}
use gamealerts_collector.Engine.Poll.State.{
  backfill_max_fetches_per_poll, Fetched, fetched, unavailable, shape_drift, View, Poll, queue,
  request, give_up, backfill_give_up, put_tracker, put_backfill, note_pending, charge,
}
use gamealerts_collector.Engine.Poll.Board.{
  Case, classify, give_up_if_at_cap, fail_backfill, accrue_while_cooling, failed, unfinished,
  on_failure, clear_failures, queue_if_live, on_nonterminal, on_detail, hydrate, defer_backfill,
  due, budgeted, process, resume, act, step_board,
}

pub data Turn (v : View) (Owns : String → Type 0) (May : Bool → Poll → Type 0)
    : Poll → Poll → Type 0 where
  stays : (p : Poll) → Turn v Owns May p p
  chains : {p q r : Poll} → Turn v Owns May p q → Turn v Owns May q r → Turn v Owns May p r
  queues : (m : NormalizedMatch) (p : Poll) → Turn v Owns May p (queue m p)
  tracks :
      (id : String) (found : Tracker) (p : Poll)
      → Owns id
      → Turn v Owns May p (put_tracker id found p)
  backfills :
      (id : String) (found : Tracker) (p : Poll)
      → Owns id
      → Turn v Owns May p (put_backfill id found p)
  gives_up :
      (id : String) (found : Tracker) (fresh : Option NormalizedMatch) (p : Poll)
      → Owns id
      → Turn v Owns May p (give_up v id found fresh p)
  gives_up_backfill :
      (id : String) (found : Tracker) (fresh : Option NormalizedMatch) (p : Poll)
      → Owns id
      → Turn v Owns May p (backfill_give_up v id found fresh p)
  accrues :
      (id : String) (m : NormalizedMatch) (drift : Bool) (p : Poll)
      → Owns id
      → Turn v Owns May p (accrue_while_cooling id m drift p)
  pends : (id : String) (p : Poll) → Turn v Owns May p (note_pending true id p)
  resumes :
      (id : String) (p : Poll)
      → Turn v Owns May p (record p { live_resumptions = id ∷ p.live_resumptions })
  fetches :
      (id : String) (is_backfill : Bool) (p : Poll)
      → May is_backfill p
      → Turn v Owns May p (charge id is_backfill p)

module _ (v : View) (Owns : String → Type 0) (May : Bool → Poll → Type 0) where
  -- a branch under a test
  pub either :
      (b : Bool) (p x y : Poll)
      → (b ≡ true → Turn v Owns May p x)
      → (b ≡ false → Turn v Owns May p y)
      → Turn v Owns May p (if b then x else y)
  either true p x y h k = h refl
  either false p x y h k = k refl

  pub tracker-Turn :
      (id : String) (p : Poll)
      → Owns id
      → Turn v Owns May p (record p { tracking = (tracker id p.tracking).1 })
  unfolding tracker
  tracker-Turn id p own =
      let fresh = new_tracker (seed (get id p.tracking.cooldowns)) in
      let made = (put_tracker id fresh p).tracking in
      elim (get id p.tracking.transitions)
        as (λ o. Turn v Owns May p (record p {
          tracking =
              (elim o as (λ _. Tracker × Tracking) [
                | some found ↦ (found, p.tracking)
                | none ↦ (fresh, made)
              ]).1;
        })) [ some found ↦ stays p | none ↦ tracks id fresh p own ]

  pub backfill_tracker-Turn :
      (id : String) (p : Poll)
      → Owns id
      → Turn v Owns May p (record p { tracking = (backfill_tracker id p.tracking).1 })
  unfolding backfill_tracker
  backfill_tracker-Turn id p own =
      let fresh = new_tracker (seed (get id p.tracking.cooldowns)) in
      let made = (put_backfill id fresh p).tracking in
      elim (get id p.tracking.backfill)
        as (λ o. Turn v Owns May p (record p {
          tracking =
              (elim o as (λ _. Tracker × Tracking) [
                | some found ↦ (found, p.tracking)
                | none ↦ (fresh, made)
              ]).1;
        })) [ some found ↦ stays p | none ↦ backfills id fresh p own ]

  -- a tracker that is made and then written
  pub tracker-put-Turn :
      (id : String) (found : Tracker) (p : Poll)
      → Owns id
      → Turn v Owns May p (put_tracker id found (record p { tracking = (tracker id p.tracking).1 }))
  tracker-put-Turn id found p own = chains (tracker-Turn id p own) (tracks id found _ own)

  pub give_up_if_at_cap-Turn :
      (id : String) (found : Tracker) (fresh : Option NormalizedMatch) (p q r : Poll)
      → Owns id
      → Turn v Owns May p q
      → Turn v Owns May p r
      → Turn v Owns May p (give_up_if_at_cap v id found fresh q r)
  give_up_if_at_cap-Turn id found fresh p q r own h k =
      either (tracker_at_cap found) p (give_up v id found fresh q) r
        (λ _. chains h (gives_up id found fresh q own)) (λ _. k)

  pub queue_if_live-Turn :
      (m : NormalizedMatch) (p q : Poll)
      → Turn v Owns May p q
      → Turn v Owns May p (queue_if_live m q)
  queue_if_live-Turn m p q h =
      either (is_live m.status) p (queue m q) q (λ _. chains h (queues m q)) (λ _. h)

  pub fail_backfill-Turn :
      (id : String) (m : NormalizedMatch) (p : Poll)
      → Owns id
      → Owns m.match_id
      → Turn v Owns May p (fail_backfill v id m p)
  unfolding fail_backfill
  fail_backfill-Turn id m p own owned =
      let (counted, t) = register_backfill_apply_failure m p.tracking in
      let p' = record p { tracking = t } in
      let made = backfill_tracker-Turn m.match_id p owned in
      let written = chains made (backfills m.match_id counted _ owned) in
      either (backfill_tracker_at_cap counted) p (backfill_give_up v id counted (some m) p') p'
        (λ _. chains written (gives_up_backfill id counted (some m) p' own)) (λ _. written)

-- What the provider answers for a match is owned too.
abbrev pub Answers : View → (String → Type 0) → String → Type 0
Answers v Owns id = (d : NormalizedMatch) → v.fetch_match_detail id ≡ fetched d → Owns d.match_id
