-- ===== src/Engine/Poll/Budget.antt =====
-- The backfill fetches of a poll of gamecollect/engine.py.
use gamealerts_collector.Prelude.{
  ℕ, suc, ◌+◌, ◌-◌, ◌≤◌, ◌≡◌, refl, ap, ◌∙◌, String, Bool, true, false, List, [], ◌∷◌, ◌++◌, Option,
  none, some, arith, leb, if◌then◌else◌, if-cases,
}
use gamealerts_collector.Provider.{NormalizedMatch}
use gamealerts_collector.Engine.Tracking.{
  Tracker, Tracking, age_cooldowns, backfill_tracker, backfill_tracker_at_cap,
}
use gamealerts_collector.Engine.Poll.State.{
  Fetched, fetched, unavailable, shape_drift, View, Request, Poll, queue_if_some, give_up,
  backfill_give_up, request,
}
use gamealerts_collector.Engine.Poll.Board.{accrue_while_cooling, step_board}
use gamealerts_collector.Engine.Poll.Vanished.{
  off_slate, sorted_ids, keys, vanished_ids, step_vanished, run_vanished, on_backfill_failure,
  on_backfill_detail, step_backfill, run_backfill_pass, hydrate_vanished_backfill_matches,
  hydrate_vanished_matches,
}
use gamealerts_collector.Engine.Poll.Slate.{
  slate_ids, run_slate, begin, restart_scan, fetch_poll_snapshots,
}
use gamealerts_collector.Engine.Poll.Turn.{
  Turn, stays, chains, queues, tracks, backfills, gives_up, gives_up_backfill, accrues, pends,
  resumes, fetches,
}
use gamealerts_collector.Engine.Poll.Turn.Boards.{HasRoom, step_board-Turn}
use gamealerts_collector.Engine.Poll.Turn.Gone.{
  IsPlain, step_vanished-Turn, on_backfill_failure-Turn, on_backfill_detail-Turn,
}

-- the calls of fetch_match_detail that are made for a backfill
abbrev pub backfill_requests : List Request → ℕ
backfill_requests [] = 0
backfill_requests (r ∷ rs) =
    if r.is_backfill then suc (backfill_requests rs) else backfill_requests rs

backfill_requests-append :
    (rs ss : List Request)
    → backfill_requests (rs ++ ss) ≡ backfill_requests rs + backfill_requests ss
backfill_requests-append [] ss = omega arith
backfill_requests-append (r ∷ rs) ss = ground (arith, backfill_requests-append rs ss)

-- No fetch stands between the two states.
abbrev IsQuiet : Poll → Poll → Type 0
IsQuiet p q = (q.requests ≡ p.requests) × (q.backfill_fetches ≡ p.backfill_fetches)

queue_if_some-IsQuiet : (o : Option NormalizedMatch) (p : Poll) → IsQuiet p (queue_if_some o p)
queue_if_some-IsQuiet none p = (refl, refl)
queue_if_some-IsQuiet (some m) p = (refl, refl)

give_up-IsQuiet :
    (v : View) (id : String) (found : Tracker) (fresh : Option NormalizedMatch) (p : Poll)
    → IsQuiet p (give_up v id found fresh p)
unfolding give_up
give_up-IsQuiet v id found fresh p = queue_if_some-IsQuiet _ _

backfill_give_up-IsQuiet :
    (v : View) (id : String) (found : Tracker) (fresh : Option NormalizedMatch) (p : Poll)
    → IsQuiet p (backfill_give_up v id found fresh p)
unfolding backfill_give_up
backfill_give_up-IsQuiet v id found fresh p = queue_if_some-IsQuiet _ _

accrue_while_cooling-IsQuiet :
    (id : String) (m : NormalizedMatch) (drift : Bool) (p : Poll)
    → IsQuiet p (accrue_while_cooling id m drift p)
unfolding accrue_while_cooling
accrue_while_cooling-IsQuiet id m drift p = ground arith

-- The count is that of the calls, and within the budget.
abbrev IsCounted : Poll → Type 0
IsCounted p = (backfill_requests p.requests ≡ p.backfill_fetches) × (p.backfill_fetches ≤ 5)

IsCounted-quiet : (p q : Poll) → IsQuiet p q → IsCounted p → IsCounted q
IsCounted-quiet p q (e, f) h = rw (e, f) h

module _ (v : View) where
  Turn-IsCounted : {p q : Poll} → Turn v (λ _. Unit) HasRoom p q → IsCounted p → IsCounted q
  unfolding give_up backfill_give_up
  Turn-IsCounted (stays p) h = h
  Turn-IsCounted (chains a b) h = Turn-IsCounted b (Turn-IsCounted a h)
  Turn-IsCounted (queues m p) h = h
  Turn-IsCounted (tracks id found p own) h = h
  Turn-IsCounted (backfills id found p own) h = h
  Turn-IsCounted (gives_up id found fresh p own) h =
      IsCounted-quiet p (give_up v id found fresh p) (give_up-IsQuiet v id found fresh p) h
  Turn-IsCounted (gives_up_backfill id found fresh p own) h =
      IsCounted-quiet p (backfill_give_up v id found fresh p)
        (backfill_give_up-IsQuiet v id found fresh p) h
  Turn-IsCounted (accrues id m drift p own) h =
      IsCounted-quiet p (accrue_while_cooling id m drift p)
        (accrue_while_cooling-IsQuiet id m drift p) h
  Turn-IsCounted (pends id p) h = h
  Turn-IsCounted (resumes id p) h = h
  Turn-IsCounted (fetches id true p may) h =
      let more =
        backfill_requests-append p.requests (record { match_id = id; is_backfill = true } ∷ []) in
      let room = may refl in ground (arith, more, room)
  Turn-IsCounted (fetches id false p may) h =
      let more =
        backfill_requests-append p.requests (record { match_id = id; is_backfill = false } ∷ []) in
      ground (arith, more)

  run_slate-IsCounted :
      (ms : List NormalizedMatch) (p : Poll) → IsCounted p → IsCounted (run_slate v ms p)
  unfolding run_slate
  run_slate-IsCounted [] p h = h
  run_slate-IsCounted (m ∷ ms) p h =
      run_slate-IsCounted ms (step_board v m p)
        (Turn-IsCounted (step_board-Turn v (λ _. Unit) m p tt (λ d e. tt)) h)

  -- Of the turns of the other loops, none fetches a backfill of its own.
  Turn-backfill_requests :
      {p q : Poll}
      → Turn v (λ _. Unit) IsPlain p q
      → backfill_requests q.requests ≡ backfill_requests p.requests
  unfolding give_up backfill_give_up
  Turn-backfill_requests (stays p) = refl
  Turn-backfill_requests (chains a b) = Turn-backfill_requests b ∙ Turn-backfill_requests a
  Turn-backfill_requests (queues m p) = refl
  Turn-backfill_requests (tracks id found p own) = refl
  Turn-backfill_requests (backfills id found p own) = refl
  Turn-backfill_requests (gives_up id found fresh p own) =
      ap backfill_requests (give_up-IsQuiet v id found fresh p).0
  Turn-backfill_requests (gives_up_backfill id found fresh p own) =
      ap backfill_requests (backfill_give_up-IsQuiet v id found fresh p).0
  Turn-backfill_requests (accrues id m drift p own) =
      ap backfill_requests (accrue_while_cooling-IsQuiet id m drift p).0
  Turn-backfill_requests (pends id p) = refl
  Turn-backfill_requests (resumes id p) = refl
  Turn-backfill_requests (fetches id b p may) =
      let more =
        backfill_requests-append p.requests (record { match_id = id; is_backfill = b } ∷ []) in
      ground (arith, more, may)

  backfill_requests-run_vanished :
      (ids : List String) (p : Poll)
      → backfill_requests (run_vanished v ids p).requests ≡ backfill_requests p.requests
  unfolding run_vanished
  backfill_requests-run_vanished [] p = refl
  backfill_requests-run_vanished (id ∷ ids) p =
      backfill_requests-run_vanished ids (step_vanished v id p)
      ∙ Turn-backfill_requests (step_vanished-Turn v (λ _. Unit) id p tt)

  -- `n` more backfills were fetched than `k`, within the budget.
  IsWithin : ℕ → ℕ → ℕ × Poll → Type 0
  IsWithin k budget (n, p) = (backfill_requests p.requests ≡ k + n) × (n ≤ budget)

  fetched-IsWithin :
      (k n budget : ℕ) (id : String) (found : Tracker) (p : Poll) (f : Fetched)
      → backfill_requests p.requests ≡ k + n
      → suc n ≤ budget
      → let p2 = request id true p in
        IsWithin k budget (
          suc n,
          elim f as (λ _. Poll) [
            | fetched detail ↦ on_backfill_detail v id found detail p2
            | unavailable ↦ on_backfill_failure v id found p2
            | shape_drift ↦ on_backfill_failure v id found p2
          ],
        )
  unfolding IsWithin
  fetched-IsWithin k n budget id found p f e room =
      let one = record { match_id = id; is_backfill = true } ∷ [] in
      let more = backfill_requests-append p.requests one in
      let p2 = request id true p in
      let start : backfill_requests p2.requests ≡ k + suc n = omega (arith, more, e) in
      let failed =
        Turn-backfill_requests (on_backfill_failure-Turn v (λ _. Unit) id found p2 tt) ∙ start in
      elim f
        as (λ (g : Fetched). IsWithin k budget (
          suc n,
          elim g as (λ _. Poll) [
            | fetched detail ↦ on_backfill_detail v id found detail p2
            | unavailable ↦ on_backfill_failure v id found p2
            | shape_drift ↦ on_backfill_failure v id found p2
          ],
        )) [
          | fetched detail ↦ (
            Turn-backfill_requests (on_backfill_detail-Turn v (λ _. Unit) id found detail p2 tt tt)
                ∙ start,
            room,
          )
          | unavailable ↦ (failed, room)
          | shape_drift ↦ (failed, room)
        ]

  step_backfill-IsWithin :
      (k budget : ℕ) (id : String) (s : ℕ × Poll)
      → IsWithin k budget s
      → IsWithin k budget (step_backfill v budget id s)
  unfolding step_backfill IsWithin
  step_backfill-IsWithin k budget id (n, p) (e, within) =
      let found = (backfill_tracker id p.tracking).0 in
      let p1 = record p { tracking = (backfill_tracker id p.tracking).1 } in
      if-cases (IsWithin k budget) (backfill_tracker_at_cap found)
        (n, backfill_give_up v id found none p1) _
        (λ _. (ap backfill_requests (backfill_give_up-IsQuiet v id found none p1).0 ∙ e, within))
        (λ _.
          if-cases (IsWithin k budget) (leb budget n) (n, p1) _ (λ _. (e, within))
            (λ room.
              fetched-IsWithin k n budget id found p1 (v.fetch_match_detail id) e (ground arith)))

  run_backfill_pass-IsWithin :
      (k budget : ℕ) (ids : List String) (s : ℕ × Poll)
      → IsWithin k budget s
      → IsWithin k budget (run_backfill_pass v budget ids s)
  unfolding run_backfill_pass
  run_backfill_pass-IsWithin k budget [] s h = h
  run_backfill_pass-IsWithin k budget (id ∷ ids) s h =
      run_backfill_pass-IsWithin k budget ids (step_backfill v budget id s)
        (step_backfill-IsWithin k budget id s h)

  hydrate_vanished_matches-budget :
      (slate : List String) (budget : ℕ) (p : Poll)
      → backfill_requests (hydrate_vanished_matches v slate budget p).requests
        ≤ backfill_requests p.requests + budget
  unfolding hydrate_vanished_matches hydrate_vanished_backfill_matches IsWithin
  hydrate_vanished_matches-budget slate budget p =
      let ids = vanished_ids v slate p.tracking in
      let p' = run_vanished v ids p in
      let same = backfill_requests-run_vanished ids p in
      let AtMost =
        λ (q : Poll). backfill_requests q.requests ≤ backfill_requests p.requests + budget in
      let later = sorted_ids (off_slate slate p'.tracking (keys p'.tracking.backfill)) in
      let (e, within) =
        run_backfill_pass-IsWithin (backfill_requests p.requests) budget later (0, p')
          (omega (arith, same), omega arith) in
      if-cases AtMost v.backfill_finished_matches _ p' (λ _. omega (arith, e, within))
        (λ _. omega (arith, same))

-- One call of _fetch_poll_snapshots makes at most 5 detail fetches for backfills, on the
-- slate and off it together, whatever the slate, the trackers and the provider.
pub fetch_poll_snapshots-budget :
    (v : View) (done : Bool) (slate : List NormalizedMatch) (t : Tracking)
    → backfill_requests (fetch_poll_snapshots v done slate t).requests ≤ 5
unfolding fetch_poll_snapshots
fetch_poll_snapshots-budget v done slate t =
    let ids = slate_ids slate in
    let start = begin (restart_scan v done slate (age_cooldowns ids t)) in
    let p = run_slate v slate start in
    let (count, within) = run_slate-IsCounted v slate start (refl, omega arith) in
    let rest = hydrate_vanished_matches-budget v ids (5 - p.backfill_fetches) p in
    omega (arith, count, within, rest)
