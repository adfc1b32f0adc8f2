-- ===== src/Engine/Poll/Turn/Boards.antt =====
-- The turn of a board of the slate, in _fetch_poll_snapshots of gamecollect/engine.py, is a chain of
-- the small changes.
use gamealerts_collector.Prelude.{
  ℕ, suc, ◌≤◌, ◌≡◌, refl, sym, subst, String, Bool, true, false, not, ◌&&◌, ◌∷◌, none, some, arith,
  leb, if◌then◌else◌, is_some,
}
use gamealerts_collector.Dict.{get}
use gamealerts_collector.Provider.{is_live, NormalizedMatch}
use gamealerts_collector.Merge.{merge_detail}
use gamealerts_collector.FallbackMerge.{is_terminal}
use gamealerts_collector.Engine.Tracking.{
  Tracking, new_tracker, tracker, tracker_at_cap, backfill_tracker_at_cap,
}
use gamealerts_collector.Engine.Tracking.Durable.{reset_resumption_budget}
use gamealerts_collector.Engine.Poll.State.{
  backfill_max_fetches_per_poll, Fetched, fetched, unavailable, shape_drift, View, Poll, queue,
  give_up, backfill_give_up, put_tracker, note_pending, charge,
}
use gamealerts_collector.Engine.Poll.Board.{
  Case, classify, fail_backfill, failed, unfinished, on_failure, clear_failures, queue_if_live,
  on_nonterminal, on_detail, hydrate, defer_backfill, due, budgeted, process, resume, step_board,
}
use gamealerts_collector.Engine.Poll.Turn.{
  Turn, stays, chains, queues, tracks, backfills, gives_up, gives_up_backfill, accrues, pends,
  resumes, fetches, either, backfill_tracker-Turn, tracker-put-Turn, give_up_if_at_cap-Turn,
  queue_if_live-Turn, fail_backfill-Turn, Answers,
}

match_id-merge_detail :
    (m detail : NormalizedMatch) → (merge_detail m detail).match_id ≡ detail.match_id
unfolding merge_detail
match_id-merge_detail m detail = ground arith

-- The budget of backfill fetches is not spent.
abbrev pub HasRoom : Bool → Poll → Type 0
HasRoom is_backfill p = is_backfill ≡ true → suc p.backfill_fetches ≤ backfill_max_fetches_per_poll

module _ (v : View) (Owns : String → Type 0) where
  on_failure-Turn :
      (c : Case) (m : NormalizedMatch) (drift : Bool) (p : Poll)
      → Owns m.match_id
      → Turn v Owns HasRoom p (on_failure v c m drift p)
  unfolding on_failure
  on_failure-Turn c m drift p own =
      either v Owns HasRoom c.is_backfill p _ _
        (λ _. fail_backfill-Turn v Owns HasRoom m.match_id m p own own)
        (λ _.
          either v Owns HasRoom (c.in_transition && c.cooling) p _ _
            (λ _. accrues m.match_id m drift p own)
            (λ _.
              either v Owns HasRoom (not c.in_transition) p _ _ (λ _. queues m p)
                (λ _.
                  let counted = failed (tracker m.match_id p.tracking).0 m in
                  let p' =
                    put_tracker m.match_id counted
                      (record p { tracking = (tracker m.match_id p.tracking).1 }) in
                  let made = tracker-put-Turn v Owns HasRoom m.match_id counted p own in
                  give_up_if_at_cap-Turn v Owns HasRoom m.match_id counted (some m) p p' p' own made
                    made)))

  clear_failures-Turn :
      (id : String) (p : Poll) → Owns id → Turn v Owns HasRoom p (clear_failures id p)
  unfolding clear_failures
  clear_failures-Turn id p own =
      elim (get id p.tracking.transitions)
        as (λ o. Turn v Owns HasRoom p (elim o as (λ _. Poll) [
          | none ↦ p
          | some found ↦ put_tracker id (record found { consecutive_failures = 0 }) p
        ])) [ none ↦ stays p | some found ↦ tracks id _ p own ]

  on_nonterminal-Turn :
      (c : Case) (id : String) (merged : NormalizedMatch) (p : Poll)
      → Owns id
      → Turn v Owns HasRoom p (on_nonterminal v c id merged p)
  unfolding on_nonterminal
  on_nonterminal-Turn c id merged p own =
      either v Owns HasRoom c.cooling p _ _
        (λ _. queue_if_live-Turn v Owns HasRoom merged p _ (accrues id merged false p own))
        (λ _.
          let counted = unfinished (tracker id p.tracking).0 merged in
          let p' = put_tracker id counted (record p { tracking = (tracker id p.tracking).1 }) in
          let made = tracker-put-Turn v Owns HasRoom id counted p own in
          give_up_if_at_cap-Turn v Owns HasRoom id counted (some merged) p p'
            (queue_if_live merged p') own made (queue_if_live-Turn v Owns HasRoom merged p p' made))

  merged-Owns :
      (m detail : NormalizedMatch) → Owns detail.match_id → Owns (merge_detail m detail).match_id
  merged-Owns m detail h = subst Owns (sym (match_id-merge_detail m detail)) h

  on_detail-Turn :
      (c : Case) (m detail : NormalizedMatch) (p : Poll)
      → Owns m.match_id
      → Owns detail.match_id
      → Turn v Owns HasRoom p (on_detail v c m detail p)
  unfolding on_detail
  on_detail-Turn c m detail p own owned =
      let cleared = clear_failures-Turn m.match_id p own in
      let noted =
        either v Owns HasRoom c.is_backfill p
          (note_pending true m.match_id (clear_failures m.match_id p)) (clear_failures m.match_id p)
          (λ _. chains cleared (pends m.match_id _)) (λ _. cleared) in
      let p1 = note_pending c.is_backfill m.match_id (clear_failures m.match_id p) in
      let merged = merge_detail m detail in
      either v Owns HasRoom (c.in_transition && not (is_terminal merged.status)) p
        (on_nonterminal v c m.match_id merged p1)
        (if c.is_backfill && (not (is_live merged.status) && not (is_terminal merged.status))
          then fail_backfill v m.match_id merged p1
          else queue merged p1)
        (λ _. chains noted (on_nonterminal-Turn c m.match_id merged p1 own))
        (λ _.
          either v Owns HasRoom
            (c.is_backfill && (not (is_live merged.status) && not (is_terminal merged.status))) p
            (fail_backfill v m.match_id merged p1) (queue merged p1)
            (λ _. chains noted (
              fail_backfill-Turn v Owns HasRoom m.match_id merged p1 own
                (merged-Owns m detail owned)))
            (λ _. chains noted (queues merged p1)))

  hydrate-Turn :
      (c : Case) (m : NormalizedMatch) (p : Poll)
      → Owns m.match_id
      → Answers v Owns m.match_id
      → HasRoom c.is_backfill p
      → Turn v Owns HasRoom p (hydrate v c m p)
  unfolding hydrate
  hydrate-Turn c m p own answers room =
      chains (fetches m.match_id c.is_backfill p room)
        (answered (v.fetch_match_detail m.match_id) refl)
    where
      answered :
          (f : Fetched)
          → v.fetch_match_detail m.match_id ≡ f
          → let p1 = charge m.match_id c.is_backfill p in
            Turn v Owns HasRoom p1 (elim f as (λ _. Poll) [
              | fetched detail ↦ on_detail v c m detail p1
              | unavailable ↦ on_failure v c m false p1
              | shape_drift ↦ on_failure v c m true p1
            ])
      answered (fetched detail) e = on_detail-Turn c m detail _ own (answers detail e)
      answered unavailable e = on_failure-Turn c m false _ own
      answered shape_drift e = on_failure-Turn c m true _ own

  defer_backfill-Turn :
      (m : NormalizedMatch) (p : Poll)
      → Owns m.match_id
      → Turn v Owns HasRoom p (defer_backfill m p)
  unfolding defer_backfill
  defer_backfill-Turn m p own =
      chains (backfill_tracker-Turn v Owns HasRoom m.match_id p own) (backfills m.match_id _ _ own)

  within : (b : Bool) (n : ℕ) → (b && leb 5 n) ≡ false → b ≡ true → suc n ≤ 5
  within b n h k = ground arith

  budgeted-Turn :
      (c : Case) (m : NormalizedMatch) (p : Poll)
      → Owns m.match_id
      → Answers v Owns m.match_id
      → Turn v Owns HasRoom p (budgeted v c m p)
  unfolding budgeted
  budgeted-Turn c m p own answers =
      let held = get m.match_id p.tracking.backfill in
      let spent = c.is_backfill && leb backfill_max_fetches_per_poll p.backfill_fetches in
      elim (due c.is_backfill backfill_tracker_at_cap held)
        as (λ o. Turn v Owns HasRoom p (elim o as (λ _. Poll) [
          | some found ↦ backfill_give_up v m.match_id found (some m) p
          | none ↦
              if spent then (if is_some held then p else defer_backfill m p) else hydrate v c m p
        ])) [
          | some found ↦ gives_up_backfill m.match_id found (some m) p own
          | none ↦
              either v Owns HasRoom spent p (if is_some held then p else defer_backfill m p)
                (hydrate v c m p)
                (λ _.
                  either v Owns HasRoom (is_some held) p p (defer_backfill m p) (λ _. stays p)
                    (λ _. defer_backfill-Turn m p own))
                (λ h. hydrate-Turn c m p own answers (within c.is_backfill p.backfill_fetches h))
        ]

  process-Turn :
      (c : Case) (m : NormalizedMatch) (p : Poll)
      → Owns m.match_id
      → Answers v Owns m.match_id
      → Turn v Owns HasRoom p (process v c m p)
  unfolding process
  process-Turn c m p own answers =
      elim (due c.in_transition tracker_at_cap (get m.match_id p.tracking.transitions))
        as (λ o. Turn v Owns HasRoom p (elim o as (λ _. Poll) [
          | some found ↦ if c.cooling then p else give_up v m.match_id found (some m) p
          | none ↦ budgeted v c m p
        ])) [
          | some found ↦
              either v Owns HasRoom c.cooling p p (give_up v m.match_id found (some m) p)
                (λ _. stays p) (λ _. gives_up m.match_id found (some m) p own)
          | none ↦ budgeted-Turn c m p own answers
        ]

  reset-Turn :
      (id : String) (p : Poll)
      → Owns id
      → Turn v Owns HasRoom p (record p { tracking = reset_resumption_budget id p.tracking })
  unfolding reset_resumption_budget
  reset-Turn id p own =
      elim (get id p.tracking.transitions)
        as (λ o. Turn v Owns HasRoom p (record p {
          tracking = elim o as (λ _. Tracking) [
            | none ↦ p.tracking
            | some found ↦ (put_tracker id (new_tracker found.fallback) p).tracking
          ];
        })) [ none ↦ stays p | some found ↦ tracks id (new_tracker found.fallback) p own ]

  resume-Turn :
      (m : NormalizedMatch) (p : Poll) → Owns m.match_id → Turn v Owns HasRoom p (resume m p)
  resume-Turn m p own =
      let noted = record p { live_resumptions = m.match_id ∷ p.live_resumptions } in
      either v Owns HasRoom (is_live m.status) p
        (record noted { tracking = reset_resumption_budget m.match_id noted.tracking }) p
        (λ _. chains (resumes m.match_id p) (reset-Turn m.match_id noted own)) (λ _. stays p)

  -- The body of the loop over the slate is such a chain.
  pub step_board-Turn :
      (m : NormalizedMatch) (p : Poll)
      → Owns m.match_id
      → Answers v Owns m.match_id
      → Turn v Owns HasRoom p (step_board v m p)
  unfolding step_board
  step_board-Turn m p own answers =
      let q = resume m p in
      let c = classify v m q.tracking in
      let passed = not (is_live m.status) && (not c.was_live && not c.is_backfill) in
      chains (resume-Turn m p own) (
        either v Owns HasRoom c.deferred q q (if passed then queue m q else process v c m q)
          (λ _. stays q)
          (λ _.
            either v Owns HasRoom passed q (queue m q) (process v c m q) (λ _. queues m q)
              (λ _. process-Turn c m q own answers)))
