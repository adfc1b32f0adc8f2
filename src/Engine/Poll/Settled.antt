-- ===== src/Engine/Poll/Settled.antt =====
-- What _fetch_poll_snapshots of gamecollect/engine.py queues for a match that was live and whose
-- board is not.
use gamealerts_collector.Prelude.{
  String, ◌≡◌, refl, ◌∙◌, ap, subst, sym, inl, inr, Bool, true, false, not, false≢true, ◌&&◌, List,
  [], ◌∷◌, ◌++◌, Option, none, some, leb, if◌then◌else◌, if-cases, is_some,
}
use gamealerts_collector.Dict.{get}
use gamealerts_collector.Provider.{is_live, NormalizedMatch}
use gamealerts_collector.FallbackMerge.{is_terminal}
use gamealerts_collector.Merge.{merge_detail}
use gamealerts_collector.Engine.Tracking.{Tracker, tracker, tracker_at_cap, backfill_tracker_at_cap}
use gamealerts_collector.Engine.Poll.State.{
  backfill_max_fetches_per_poll, fetched, unavailable, shape_drift, View, Poll, queue,
  stored_snapshot, give_up, backfill_give_up, put_tracker, note_pending, charge,
}
use gamealerts_collector.Engine.Poll.Board.{
  Case, followed, classify, give_up_if_at_cap, accrue_while_cooling, failed, unfinished, on_failure,
  clear_failures, queue_if_live, on_nonterminal, on_detail, hydrate, fail_backfill, defer_backfill,
  due, budgeted, process, act, step_board,
}
use gamealerts_collector.Engine.Poll.Transit.{
  IsSettled, emit_give_up-IsFinal, settled_of_terminal, hydrated-accrue_while_cooling,
  hydrated-clear_failures, hydrated-note_pending, not_both, no_backfill, not_passed, ended,
  classify-was_live, classify-in_transition, due-off, resume-off, IsTransit,
}

module _ (v : View) (h : List NormalizedMatch) where
  give_up-IsSettled :
      (id : String) (found : Tracker) (fresh : Option NormalizedMatch) (p : Poll)
      → p.hydrated ≡ h
      → IsSettled h (give_up v id found fresh p)
  unfolding give_up
  give_up-IsSettled id found fresh p e =
      elim (emit_give_up-IsFinal id found fresh (get id v.last) (stored_snapshot v id) p.tracking) [
        | inl n ↦ inl (rw n e)
        | inr (x, n, k) ↦ inr (x, rw n (ap (λ hs. hs ++ x ∷ []) e), settled_of_terminal x k)
      ]

  give_up_if_at_cap-IsSettled :
      (id : String) (found : Tracker) (fresh : Option NormalizedMatch) (p q : Poll)
      → p.hydrated ≡ h
      → IsSettled h q
      → IsSettled h (give_up_if_at_cap v id found fresh p q)
  give_up_if_at_cap-IsSettled id found fresh p q e k =
      if-cases (IsSettled h) (tracker_at_cap found) (give_up v id found fresh p) q
        (λ _. give_up-IsSettled id found fresh p e) (λ _. k)

  queue_if_live-IsSettled :
      (m : NormalizedMatch) (p : Poll) → p.hydrated ≡ h → IsSettled h (queue_if_live m p)
  queue_if_live-IsSettled m p e =
      if-cases (IsSettled h) (is_live m.status) (queue m p) p
        (λ k. inr (m, ap (λ hs. hs ++ m ∷ []) e, rw k refl)) (λ _. inl e)

  on_failure-IsSettled :
      (c : Case) (m : NormalizedMatch) (drift : Bool) (p : Poll)
      → IsTransit c
      → p.hydrated ≡ h
      → IsSettled h (on_failure v c m drift p)
  unfolding on_failure
  on_failure-IsSettled c m drift p (b, t) e =
      let counted = failed (tracker m.match_id p.tracking).0 m in
      let p' =
        put_tracker m.match_id counted
          (record p { tracking = (tracker m.match_id p.tracking).1 }) in
      let last = give_up_if_at_cap-IsSettled m.match_id counted (some m) p' p' e (inl e) in
      if-cases (IsSettled h) c.is_backfill _ _ (λ k. absurd (false≢true (sym b ∙ k)))
        (λ _.
          if-cases (IsSettled h) (c.in_transition && c.cooling)
            (accrue_while_cooling m.match_id m drift p) _
            (λ _. inl (hydrated-accrue_while_cooling m.match_id m drift p ∙ e))
            (λ _.
              if-cases (IsSettled h) (not c.in_transition) _ _
                (λ k. absurd (not_both c.in_transition k t)) (λ _. last)))

  on_nonterminal-IsSettled :
      (c : Case) (id : String) (merged : NormalizedMatch) (p : Poll)
      → p.hydrated ≡ h
      → IsSettled h (on_nonterminal v c id merged p)
  unfolding on_nonterminal
  on_nonterminal-IsSettled c id merged p e =
      let counted = unfinished (tracker id p.tracking).0 merged in
      let p' = put_tracker id counted (record p { tracking = (tracker id p.tracking).1 }) in
      if-cases (IsSettled h) c.cooling
        (queue_if_live merged (accrue_while_cooling id merged false p)) _
        (λ _.
          queue_if_live-IsSettled merged (accrue_while_cooling id merged false p)
            (hydrated-accrue_while_cooling id merged false p ∙ e))
        (λ _.
          give_up_if_at_cap-IsSettled id counted (some merged) p' (queue_if_live merged p') e
            (queue_if_live-IsSettled merged p' e))

  on_detail-IsSettled :
      (c : Case) (m detail : NormalizedMatch) (p : Poll)
      → IsTransit c
      → p.hydrated ≡ h
      → IsSettled h (on_detail v c m detail p)
  unfolding on_detail
  on_detail-IsSettled c m detail p (b, t) e =
      let merged = merge_detail m detail in
      let p1 = note_pending c.is_backfill m.match_id (clear_failures m.match_id p) in
      let e1 : p1.hydrated ≡ h =
        hydrated-note_pending c.is_backfill m.match_id (clear_failures m.match_id p)
        ∙ hydrated-clear_failures m.match_id p
        ∙ e in
      if-cases (IsSettled h) (c.in_transition && not (is_terminal merged.status))
        (on_nonterminal v c m.match_id merged p1) _
        (λ _. on_nonterminal-IsSettled c m.match_id merged p1 e1)
        (λ k.
          if-cases (IsSettled h)
            (c.is_backfill && (not (is_live merged.status) && not (is_terminal merged.status)))
            (fail_backfill v m.match_id merged p1) (queue merged p1)
            (λ n. absurd (no_backfill c.is_backfill _ b n))
            (λ _. inr (merged, ap (λ hs. hs ++ merged ∷ []) e1, ended c.in_transition merged t k)))

  hydrate-IsSettled :
      (c : Case) (m : NormalizedMatch) (p : Poll)
      → IsTransit c
      → p.hydrated ≡ h
      → IsSettled h (hydrate v c m p)
  unfolding hydrate
  hydrate-IsSettled c m p t e =
      let p1 = charge m.match_id c.is_backfill p in
      elim (v.fetch_match_detail m.match_id)
        as (λ f. IsSettled h (elim f as (λ _. Poll) [
          | fetched detail ↦ on_detail v c m detail p1
          | unavailable ↦ on_failure v c m false p1
          | shape_drift ↦ on_failure v c m true p1
        ])) [
          | fetched detail ↦ on_detail-IsSettled c m detail p1 t e
          | unavailable ↦ on_failure-IsSettled c m false p1 t e
          | shape_drift ↦ on_failure-IsSettled c m true p1 t e
        ]

  budgeted-IsSettled :
      (c : Case) (m : NormalizedMatch) (p : Poll)
      → IsTransit c
      → p.hydrated ≡ h
      → IsSettled h (budgeted v c m p)
  unfolding budgeted
  budgeted-IsSettled c m p (b, t) e =
      by_due _ (due-off c.is_backfill backfill_tracker_at_cap held b)
    where
      held : Option Tracker
      held = get m.match_id p.tracking.backfill

      by_due :
          (o : Option Tracker)
          → o ≡ none
          → let spent = c.is_backfill && leb backfill_max_fetches_per_poll p.backfill_fetches in
            IsSettled h (elim o as (λ _. Poll) [
              | some found ↦ backfill_give_up v m.match_id found (some m) p
              | none ↦
                  if spent
                  then (if is_some held then p else defer_backfill m p)
                  else hydrate v c m p
            ])
      by_due none n =
          let full = leb backfill_max_fetches_per_poll p.backfill_fetches in
          if-cases (IsSettled h) (c.is_backfill && full)
            (if is_some held then p else defer_backfill m p) (hydrate v c m p)
            (λ k. absurd (no_backfill c.is_backfill full b k))
            (λ _. hydrate-IsSettled c m p (b, t) e)
      by_due (some found) n = cc

  process-IsSettled :
      (c : Case) (m : NormalizedMatch) (p : Poll)
      → IsTransit c
      → p.hydrated ≡ h
      → IsSettled h (process v c m p)
  unfolding process
  process-IsSettled c m p t e =
      elim (due c.in_transition tracker_at_cap (get m.match_id p.tracking.transitions))
        as (λ o. IsSettled h (elim o as (λ _. Poll) [
          | some found ↦ if c.cooling then p else give_up v m.match_id found (some m) p
          | none ↦ budgeted v c m p
        ])) [
          | some found ↦
              if-cases (IsSettled h) c.cooling p (give_up v m.match_id found (some m) p)
                (λ _. inl e) (λ _. give_up-IsSettled m.match_id found (some m) p e)
          | none ↦ budgeted-IsSettled c m p t e
        ]

-- If a match was live or has a transition tracker, and its board is not live, then the loop
-- body of _fetch_poll_snapshots queues nothing, or one snapshot whose status is live or
-- terminal: a provider that resets a match to SCHEDULED or UNKNOWN is never written over
-- it.
pub step_board-IsSettled :
    (v : View) (m : NormalizedMatch) (p : Poll)
    → followed v m.match_id p.tracking ≡ true
    → is_live m.status ≡ false
    → IsSettled p.hydrated (step_board v m p)
unfolding step_board
step_board-IsSettled v m p f n =
    let c = classify v m p.tracking in
    let was = classify-was_live v m p.tracking f in
    let transit = classify-in_transition v m p.tracking f n in
    let passed = not (is_live m.status) && (not c.was_live && not c.is_backfill) in
    let acted : IsSettled p.hydrated (act v c m p) =
      if-cases (IsSettled p.hydrated) c.deferred p (if passed then queue m p else process v c m p)
        (λ _. inl refl)
        (λ _.
          if-cases (IsSettled p.hydrated) passed (queue m p) (process v c m p)
            (λ k. absurd (not_passed (is_live m.status) c.was_live c.is_backfill k was))
            (λ _. process-IsSettled v p.hydrated c m p transit refl)) in
    subst (λ q. IsSettled p.hydrated (act v (classify v m q.tracking) m q)) (sym (resume-off m p n))
      acted
