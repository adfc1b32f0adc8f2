-- ===== src/Engine/Reconcile/Above.antt =====
-- append_events on one event beyond the head, as _reconcile_sequence_conflict of
-- gamecollect/engine.py calls it.
use gamealerts_collector.Prelude.{
  ℕ, ◌<◌, String, ◌≡◌, ◌≢◌, refl, sym, ◌∙◌, subst, inl, inr, Bool, true, false, not, ◌&&◌, List, [],
  ◌∷◌, ◌++◌, Option, none, some, arith, All-map, if◌then◌else◌, Bool-cases, ==_iff, string_eq,
  nat_eq,
}
use gamealerts_collector.Json.{str}
use gamealerts_collector.Provider.{NormalizedEvent}
use gamealerts_collector.Writer.Table.{EventRow, Db, in_partition, find_event, owner}
use gamealerts_collector.Writer.Action.{
  sequence_error, interface_error, Result, ok, err, Action, ◌>>=◌, ◌>>◌, continue, pure, lift, gets,
  transaction, raise_if,
}
use gamealerts_collector.Writer.Action.Returns.{Returns}
use gamealerts_collector.Writer.Rows.{
  PartitionWriter, Row, pick, event_columns, event_keys, bindable, all_bindable,
}
use gamealerts_collector.Writer.Matches.{assert_match_owned, owned_by}
use gamealerts_collector.Writer.Events.{
  Checked, check_event, check_events, increasing, max_seq, at_or_below, store_event,
  insert_or_ignore, append_checked, append_all, append_events, new_row,
}
use gamealerts_collector.Writer.Append.{find_event-absent}
use gamealerts_collector.Writer.Append.Run.{Appends, done, kept, added}
use gamealerts_collector.Writer.Batches.{max_seq-upper, append_events-Accepted}
use gamealerts_collector.Engine.Rows.{event_to_row}
use gamealerts_collector.Engine.Reconcile.{raise_head}
use gamealerts_collector.Engine.Rows.Columns.{checked_of}
use gamealerts_collector.Engine.Rows.RoundTrip.{check_events-event_to_row, pick-event_to_row}

-- The action does not end in a SequenceError at `db`.
abbrev pub IsUnrefused : {A : Type 0} → Action A → Db → Type 0
IsUnrefused {A} m db = ◌≢◌ {A = Result A} (m db).0 (err sequence_error)

module _ {A B : Type 0} where
  continue_unrefused :
      (r : Result A) (f : A → Action B) (db : Db)
      → ◌≢◌ {A = Result A} r (err sequence_error)
      → ((a : A) → r ≡ ok a → IsUnrefused (f a) db)
      → ◌≢◌ {A = Result B} (continue r f db).0 (err sequence_error)
  continue_unrefused (ok a) f db n k = k a refl
  continue_unrefused (err x) f db n k = λ p. n (cc)

  IsUnrefused-bind :
      (m : Action A) (f : A → Action B) (db : Db)
      → IsUnrefused m db
      → ((a : A) → (m db).0 ≡ ok a → IsUnrefused (f a) (m db).1)
      → IsUnrefused (m >>= f) db
  unfolding ◌>>=◌
  IsUnrefused-bind m f db n k = continue_unrefused (m db).0 f (m db).1 n k

IsUnrefused-transaction :
    {A : Type 0} (m : Action A) (db : Db) → IsUnrefused m db → IsUnrefused (transaction m) db
unfolding transaction
IsUnrefused-transaction m db n = n

absent_above :
    (s m : String) (n : ℕ) (es : List EventRow)
    → at_or_below n (max_seq es s m) ≡ false
    → find_event es s m n ≡ none
absent_above s m n es h = find_event-absent s m n es (
    All-map (λ e. in_partition s m e ≡ true → at_or_below e.seq (max_seq es s m) ≡ true)
      (λ e. in_partition s m e ≡ true → e.seq < n) es (λ e k p. below e (max_seq es s m) h (k p))
      (max_seq-upper s m es))
  where
    below :
        (e : EventRow) (o : Option ℕ)
        → at_or_below n o ≡ false
        → at_or_below e.seq o ≡ true
        → e.seq < n
    below e none a b = cc
    below e (some k) a b = ground arith

module _ (w : PartitionWriter) (m : String) (e : NormalizedEvent) where
  check_event-IsUnrefused :
      ◌≢◌ {A = Result Checked} (check_event w m (event_to_row e)) (err sequence_error)
  unfolding check_event event_to_row
  check_event-IsUnrefused = λ p. ground arith

  check_events-IsUnrefused :
      ◌≢◌ {A = Result (List Checked)} (check_events w m (event_to_row e ∷ [])) (err sequence_error)
  check_events-IsUnrefused =
      unfold check_events in by_result (check_event w m (event_to_row e)) check_event-IsUnrefused
    where
      by_result :
          (r : Result Checked)
          → ◌≢◌ {A = Result Checked} r (err sequence_error)
          → ◌≢◌ {A = Result (List Checked)}
              (elim r [ err x ↦ err x | ok c ↦ ok (c ∷ []) ])
              (err sequence_error)
      by_result (ok c) n = λ p. cc
      by_result (err x) n = λ p. n cc

  assert_match_owned-IsUnrefused : (db : Db) → IsUnrefused (assert_match_owned w m true) db
  unfolding assert_match_owned
  assert_match_owned-IsUnrefused db = by_owner (owner db m)
    where
      by_owner :
          (o : Option String) → ◌≢◌ {A = Result (Unit {0})} (owned_by w true o) (err sequence_error)
      by_owner none = λ p. cc
      by_owner (some s) = λ p. ground arith

  insert_or_ignore-IsUnrefused : (r : EventRow) (db : Db) → IsUnrefused (insert_or_ignore r) db
  unfolding insert_or_ignore
  insert_or_ignore-IsUnrefused r db = λ p. ground arith

  store_event-IsUnrefused :
      (highest : Option ℕ) (extras : Row) (db : Db)
      → at_or_below e.seq highest ≡ false
      → IsUnrefused (store_event w m highest (checked_of e) extras none) db
  unfolding store_event lift
  store_event-IsUnrefused highest extras db h =
      rw h (by_bindable (bindable (str e.event_type) && all_bindable extras))
    where
      by_bindable :
          (b : Bool)
          → IsUnrefused
              (if not b
                then lift (err interface_error)
                else insert_or_ignore (new_row w m (checked_of e) extras))
              db
      by_bindable true = insert_or_ignore-IsUnrefused (new_row w m (checked_of e) extras) db
      by_bindable false = λ p. cc

  append_checked-IsUnrefused :
      (before : List EventRow) (db : Db)
      → at_or_below e.seq (max_seq before w.source m) ≡ false
      → IsUnrefused (append_checked w m before (checked_of e)) db
  unfolding append_checked lift
  append_checked-IsUnrefused before db h =
      let fits = pick-event_to_row e in
      let absent = absent_above w.source m e.seq before h in
      let highest = max_seq before w.source m in
      IsUnrefused-bind (lift (pick (event_to_row e) event_columns event_keys)) _ db
        (λ p. let q = sym fits ∙ p in cc)
        (λ extras p.
          subst (λ o. IsUnrefused (store_event w m highest (checked_of e) extras o) db) (sym absent)
            (store_event-IsUnrefused highest extras db h))

  append_all-IsUnrefused :
      (before : List EventRow) (db : Db)
      → at_or_below e.seq (max_seq before w.source m) ≡ false
      → IsUnrefused (append_all w m before (checked_of e ∷ [])) db
  unfolding append_all pure
  append_all-IsUnrefused before db h =
      IsUnrefused-bind (append_checked w m before (checked_of e)) _ db
        (append_checked-IsUnrefused before db h)
        (λ n p.
          let db' = (append_checked w m before (checked_of e) db).1 in
          IsUnrefused-bind (append_all w m before []) _ db' (λ q. cc) (λ k q r. cc))

  -- append_events, once the rows are checked
  abbrev after_checks : List Checked → Action ℕ
  after_checks cs = do
    lift (raise_if (not (increasing cs)) sequence_error)
    assert_match_owned w m true
    before ← gets (λ db. db.events)
    transaction (append_all w m before cs)

  after_checks-IsUnrefused :
      (db : Db)
      → at_or_below e.seq (max_seq db.events w.source m) ≡ false
      → IsUnrefused (after_checks (checked_of e ∷ [])) db
  unfolding lift increasing gets assert_match_owned
  after_checks-IsUnrefused db h =
      IsUnrefused-bind (lift (raise_if (not (increasing (checked_of e ∷ []))) sequence_error)) _ db
        (λ p. cc)
        (λ _ _.
          IsUnrefused-bind (assert_match_owned w m true) _ db (assert_match_owned-IsUnrefused db)
            (λ _ _.
              IsUnrefused-bind (gets (λ x. x.events)) _ (assert_match_owned w m true db).1 (λ p. cc)
                (λ before p.
                  let same : db.events ≡ before = cc in
                  IsUnrefused-transaction (append_all w m before (checked_of e ∷ [])) db (
                    subst (λ b. IsUnrefused (append_all w m b (checked_of e ∷ [])) db) same
                      (append_all-IsUnrefused db.events db h)))))

  pub append_events-IsUnrefused :
      (db : Db)
      → at_or_below e.seq (max_seq db.events w.source m) ≡ false
      → IsUnrefused (append_events w m (event_to_row e ∷ [])) db
  unfolding append_events
  append_events-IsUnrefused db h =
      IsUnrefused-bind (lift (check_events w m (event_to_row e ∷ []))) after_checks db
        (unfold lift in check_events-IsUnrefused)
        (λ cs p.
          let one = check_events-event_to_row w m (e ∷ []) cs (unfold lift in p) in
          unfold lift in
          subst (λ c. IsUnrefused (after_checks c) db) (sym one) (after_checks-IsUnrefused db h))

-- No more than the seqs up to the head are raised by a seq beyond it.
max_seq-snoc :
    (s m : String) (r : EventRow) (es : List EventRow)
    → in_partition s m r ≡ true
    → max_seq (es ++ r ∷ []) s m ≡ raise_head r.seq (max_seq es s m)
unfolding max_seq
max_seq-snoc s m r [] h = ground arith
max_seq-snoc s m r (e ∷ es) h = ground (arith, max_seq-snoc s m r es h)

-- The head after one event is appended.
abbrev pub raised : ℕ → Option ℕ → Option ℕ
raised seq head = if at_or_below seq head then head else raise_head seq head

max_seq-Appends :
    (w : PartitionWriter) (m : String) (e : NormalizedEvent) (es es' : List EventRow) (n : ℕ)
    → Appends w m es (checked_of e ∷ []) es n es'
    → max_seq es' w.source m ≡ raised e.seq (max_seq es w.source m)
max_seq-Appends w m e es es' n (kept extras stored p f fits done) =
    elim (Bool-cases (at_or_below e.seq (max_seq es w.source m))) [
      | inl b ↦ rw b refl
      | inr b ↦ let absent = absent_above w.source m e.seq es b in cc
    ]
max_seq-Appends w m e es es' n (added extras p high below done) =
    max_seq-snoc w.source m (new_row w m (checked_of e) extras) es (own_row extras) ∙ rw high refl
  where
    own_row : (extras : Row) → in_partition w.source m (new_row w m (checked_of e) extras) ≡ true
    own_row extras = rw ((==_iff w.source w.source).1 refl, (==_iff m m).1 refl)

pub max_seq-append_events :
    (w : PartitionWriter) (m : String) (e : NormalizedEvent) (n : ℕ) (db db' : Db)
    → Returns (append_events w m (event_to_row e ∷ [])) db n db'
    → max_seq db'.events w.source m ≡ raised e.seq (max_seq db.events w.source m)
max_seq-append_events w m e n db db' h =
    let (cs, acc) = append_events-Accepted w m (event_to_row e) [] n db db' h in
    let one = check_events-event_to_row w m (e ∷ []) cs acc.0 in
    max_seq-Appends w m e db.events db'.events n
      (subst (λ c. Appends w m db.events c db.events n db'.events) one acc.3.0)
