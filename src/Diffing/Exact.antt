-- ===== src/Diffing/Exact.antt =====
-- The new events of diff_match of gamecollect/diffing.py against the events of the last snapshot.
use gamealerts_collector.Prelude.{
  ℕ, ◌≡◌, ◌≢◌, refl, sym, ◌↔◌, inl, inr, true, false, not, List, [], ◌∷◌, Option, none, some, arith,
  All, Member, filter, Member-filter, Bool-cases, ==_iff, ◌==◌, nat_eq, option_eq, false≢true, ap,
  ◌∙◌,
}
use gamealerts_collector.Provider.{NormalizedEvent, NormalizedMatch}
use gamealerts_collector.Diffing.{
  event_key, event_key_eq, last_event_key, is_new, diff_match, has_changes, state_key, state_key_eq,
}
use gamealerts_collector.Diffing.Order.{IsSorted, sort_by_seq-IsSorted, Member-sort_by_seq}

-- No two events of a snapshot have one seq.
abbrev pub HasUniqueSeqs : List NormalizedEvent → Type 0
HasUniqueSeqs [] = Unit
HasUniqueSeqs (e ∷ es) = All (λ x. x.seq ≢ e.seq) es × HasUniqueSeqs es

-- A seq and a key make up the whole event.
event_eq : (a b : NormalizedEvent) → a.seq ≡ b.seq → event_key a ≡ event_key b → a ≡ b
unfolding event_key
event_eq a b p q = ground arith

last_event_key-absent :
    (es : List NormalizedEvent) (n : ℕ) → All (λ x. x.seq ≢ n) es → last_event_key es n ≡ none
unfolding last_event_key
last_event_key-absent [] n h = refl
last_event_key-absent (e ∷ es) n h = ground (arith, last_event_key-absent es n h.1)

last_event_key-Member :
    (e : NormalizedEvent) (es : List NormalizedEvent)
    → HasUniqueSeqs es
    → Member e es
    → last_event_key es e.seq ≡ some (event_key e)
unfolding last_event_key
last_event_key-Member e [] u m = elim m [ ]
last_event_key-Member e (x ∷ xs) u (inl p) =
    ground (arith, last_event_key-absent xs x.seq u.0, ap event_key p)
last_event_key-Member e (x ∷ xs) u (inr m) = ground (arith, last_event_key-Member e xs u.1 m)

Member-last_event_key :
    (e : NormalizedEvent) (es : List NormalizedEvent)
    → last_event_key es e.seq ≡ some (event_key e)
    → Member e es
unfolding last_event_key
Member-last_event_key e [] h = cc
Member-last_event_key e (x ∷ xs) h = ground (arith, Member-last_event_key e xs, event_eq e x)

pub is_new_iff :
    (last : List NormalizedEvent) (e : NormalizedEvent)
    → HasUniqueSeqs last
    → (is_new last e ≡ true) ↔ ¬ (Member e last)
unfolding is_new
is_new_iff last e u = (
  λ h m. false≢true (sym (new_of_test h) ∙ (==_iff _ _).1 (last_event_key-Member e last u m)),
  λ absent. elim (Bool-cases (last_event_key last e.seq == some (event_key e))) [
    | inl same ↦ absurd (absent (Member-last_event_key e last ((==_iff _ _).0 same)))
    | inr differs ↦ rw differs
  ],
)
  where
    new_of_test :
        not (last_event_key last e.seq == some (event_key e)) ≡ true
        → (last_event_key last e.seq == some (event_key e)) ≡ false
    new_of_test h = ground arith

-- The events of the last snapshot, if there is one.
abbrev pub events_before : Option NormalizedMatch → List NormalizedEvent
events_before none = []
events_before (some last) = last.events

-- If no two events of the last snapshot share a seq, an event is among the new events of
-- diff_match exactly when the current snapshot has it and the last one does not have that
-- same event; with no last snapshot, every event is new.
pub diff_match-new_events :
    (current : NormalizedMatch) (last : Option NormalizedMatch) (e : NormalizedEvent)
    → HasUniqueSeqs (events_before last)
    → Member e (diff_match current last).new_events
      ↔ (Member e current.events × ¬ (Member e (events_before last)))
unfolding diff_match
diff_match-new_events current none e u =
    let s = Member-sort_by_seq e current.events in ((λ m. (s.0 m, λ k. k)), (λ m. s.1 m.0))
diff_match-new_events current (some last) e u =
    let s = Member-sort_by_seq e (filter (is_new last.events) current.events) in
    let f = Member-filter (is_new last.events) e current.events in
    let n = is_new_iff last.events e u in
    (λ m. let k = f.0 (s.0 m) in (k.0, n.0 k.1), λ (m, absent). s.1 (f.1 (m, n.1 absent)))

-- The new events of diff_match are in the order of their seqs.
pub diff_match-IsSorted :
    (current : NormalizedMatch) (last : Option NormalizedMatch)
    → IsSorted (diff_match current last).new_events
unfolding diff_match
diff_match-IsSorted current none = sort_by_seq-IsSorted current.events
diff_match-IsSorted current (some last) =
    sort_by_seq-IsSorted (filter (is_new last.events) current.events)

no_members : (es : List NormalizedEvent) → ((e : NormalizedEvent) → ¬ (Member e es)) → es ≡ []
no_members [] h = refl
no_members (e ∷ es) h = absurd (h e (inl refl))

-- The state of a snapshot does not differ from itself.
state_changed-diff_match_self :
    (m : NormalizedMatch) → (diff_match m (some m)).state_changed ≡ false
unfolding diff_match
state_changed-diff_match_self m = rw ((==_iff (state_key m) (state_key m)).1 refl)

-- If no two events of a snapshot share a seq, the diff of the snapshot with itself reports
-- no change.
pub has_changes-diff_match_self :
    (m : NormalizedMatch) → HasUniqueSeqs m.events → has_changes (diff_match m (some m)) ≡ false
unfolding has_changes
has_changes-diff_match_self m u =
    let none_new =
      no_members (diff_match m (some m)).new_events
        (λ e k. let d = (diff_match-new_events m (some m) e u).0 k in d.1 d.0) in
    rw (state_changed-diff_match_self m, none_new)
