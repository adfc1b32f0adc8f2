-- ===== src/Replay/Steps.antt =====
-- The step mode of gamecollect/replay.py over a run of polls.
use gamealerts_collector.Prelude.{
  ℕ, zero, suc, ◌+◌, ◌≤◌, ◌<◌, min, ◌≡◌, refl, ◌∙◌, ap, sym, subst, ◌↔◌, Bool-cases, inl, inr, true,
  false≢true, List, [], ◌∷◌, arith, ltb, leb, length, if◌then◌else◌, if-cases,
}
use gamealerts_collector.Provider.{NormalizedEvent, NormalizedMatch}
use gamealerts_collector.Diffing.{insert_by_seq, sort_by_seq}
use gamealerts_collector.Replay.{
  ReplayProvider, step_provider, take, snapshot, advance, fetch_live_matches, exhausted,
}

-- The provider after `n` polls.
unfoldable pub after_polls : ℕ → ReplayProvider → ReplayProvider
after_polls zero p = p
after_polls (suc n) p = after_polls n (fetch_live_matches 0 p).1

pub take-all : {A : Type 0} (n : ℕ) (xs : List A) → length xs ≤ n → take n xs ≡ xs
unfolding take
take-all zero [] h = refl
take-all zero (x ∷ xs) h = absurd (omega arith)
take-all (suc n) [] h = refl
take-all (suc n) (x ∷ xs) h = ap (λ ys. x ∷ ys) (take-all n xs (omega arith))

-- The recorded match, its events sorted, of which `n` are revealed.
abbrev IsRevealed : NormalizedMatch → ℕ → ReplayProvider → Type 0
IsRevealed m n p =
    (p.match ≡ m)
    × (p.events ≡ sort_by_seq m.events)
    × (p.step_mode ≡ true)
    × (p.revealed ≡ min n (length (sort_by_seq m.events)))

advance-IsRevealed :
    (m : NormalizedMatch) (n : ℕ) (p : ReplayProvider)
    → IsRevealed m n p
    → IsRevealed m (suc n) (advance 0 p)
unfolding advance
advance-IsRevealed m n p (a, b, c, d) =
    let size = ap length b in
    let more = ltb p.revealed (length p.events) in
    let next = record p { revealed = suc p.revealed } in
    if-cases (IsRevealed m (suc n)) p.step_mode (if more then next else p) _
      (λ _.
        if-cases (IsRevealed m (suc n)) more next p
          (λ e. (
            a,
            b,
            c,
            let less : p.revealed < length p.events = ground arith in omega (arith, d, size, less),
          ))
          (λ e. (
            a,
            b,
            c,
            let full : length p.events ≤ p.revealed = ground arith in omega (arith, d, size, full),
          )))
      (λ k. absurd (false≢true (sym k ∙ c)))

after_polls-IsRevealed :
    (m : NormalizedMatch) (n k j : ℕ) (p : ReplayProvider)
    → k + n ≡ j
    → IsRevealed m k p
    → IsRevealed m j (after_polls n p)
unfolding after_polls fetch_live_matches
after_polls-IsRevealed m zero k j p e h =
    let same : k ≡ j = omega arith in subst (λ x. IsRevealed m x p) same h
after_polls-IsRevealed m (suc n) k j p e h =
    after_polls-IsRevealed m n (suc k) j (advance 0 p) (omega arith) (advance-IsRevealed m k p h)

started : (m : NormalizedMatch) (n : ℕ) → IsRevealed m n (after_polls n (step_provider m))
unfolding step_provider
started m n =
    after_polls-IsRevealed m n 0 n (step_provider m) (omega arith) (refl, refl, refl, omega arith)

take-min : {A : Type 0} (n k : ℕ) (xs : List A) → k ≡ min n (length xs) → take k xs ≡ take n xs
take-min n k xs e = elim (Bool-cases (leb n (length xs))) [
  | inl h ↦ let same : k ≡ n = ground (arith, e) in ap (λ j. take j xs) same
  | inr h ↦
      let full : length xs ≤ k = ground (arith, e) in
      let over : length xs ≤ n = ground arith in take-all k xs full ∙ sym (take-all n xs over)
]

length-insert_by_seq :
    (e : NormalizedEvent) (es : List NormalizedEvent)
    → length (insert_by_seq e es) ≡ suc (length es)
unfolding insert_by_seq
length-insert_by_seq e [] = refl
length-insert_by_seq e (x ∷ xs) = ground (arith, length-insert_by_seq e xs)

pub length-sort_by_seq : (es : List NormalizedEvent) → length (sort_by_seq es) ≡ length es
unfolding sort_by_seq
length-sort_by_seq [] = refl
length-sort_by_seq (e ∷ es) =
    omega (arith, length-insert_by_seq e (sort_by_seq es), length-sort_by_seq es)

-- After n polls of a replay in step mode, the snapshot is the match with the first n of its
-- events in the order of their seqs.
pub after_polls-snapshot :
    (m : NormalizedMatch) (n : ℕ)
    → snapshot (after_polls n (step_provider m))
      ≡ record m { events = take n (sort_by_seq m.events) }
unfolding snapshot
after_polls-snapshot m n =
    let (a, b, c, d) = started m n in
    let p = after_polls n (step_provider m) in
    let shown : take p.revealed p.events ≡ take n (sort_by_seq m.events) =
      ap (take p.revealed) b ∙ take-min n p.revealed (sort_by_seq m.events) d in
    ap (λ (x : NormalizedMatch). record x { events = take p.revealed p.events }) a
    ∙ ap (λ es. record m { events = es }) shown

-- In step mode the provider is exhausted after n polls exactly if the match has at most n events.
pub after_polls-exhausted :
    (m : NormalizedMatch) (n : ℕ)
    → (exhausted (after_polls n (step_provider m)) ≡ true) ↔ (length m.events ≤ n)
unfolding exhausted
after_polls-exhausted m n =
    let (a, b, c, d) = started m n in
    let p = after_polls n (step_provider m) in
    let size : length p.events ≡ length m.events = ap length b ∙ length-sort_by_seq m.events in
    let same = length-sort_by_seq m.events in
    (
      λ h.
          let full : length p.events ≤ p.revealed = ground arith in
          omega (arith, full, size, same, d),
      λ h.
          let full : length p.events ≤ p.revealed = omega (arith, h, size, same, d) in
          ground (arith, full),
    )
