-- ===== src/Backfill/Chunks.antt =====
-- The days of chunk_date_range of gamecollect/backfill.py.
use gamealerts_collector.Prelude.{
  ℕ, zero, suc, ◌+◌, ◌-◌, ◌≤◌, ◌<◌, ◌≡◌, ◌↔◌, ◌⊎◌, inl, inr, Bool-cases, false, List, [], ◌∷◌,
  arith, Member, All, ltb, leb,
}
use gamealerts_collector.Backfill.{walk, chunk_date_range}

-- Each day is later than the one before.
abbrev pub IsIncreasing : List ℕ → Type 0
IsIncreasing [] = Unit
IsIncreasing (x ∷ xs) = All (λ y. x < y) xs × IsIncreasing xs

first_day : (day x : ℕ) → day ≤ x → (x ≡ day) ⊎ (day + 1 ≤ x)
first_day day x h = elim (Bool-cases (leb x day)) [
  | inl e ↦ inl (ground arith)
  | inr e ↦ inr (ground arith)
]

Member-walk :
    (fuel day last x : ℕ)
    → suc last ≤ day + fuel
    → Member x (walk fuel day last) ↔ ((day ≤ x) × (x ≤ last))
unfolding walk
Member-walk zero day last x h = ((λ m. absurd m), (λ p. absurd (omega (arith, p.0, p.1))))
Member-walk (suc fuel) day last x h =
    let ih = Member-walk fuel (day + 1) last x (omega arith) in
    elim (Bool-cases (leb day last)) [
      | inr e ↦
          let late : day ≤ x → x ≤ last → ⊥ = λ a b. ground arith in
          rw e ((λ m. absurd m), (λ p. late p.0 p.1))
      | inl e ↦
          let reached : day ≤ last = ground arith in
          rw e (
            λ m. elim m [
              | inl p ↦ (omega arith, omega arith)
              | inr n ↦ (omega (arith, (ih.0 n).0), (ih.0 n).1)
            ],
            λ p. elim (first_day day x p.0) [ inl q ↦ inl q | inr q ↦ inr (ih.1 (q, p.1)) ],
          )
    ]

later-walk :
    (fuel day last : ℕ) (bound : ℕ) → bound < day → All (λ y. bound < y) (walk fuel day last)
unfolding walk
later-walk zero day last bound h = tt
later-walk (suc fuel) day last bound h = elim (Bool-cases (leb day last)) [
  | inr e ↦ rw e tt
  | inl e ↦ rw e (h, later-walk fuel (day + 1) last bound (omega arith))
]

walk-IsIncreasing : (fuel day last : ℕ) → IsIncreasing (walk fuel day last)
unfolding walk
walk-IsIncreasing zero day last = tt
walk-IsIncreasing (suc fuel) day last = elim (Bool-cases (leb day last)) [
  | inr e ↦ rw e tt
  | inl e ↦
      rw e (later-walk fuel (day + 1) last day (omega arith), walk-IsIncreasing fuel (day + 1) last)
]

-- If the window is not empty and its first day has overlap_days days before it, the chunks
-- of chunk_date_range are exactly the days of the window and of the overlap_days days on
-- either side of it, each once and in order.
pub chunk_date_range-days :
    (start end overlap : ℕ)
    → start ≤ end
    → overlap ≤ start
    → ((day : ℕ)
        → Member day (chunk_date_range start end overlap)
          ↔ ((start ≤ day + overlap) × (day ≤ end + overlap)))
      × IsIncreasing (chunk_date_range start end overlap)
unfolding chunk_date_range
chunk_date_range-days start end overlap h k =
    let order : ltb end start ≡ false = ground arith in
    let first = start - overlap in
    let last = end + overlap in
    let room : suc last ≤ first + suc last = omega arith in
    rw order (
      λ day.
          let member = Member-walk (suc last) first last day room in
          (
            λ m. (omega (arith, (member.0 m).0), (member.0 m).1),
            λ p. member.1 (omega (arith, p.0), p.1),
          ),
      walk-IsIncreasing (suc last) first last,
    )
