-- ===== src/Replay/Pace.antt =====
-- The paced mode of gamecollect/replay.py.
use gamealerts_collector.Prelude.{
  ℕ, zero, suc, ◌-◌, ◌*◌, ◌≤◌, ◌≡◌, Bool-cases, inl, inr, true, List, [], ◌∷◌, arith, All, leb,
}
use gamealerts_collector.Provider.{NormalizedEvent}
use gamealerts_collector.Replay.{
  ReplayProvider, take, offset_seconds, due_count, start_at, paced_count,
}

leb_sound : (a b : ℕ) → leb a b ≡ true → a ≤ b
leb_sound a b h = ground arith

due_count-prefix :
    (es : List NormalizedEvent) (budget : ℕ)
    → All (λ e. offset_seconds e ≤ budget) (take (due_count es budget) es)
unfolding due_count take
due_count-prefix [] budget = tt
due_count-prefix (e ∷ es) budget = elim (Bool-cases (leb (offset_seconds e) budget)) [
  | inl h ↦ rw h (leb_sound (offset_seconds e) budget h, due_count-prefix es budget)
  | inr h ↦ rw h tt
]

due_count-grows : (es : List NormalizedEvent) (b c : ℕ) → b ≤ c → due_count es b ≤ due_count es c
unfolding due_count
due_count-grows [] b c h = omega arith
due_count-grows (e ∷ es) b c h = ground (arith, due_count-grows es b c h)

scaled : (a b k : ℕ) → a ≤ b → a * k ≤ b * k
scaled a b zero h = omega arith
scaled a b (suc k) h = omega (arith, scaled a b k h)

-- At a reading of the clock every event that the paced mode counts has come: its minute is no later
-- than the time since the first reading, times the speed. At a later reading it counts no fewer.
pub paced_count-grows :
    (p : ReplayProvider) (now later : ℕ)
    → now ≤ later
    → All
        (λ e. offset_seconds e ≤ (now - start_at p.start now) * p.speed)
        (take (paced_count now p).0 p.events)
      × ((paced_count now p).0 ≤ (paced_count later (paced_count now p).1).0)
unfolding paced_count
paced_count-grows p now later h =
    let first = start_at p.start now in
    (
      due_count-prefix p.events ((now - first) * p.speed),
      due_count-grows p.events ((now - first) * p.speed) ((later - first) * p.speed)
          (scaled (now - first) (later - first) p.speed (omega arith)),
    )
