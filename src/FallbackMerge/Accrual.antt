-- ===== src/FallbackMerge/Accrual.antt =====
-- accrue_fallback of gamecollect/fallback_merge.py over a run of observations.
use gamealerts_collector.Prelude.{
  ℕ, ◌≡◌, refl, Bool, true, false, ◌||◌, List, [], ◌∷◌, Option, some, arith, All, non_empty,
  if◌then◌else◌, ==_iff,
}
use gamealerts_collector.Json.{merge_payload_preserving_richer}
use gamealerts_collector.Provider.{status_eq, NormalizedMatch}
use gamealerts_collector.FallbackMerge.{
  is_terminal, max_known, or_else, clock_eligible, paired_clock, vetoed, winner, other,
  accrue_fallback, accrued_events, accrued_payload, accrued_identity, old_wins,
  winner_authoritative,
}
use gamealerts_collector.FallbackMerge.Order.{AtLeast}

-- The engine's tracker over a run of observations: each is accrued onto the state so far.
unfoldable pub accrue_run : NormalizedMatch → List NormalizedMatch → NormalizedMatch
accrue_run acc [] = acc
accrue_run acc (m ∷ ms) = accrue_run (accrue_fallback (some acc) m) ms

pub AtLeast-refl : (a : Option ℕ) → AtLeast a a
AtLeast-refl a = ground arith

AtLeast-trans : (a b c : Option ℕ) → AtLeast a b → AtLeast b c → AtLeast a c
AtLeast-trans a b c p q = ground arith

max_known-AtLeast : (a b : Option ℕ) → AtLeast (max_known a b) a × AtLeast (max_known a b) b
unfolding max_known
max_known-AtLeast a b = ground arith

-- Both scores of `acc` are known wherever those of `m` are, and are not below them.
abbrev pub Covers : NormalizedMatch → NormalizedMatch → Type 0
Covers acc m = AtLeast acc.score_home m.score_home × AtLeast acc.score_away m.score_away

pub Covers-trans : (a b c : NormalizedMatch) → Covers a b → Covers b c → Covers a c
Covers-trans a b c p q = (
  AtLeast-trans a.score_home b.score_home c.score_home p.0 q.0,
  AtLeast-trans a.score_away b.score_away c.score_away p.1 q.1,
)

pub accrue_fallback-Covers :
    (old new : NormalizedMatch)
    → Covers (accrue_fallback (some old) new) old × Covers (accrue_fallback (some old) new) new
unfolding accrue_fallback
accrue_fallback-Covers old new =
    let h = max_known-AtLeast old.score_home new.score_home in
    let a = max_known-AtLeast old.score_away new.score_away in ((h.0, a.0), (h.1, a.1))

accrue_run-Covers_start :
    (acc : NormalizedMatch) (ms : List NormalizedMatch) → Covers (accrue_run acc ms) acc
unfolding accrue_run
accrue_run-Covers_start acc [] = (AtLeast-refl acc.score_home, AtLeast-refl acc.score_away)
accrue_run-Covers_start acc (m ∷ ms) =
    let next = accrue_fallback (some acc) m in
    Covers-trans (accrue_run next ms) next acc (accrue_run-Covers_start next ms)
      (accrue_fallback-Covers acc m).0

-- After a run of observations is accrued onto a snapshot, the accumulated scores are known
-- wherever any observation of the run knew them, and neither is below that observation's.
pub accrue_run-Covers :
    (acc : NormalizedMatch) (ms : List NormalizedMatch) → All (Covers (accrue_run acc ms)) ms
unfolding accrue_run
accrue_run-Covers acc [] = tt
accrue_run-Covers acc (m ∷ ms) =
    let next = accrue_fallback (some acc) m in
    (
      Covers-trans (accrue_run next ms) next m (accrue_run-Covers_start next ms)
          (accrue_fallback-Covers acc m).1,
      accrue_run-Covers next ms,
    )

unfoldable pub any_terminal : List NormalizedMatch → Bool
any_terminal [] = false
any_terminal (m ∷ ms) = is_terminal m.status || any_terminal ms

accrue_fallback-terminal :
    (old new : NormalizedMatch)
    → is_terminal (accrue_fallback (some old) new).status
      ≡ (is_terminal old.status || is_terminal new.status)
unfolding accrue_fallback winner
accrue_fallback-terminal old new = ground arith

-- After a run of observations is accrued onto a snapshot, the accumulated status is
-- terminal exactly when the first snapshot's or that of some observation of the run is: a
-- final status is never lost and never made up.
pub accrue_run-terminal :
    (acc : NormalizedMatch) (ms : List NormalizedMatch)
    → is_terminal (accrue_run acc ms).status ≡ (is_terminal acc.status || any_terminal ms)
unfolding accrue_run any_terminal
accrue_run-terminal acc [] = ground arith
accrue_run-terminal acc (m ∷ ms) =
    ground
      (arith, accrue_run-terminal (accrue_fallback (some acc) m) ms, accrue_fallback-terminal acc m)

-- Which side is trusted over the other for every field but the scores.
pub data Leads (old new : NormalizedMatch) : NormalizedMatch → NormalizedMatch → Type 0 where
  veto : vetoed old new ≡ true → Leads old new old new
  new_final : is_terminal new.status ≡ true → is_terminal old.status ≡ false → Leads old new new old
  old_final : is_terminal old.status ≡ true → is_terminal new.status ≡ false → Leads old new old new

abbrev Chosen : NormalizedMatch → NormalizedMatch → NormalizedMatch → NormalizedMatch → Type 0
Chosen old new w o =
    (winner old new ≡ w)
    × (other old new ≡ o)
    × (winner_authoritative old new ≡ true)
    × (paired_clock w o (vetoed old new) ≡ (w.minute, w.display_clock))

paired_clock-vetoed : (w o : NormalizedMatch) → paired_clock w o true ≡ (w.minute, w.display_clock)
unfolding paired_clock
paired_clock-vetoed w o = ground arith

paired_clock-ineligible :
    (w o : NormalizedMatch) (v : Bool)
    → clock_eligible w o ≡ false
    → paired_clock w o v ≡ (w.minute, w.display_clock)
unfolding paired_clock
paired_clock-ineligible w o v h = ground arith

clock_eligible-classes :
    (w o : NormalizedMatch)
    → is_terminal w.status ≡ true
    → is_terminal o.status ≡ false
    → clock_eligible w o ≡ false
unfolding clock_eligible
clock_eligible-classes w o p q = ground (arith, ==_iff o.status w.status)

old_wins-of_final :
    (old new : NormalizedMatch)
    → (is_terminal old.status ≡ true → is_terminal new.status ≡ false → old_wins old new ≡ true)
      × (is_terminal new.status ≡ true → is_terminal old.status ≡ false → old_wins old new ≡ false)
unfolding old_wins
old_wins-of_final old new = (λ p q. ground arith, λ p q. ground arith)

Leads-Chosen : {old new w o : NormalizedMatch} → Leads old new w o → Chosen old new w o
unfolding winner other winner_authoritative
Leads-Chosen {old} {new} (veto h) = (rw h, rw h, rw h, rw h (paired_clock-vetoed old new))
Leads-Chosen {old} {new} (new_final p q) =
    let first = (old_wins-of_final old new).1 p q in
    (
      rw first,
      rw first,
      rw first (ground arith),
      paired_clock-ineligible new old (vetoed old new) (clock_eligible-classes new old p q),
    )
Leads-Chosen {old} {new} (old_final p q) =
    let first = (old_wins-of_final old new).0 p q in
    (
      rw first,
      rw first,
      rw first (ground arith),
      paired_clock-ineligible old new (vetoed old new) (clock_eligible-classes old new p q),
    )

-- Every field but the scores is the trusted side's, and the other side only fills its gaps.
abbrev pub Keeps : NormalizedMatch → NormalizedMatch → NormalizedMatch → Type 0
Keeps acc w o =
    (acc.status ≡ w.status)
    × (acc.minute ≡ w.minute)
    × (acc.display_clock ≡ w.display_clock)
    × (acc.events ≡ (if non_empty w.events then w.events else o.events))
    × (acc.home_team ≡ or_else w.home_team o.home_team)
    × (acc.away_team ≡ or_else w.away_team o.away_team)
    × (acc.kickoff_utc ≡ or_else w.kickoff_utc o.kickoff_utc)
    × (acc.payload ≡ merge_payload_preserving_richer o.payload w.payload)

Chosen-Keeps :
    (old new w o : NormalizedMatch)
    → Chosen old new w o
    → Keeps (accrue_fallback (some old) new) w o
unfolding accrue_fallback accrued_events accrued_payload accrued_identity
Chosen-Keeps old new w o (a, b, c, d) =
    rw (a, b, c, d) (refl, refl, refl, refl, refl, refl, refl, refl)

-- If one side is trusted over the other - the older side over a score regression within one
-- terminality class, or a final side over one that is not - the accumulated status, minute
-- and display clock are the trusted side's, its events are kept where it has any, and the
-- other side only fills the team names, the kickoff and the payload keys that the trusted
-- side lacks.
pub accrue_fallback-Keeps :
    {old new w o : NormalizedMatch} → Leads old new w o → Keeps (accrue_fallback (some old) new) w o
accrue_fallback-Keeps {old} {new} {w} {o} h = Chosen-Keeps old new w o (Leads-Chosen h)
