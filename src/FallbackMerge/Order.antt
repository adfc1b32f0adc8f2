-- ===== src/FallbackMerge/Order.antt =====
-- live_supersedes_captured of gamecollect/fallback_merge.py: when a live board is taken to be ahead
-- of a captured fallback.
use gamealerts_collector.Prelude.{
  ℕ, ◌≤◌, ◌<◌, ◌≡◌, ◌↔◌, ◌⊎◌, true, false, Option, none, some, arith,
}
use gamealerts_collector.Provider.{NormalizedMatch}
use gamealerts_collector.FallbackMerge.{live_supersedes_captured, max_known, accrue_fallback}

-- The live side knows every score that the fallback knows, and is not below it.
abbrev pub AtLeast : Option ℕ → Option ℕ → Type 0
AtLeast live none = Unit
AtLeast none (some captured) = ⊥
AtLeast (some live) (some captured) = captured ≤ live

abbrev pub Above : Option ℕ → Option ℕ → Type 0
Above (some live) (some captured) = captured < live
Above _ _ = ⊥

abbrev pub Known : Option ℕ → Type 0
Known none = ⊥
Known (some n) = Unit

-- The documented rule: no known side regresses, and one side is strictly ahead, or both scores
-- of the fallback are known and the live minute is strictly later.
abbrev pub Supersedes : NormalizedMatch → NormalizedMatch → Type 0
Supersedes applied fallback =
    AtLeast applied.score_home fallback.score_home
    × AtLeast applied.score_away fallback.score_away
    × ((Above applied.score_home fallback.score_home ⊎ Above applied.score_away fallback.score_away)
        ⊎ (Known fallback.score_home
            × Known fallback.score_away
            × Above applied.minute fallback.minute))

-- live_supersedes_captured answers True exactly when the live side knows every score that
-- the captured side knows and is not below it, and either is strictly above a known
-- captured score or, with both captured scores known, has a strictly later known minute.
pub live_supersedes_captured_iff :
    (applied fallback : NormalizedMatch)
    → (live_supersedes_captured applied fallback ≡ true) ↔ Supersedes applied fallback
unfolding live_supersedes_captured
live_supersedes_captured_iff a f = ground arith

-- No snapshot supersedes itself, whatever it knows: a board that makes no progress never
-- clears a captured fallback.
pub live_supersedes_captured_irrefl : (a : NormalizedMatch) → live_supersedes_captured a a ≡ false
unfolding live_supersedes_captured
live_supersedes_captured_irrefl a = ground arith

-- If a board supersedes a second and the second supersedes a third, the first supersedes
-- the third.
pub live_supersedes_captured_trans :
    (a b c : NormalizedMatch)
    → live_supersedes_captured a b ≡ true
    → live_supersedes_captured b c ≡ true
    → live_supersedes_captured a c ≡ true
unfolding live_supersedes_captured
live_supersedes_captured_trans a b c p q = ground arith

max_known-AtLeast :
    (live captured : Option ℕ) → AtLeast live captured → max_known captured live ≡ live
unfolding max_known
max_known-AtLeast live captured h = ground arith

-- If a live board supersedes a captured fallback, accruing the fallback with that board
-- gives the board's own scores: clearing a superseded fallback loses no score.
pub accrue_fallback-superseded :
    (applied fallback : NormalizedMatch)
    → live_supersedes_captured applied fallback ≡ true
    → let acc = accrue_fallback (some fallback) applied in
      (acc.score_home ≡ applied.score_home) × (acc.score_away ≡ applied.score_away)
unfolding accrue_fallback
accrue_fallback-superseded a f h =
    let s = (live_supersedes_captured_iff a f).0 h in
    (
      max_known-AtLeast a.score_home f.score_home s.0,
      max_known-AtLeast a.score_away f.score_away s.1,
    )
