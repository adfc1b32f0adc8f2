-- ===== src/Merge/Laws.antt =====
-- The merges of gamecollect/engine.py, field by field.
use gamealerts_collector.Prelude.{
  ◌≤◌, max, String, ◌≡◌, refl, ◌⊎◌, true, ◌||◌, Option, none, some, arith, is_some,
}
use gamealerts_collector.Dict.{IsDict, get}
use gamealerts_collector.Json.Merge.{merge_payload_preserving_richer_assoc}
use gamealerts_collector.Provider.{NormalizedMatch}
use gamealerts_collector.FallbackMerge.{or_else}
use gamealerts_collector.Merge.{status_rank, lags, merge_over_base, merge_detail}

-- The status rank of _merge_detail's result is the greater of the ranks of the scoreboard
-- and the detail, so a detail never moves a match backwards.
pub merge_detail-status_rank :
    (s d : NormalizedMatch)
    → status_rank (merge_detail s d).status ≡ max (status_rank s.status) (status_rank d.status)
unfolding merge_detail
merge_detail-status_rank s d = ground arith

-- The events of _merge_detail's result are the detail's, and its status, minute and display
-- clock all come from one side: the scoreboard if the detail's rank is below the
-- scoreboard's, and else the detail.
pub merge_detail_one_clock :
    (s d : NormalizedMatch)
    → let m = merge_detail s d in
      (m.events ≡ d.events)
      × (((lags s d ≡ true)
            × (m.status ≡ s.status)
            × (m.minute ≡ s.minute)
            × (m.display_clock ≡ s.display_clock))
          ⊎ ((status_rank s.status ≤ status_rank d.status)
              × (m.status ≡ d.status)
              × (m.minute ≡ d.minute)
              × (m.display_clock ≡ d.display_clock)))
unfolding merge_detail
merge_detail_one_clock s d = (ground arith, ground arith)

-- What is known of identity and scores.
abbrev pub Knows : NormalizedMatch → NormalizedMatch → NormalizedMatch → Type 0
Knows m a b =
    (is_some m.home_team ≡ (is_some a.home_team || is_some b.home_team))
    × (is_some m.away_team ≡ (is_some a.away_team || is_some b.away_team))
    × (is_some m.kickoff_utc ≡ (is_some a.kickoff_utc || is_some b.kickoff_utc))
    × (is_some m.score_home ≡ (is_some a.score_home || is_some b.score_home))
    × (is_some m.score_away ≡ (is_some a.score_away || is_some b.score_away))

-- Each team name, the kickoff and each score of _merge_detail's result is known exactly
-- when the scoreboard or the detail knows it.
pub merge_detail-Knows : (s d : NormalizedMatch) → Knows (merge_detail s d) s d
unfolding merge_detail
merge_detail-Knows s d = (ground arith, ground arith, ground arith, ground arith, ground arith)

-- All fields but the payload.
abbrev pub SameFields : NormalizedMatch → NormalizedMatch → Type 0
SameFields a b =
    (a.match_id ≡ b.match_id)
    × (a.status ≡ b.status)
    × (a.minute ≡ b.minute)
    × (a.score_home ≡ b.score_home)
    × (a.score_away ≡ b.score_away)
    × (a.display_clock ≡ b.display_clock)
    × (a.events ≡ b.events)
    × (a.home_team ≡ b.home_team)
    × (a.away_team ≡ b.away_team)
    × (a.kickoff_utc ≡ b.kickoff_utc)

or_else_assoc {ℓ} :
    {A : Type ℓ} (a b c : Option A) → or_else a (or_else b c) ≡ or_else (or_else a b) c
or_else_assoc none b c = refl
or_else_assoc (some a) b c = refl

-- If the two later payloads have no repeated key, merging three snapshots by
-- _merge_over_base gives the same fields and the same payload value at every key, however
-- they are grouped.
pub merge_over_base_assoc :
    (a b c : NormalizedMatch)
    → IsDict b.payload
    → IsDict c.payload
    → SameFields (merge_over_base (merge_over_base a b) c) (merge_over_base a (merge_over_base b c))
      × ((k : String)
          → get k (merge_over_base (merge_over_base a b) c).payload
            ≡ get k (merge_over_base a (merge_over_base b c)).payload)
unfolding merge_over_base
merge_over_base_assoc a b c hb hc = (
  (
    refl,
    refl,
    refl,
    or_else_assoc c.score_home b.score_home a.score_home,
    or_else_assoc c.score_away b.score_away a.score_away,
    refl,
    refl,
    or_else_assoc c.home_team b.home_team a.home_team,
    or_else_assoc c.away_team b.away_team a.away_team,
    or_else_assoc c.kickoff_utc b.kickoff_utc a.kickoff_utc,
  ),
  λ k. merge_payload_preserving_richer_assoc k a.payload b.payload c.payload hb hc,
)

-- Merging the merged detail with the same scoreboard again changes no field but, it may be,
-- the payload.
pub merge_detail-merge_detail :
    (s d : NormalizedMatch) → SameFields (merge_detail s (merge_detail s d)) (merge_detail s d)
unfolding merge_detail
merge_detail-merge_detail s d = (
  ground arith,
  ground arith,
  ground arith,
  ground arith,
  ground arith,
  ground arith,
  ground arith,
  ground arith,
  ground arith,
  ground arith,
)
