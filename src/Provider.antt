-- ===== src/Provider.antt =====
-- gamecollect/provider.py: the domain model that providers normalize into. Minutes, scores,
-- seqs and importances are Python ints that the code only compares, so they are naturals.
use gamealerts_collector.Prelude.{
  ℕ, String, Bool, true, false, List, Option, Eq, dec_beq, dec_beq_iff,
}
use gamealerts_collector.Json.{Payload}

pub data MatchStatus : Type 0 where
  scheduled in_play paused finished unknown : MatchStatus

unfoldable pub MatchStatus-discrete : Discrete MatchStatus
MatchStatus-discrete = hlevel

instance abbrev pub status_eq : Eq MatchStatus
status_eq = record {
  same = dec_beq MatchStatus-discrete;
  same_iff = dec_beq_iff MatchStatus-discrete;
}

-- `status in LIVE_STATUSES`
abbrev pub is_live : MatchStatus → Bool
is_live in_play = true
is_live paused = true
is_live _ = false

-- the enum's `.value`
abbrev pub status_value : MatchStatus → String
status_value scheduled = "SCHEDULED"
status_value in_play = "IN_PLAY"
status_value paused = "PAUSED"
status_value finished = "FINISHED"
status_value unknown = "UNKNOWN"

pub record NormalizedEvent : Type 0 where
  pub seq : ℕ
  pub minute : Option ℕ
  pub event_type : String
  pub importance : ℕ
  pub team : Option String
  pub player : Option String
  pub assist : Option String
  pub detail : Option String

pub record NormalizedMatch : Type 0 where
  pub match_id : String
  pub status : MatchStatus
  pub minute : Option ℕ
  pub score_home : Option ℕ
  pub score_away : Option ℕ
  pub display_clock : Option String
  pub events : List NormalizedEvent
  pub home_team : Option String
  pub away_team : Option String
  pub kickoff_utc : Option String
  pub payload : Payload
