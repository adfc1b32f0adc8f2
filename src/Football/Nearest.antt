-- ===== src/Football/Nearest.antt =====
-- _reconcile_by_kickoff of gamecollect_football/reconcile.py. An instant is its number of seconds,
-- and the match's own is an argument.
pub mod Best
use gamealerts_collector.Prelude.{
  ℕ, ◌+◌, ◌-◌, String, Bool, true, false, not, ◌&&◌, ◌||◌, List, [], ◌∷◌, Option, none, some, ltb,
  if◌then◌else◌, ◌==◌, string_eq, non_empty,
}
use gamealerts_collector.Fold.{Unicode}
use gamealerts_collector.Football.Names.{canonical_team_name}

-- a seeded match of the window
pub record KickoffCandidate : Type 0 where
  pub match_id : String
  pub home_team : Option String
  pub away_team : Option String
  pub kickoff : Option ℕ

-- what the two teams of the match, and its instant, are compared with
pub record Target : Type 0 where
  pub unicode : Unicode
  pub home_team : String
  pub away_team : String
  pub instant : Option ℕ

-- `{a, b} == {c, d}`
abbrev pub same_pair : String → String → String → String → Bool
same_pair a b c d = (a == c && b == d) || (a == d && b == c)

-- both names are known, and their set of keys is the match's
unfoldable pub is_same_teams : Target → KickoffCandidate → Bool
unfolding canonical_team_name
is_same_teams t c = elim c.home_team [
  | none ↦ false
  | some home ↦ elim c.away_team [
    | none ↦ false
    | some away ↦
        not (home == "")
        && (not (away == "")
            && same_pair (canonical_team_name t.unicode home) (canonical_team_name t.unicode away)
                (canonical_team_name t.unicode t.home_team)
                (canonical_team_name t.unicode t.away_team))
  ]
]

-- `abs((kdt - target_instant).total_seconds())`, or 0
abbrev pub delta : Option ℕ → Option ℕ → ℕ
delta none b = 0
delta (some a) none = 0
delta (some a) (some b) = (a - b) + (b - a)

-- one round of the loop, on the best candidate so far
unfoldable pub better :
    Target → KickoffCandidate → Option KickoffCandidate → Option KickoffCandidate
unfolding is_same_teams
better t c best =
    if is_same_teams t c
    then elim best [
      | none ↦ some c
      | some b ↦
          if ltb (delta c.kickoff t.instant) (delta b.kickoff t.instant) then some c else some b
    ]
    else best

unfoldable pub nearest :
    Target → List KickoffCandidate → Option KickoffCandidate → Option KickoffCandidate
unfolding better
nearest t [] best = best
nearest t (c ∷ cs) best = nearest t cs (better t c best)

-- _reconcile_by_kickoff
unfoldable pub reconcile_by_kickoff : Target → List KickoffCandidate → Option String
unfolding nearest
reconcile_by_kickoff t cs = elim (nearest t cs none) [ none ↦ none | some c ↦ some c.match_id ]
