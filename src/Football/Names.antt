-- ===== src/Football/Names.antt =====
-- The comparison keys of names of gamecollect_football/reconcile.py.
use gamealerts_collector.Prelude.{String, [], ◌∷◌, none, some}
use gamealerts_collector.Dict.{Dict, get}
use gamealerts_collector.Fold.{Unicode, fold}

-- TEAM_ALIASES
abbrev pub team_aliases : Dict String
team_aliases =
    ("Türkiye", "Turkey")
    ∷ ("Côte d'Ivoire", "Ivory Coast")
    ∷ ("Korea Republic", "South Korea")
    ∷ ("IR Iran", "Iran")
    ∷ ("United States", "USA")
    ∷ []

-- canonical_display_name
unfoldable pub canonical_display_name : String → String
canonical_display_name name = elim (get name team_aliases) [ none ↦ name | some alias ↦ alias ]

-- canonical_team_name
unfoldable pub canonical_team_name : Unicode → String → String
unfolding fold canonical_display_name
canonical_team_name u name = fold u (canonical_display_name name)

-- canonical_player_name
unfoldable pub canonical_player_name : Unicode → String → String
unfolding fold
canonical_player_name u name = fold u name
