-- ===== src/Football/Orientation/Turned.antt =====
-- _home_away_view of gamecollect_football/reconcile.py, at every value of a payload.
use gamealerts_collector.Prelude.{
  arith, ◌≡◌, refl, sym, ap, ◌∙◌, subst, inl, inr, Bool, true, false, ◌||◌, List, String, Option,
  none, some, if◌then◌else◌, ◌==◌, string_eq,
}
use gamealerts_collector.Dict.{get}
use gamealerts_collector.Json.{Value, Payload}
use gamealerts_collector.Provider.{NormalizedMatch}
use gamealerts_collector.Football.Orientation.{
  swap_keys, update_key, flip_side_value, flip_flat, flip_nested_home_away, flip_home_away_payload,
  home_away_view,
}
use gamealerts_collector.Football.Orientation.Lookup.{
  swapped, get-swap_keys, get-update_key, equal_or_apart, on_value, on_value-other_side,
}
use gamealerts_collector.Football.Orientation.Nested.{
  Step, leaf, sided, turned_leaf, leaf-flip_nested_home_away, ==_sym, on_value-id,
}

-- the key of the other team's half-time score, or score in the shootout
abbrev pub turned_key : String → String
turned_key k = swapped "score_ht_home" "score_ht_away" (swapped "score_pen_home" "score_pen_away" k)

-- the keys whose values are turned round at every depth
abbrev pub is_nested : String → Bool
is_nested k = k == "stats" || (k == "lineups" || k == "formations")

-- the scalar at a key of a payload and the end of a path in its value
abbrev pub leaf_at : String → List Step → Payload → Option Value
leaf_at k path p = elim (get k p) [ none ↦ none | some v ↦ leaf path v ]

-- What must stand there in the turned payload.
abbrev pub turned_at : String → List Step → Payload → Option Value
turned_at k path p = elim (get (turned_key k) p) [
  | none ↦ none
  | some v ↦
      if is_nested k then turned_leaf false path v else leaf path (sided (k == "pen_winner_side") v)
]

-- what becomes of the value at a key
abbrev turned_value : String → Value → Value
turned_value k v = if is_nested k then flip_nested_home_away v else sided (k == "pen_winner_side") v

get-flip_flat :
    (k : String) (p : Payload)
    → get k (flip_flat p) ≡ on_value (sided (k == "pen_winner_side")) (get (turned_key k) p)
unfolding flip_flat
get-flip_flat k p = elim (equal_or_apart k "pen_winner_side") [
  | inl e ↦
      subst (λ j. get j (flip_flat p) ≡ expected j) (sym e)
        (get-update_key flip_side_value "pen_winner_side" "pen_winner_side" pens
          ∙ ap (on_value flip_side_value) (through "pen_winner_side")
          ∙ on_value-other_side (get "pen_winner_side" p))
  | inr apart ↦
      let outer : get k (flip_flat p) ≡ get k pens =
        get-update_key flip_side_value "pen_winner_side" k pens
        ∙ rw (==_sym "pen_winner_side" k, apart) refl in
      outer ∙ through k ∙ rw apart (sym (on_value-id (get (turned_key k) p)))
]
  where
    halves : Payload
    halves = swap_keys "score_ht_home" "score_ht_away" p

    pens : Payload
    pens = swap_keys "score_pen_home" "score_pen_away" halves

    expected : String → Option Value
    expected j = on_value (sided (j == "pen_winner_side")) (get (turned_key j) p)

    through : (j : String) → get j pens ≡ get (turned_key j) p
    through j =
        get-swap_keys "score_pen_home" "score_pen_away" j halves refl
        ∙ get-swap_keys "score_ht_home" "score_ht_away"
            (swapped "score_pen_home" "score_pen_away" j) p refl

get-apart :
    (key k : String) (d : Payload)
    → (k == key) ≡ false
    → get k (update_key flip_nested_home_away key d) ≡ get k d
get-apart key k d apart =
    get-update_key flip_nested_home_away key k d ∙ rw (==_sym key k, apart) refl

get-flip_home_away_payload :
    (k : String) (p : Payload)
    → get k (flip_home_away_payload p) ≡ on_value (turned_value k) (get (turned_key k) p)
unfolding flip_home_away_payload
get-flip_home_away_payload k p = elim (equal_or_apart k "formations") [
  | inl e ↦ subst Turned (sym e) (
      get-update_key flip_nested_home_away "formations" "formations" lineups
      ∙ ap (on_value flip_nested_home_away) (
          get-update_key flip_nested_home_away "lineups" "formations" stats
          ∙ get-update_key flip_nested_home_away "stats" "formations" flat
          ∙ get-flip_flat "formations" p
          ∙ on_value-id (get "formations" p)))
  | inr a ↦ elim (equal_or_apart k "lineups") [
    | inl e ↦ subst Turned (sym e) (
        get-update_key flip_nested_home_away "formations" "lineups" lineups
        ∙ get-update_key flip_nested_home_away "lineups" "lineups" stats
        ∙ ap (on_value flip_nested_home_away) (
            get-update_key flip_nested_home_away "stats" "lineups" flat
            ∙ get-flip_flat "lineups" p
            ∙ on_value-id (get "lineups" p)))
    | inr b ↦ elim (equal_or_apart k "stats") [
      | inl e ↦ subst Turned (sym e) (
          get-update_key flip_nested_home_away "formations" "stats" lineups
          ∙ get-update_key flip_nested_home_away "lineups" "stats" stats
          ∙ get-update_key flip_nested_home_away "stats" "stats" flat
          ∙ ap (on_value flip_nested_home_away)
              (get-flip_flat "stats" p ∙ on_value-id (get "stats" p)))
      | inr c ↦
          get-apart "formations" k lineups a
          ∙ get-apart "lineups" k stats b
          ∙ get-apart "stats" k flat c
          ∙ get-flip_flat k p
          ∙ same a b c
    ]
  ]
]
  where
    flat : Payload
    flat = flip_flat p

    stats : Payload
    stats = update_key flip_nested_home_away "stats" flat

    lineups : Payload
    lineups = update_key flip_nested_home_away "lineups" stats

    Turned : String → Type 0
    Turned j = get j (flip_home_away_payload p) ≡ on_value (turned_value j) (get (turned_key j) p)

    same :
        (k == "formations") ≡ false
        → (k == "lineups") ≡ false
        → (k == "stats") ≡ false
        → on_value (sided (k == "pen_winner_side")) (get (turned_key k) p)
          ≡ on_value (turned_value k) (get (turned_key k) p)
    same a b c =
        let outer : is_nested k ≡ false = ground (arith, a, b, c) in
        ap
          (λ (nested : Bool).
            on_value
              (λ v. if nested then flip_nested_home_away v else sided (k == "pen_winner_side") v)
              (get (turned_key k) p))
          (sym outer)

-- _home_away_view gives the match's own scores and payload, unless the match is reversed:
-- then the scores change places, and at every key of the payload and every path into its
-- value stands, if it is a scalar, what the match has there with home and away exchanged:
-- the half-time and the shootout scores change places, pen_winner_side names the other
-- side, and in stats, lineups and formations the keys home and away change places at every
-- depth, and home_away and homeAway name the other side; all else is as it was.
pub home_away_view-turned :
    (m : NormalizedMatch) (reverse : Bool) (k : String) (path : List Step)
    → let view = home_away_view m reverse in
      (view.0 ≡ (if reverse then m.score_away else m.score_home))
      × (view.1.0 ≡ (if reverse then m.score_home else m.score_away))
      × (leaf_at k path view.1.1
          ≡ (if reverse then turned_at k path m.payload else leaf_at k path m.payload))
unfolding home_away_view
home_away_view-turned m false k path = (refl, refl, refl)
home_away_view-turned m true k path = (
  refl,
  refl,
  ap (below path) (get-flip_home_away_payload k m.payload)
      ∙ by_value (get (turned_key k) m.payload),
)
  where
    below : List Step → Option Value → Option Value
    below path o = elim o [ none ↦ none | some v ↦ leaf path v ]

    by_kind :
        (b : Bool) (v : Value)
        → leaf path (if b then flip_nested_home_away v else sided (k == "pen_winner_side") v)
          ≡ (if b then turned_leaf false path v else leaf path (sided (k == "pen_winner_side") v))
    by_kind true v = leaf-flip_nested_home_away false path v
    by_kind false v = refl

    by_value :
        (o : Option Value)
        → below path (on_value (turned_value k) o) ≡ (elim o [
          | none ↦ none
          | some v ↦
              if is_nested k
              then turned_leaf false path v
              else leaf path (sided (k == "pen_winner_side") v)
        ])
    by_value none = refl
    by_value (some v) = by_kind (is_nested k) v
