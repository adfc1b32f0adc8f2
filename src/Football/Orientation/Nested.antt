-- ===== src/Football/Orientation/Nested.antt =====
-- The statistics and lineups that gamecollect_football/reconcile.py turns round at every depth.
use gamealerts_collector.Prelude.{
  ℕ, zero, suc, ◌≡◌, refl, sym, ap, ◌∙◌, subst, inl, inr, Bool, true, false, ◌||◌, List, [], ◌∷◌,
  String, Option, none, some, if◌then◌else◌, ◌==◌, ==_iff, string_eq, arith,
}
use gamealerts_collector.Dict.{get}
use gamealerts_collector.Json.{
  Value, null, bool, int, float, str, array, object, Fields, end, field, Items, nil, cons, Payload,
}
use gamealerts_collector.Engine.Rows.{entries}
use gamealerts_collector.Fixture.RoundTrip.{entries-fields_of}
use gamealerts_collector.Football.Orientation.{
  flip_side_value, update_key, swap_keys, flip_dict, flip_nested_home_away, flip_items, flip_fields,
}
use gamealerts_collector.Football.Orientation.Lookup.{
  swapped, get-swap_keys, get-update_key, equal_or_apart, on_value, other_side, on_value-other_side,
}

-- a step into a JSON value
pub data Step : Type 0 where
  key : String → Step
  index : ℕ → Step

abbrev item : ℕ → Items → Option Value
item n nil = none
item zero (cons x xs) = some x
item (suc n) (cons x xs) = item n xs

abbrev pub child : Step → Value → Option Value
child (key k) v = get k (entries v)
child (index n) (array xs) = item n xs
child (index n) _ = none

abbrev pub scalar : Value → Option Value
scalar (array xs) = none
scalar (object fs) = none
scalar v = some v

-- the scalar at the end of a path
abbrev pub leaf : List Step → Value → Option Value
leaf [] v = scalar v
leaf (k ∷ path) v = elim (child k v) [ none ↦ none | some w ↦ leaf path w ]

-- A step to the other side, and whether the value there names a side.
abbrev pub turned_step : Step → Step
turned_step (key k) = key (swapped "home" "away" k)
turned_step (index n) = index n

abbrev pub names_side : Step → Bool
names_side (key k) = k == "home_away" || k == "homeAway"
names_side (index n) = false

abbrev pub sided : Bool → Value → Value
sided b v = if b then other_side v else v

-- What must stand at the end of a path after the turn: what stood at the end of the path
-- with home and away exchanged in it, or, under a key that names a side, the other side.
abbrev pub turned_leaf : Bool → List Step → Value → Option Value
turned_leaf b [] v = scalar (sided b v)
turned_leaf b (k ∷ path) v = elim (child (turned_step k) v) [
  | none ↦ none
  | some w ↦ turned_leaf (names_side k) path w
]

pub ==_sym : (s t : String) → (s == t) ≡ (t == s)
==_sym s t = ground (arith, ==_iff s t, ==_iff t s)

pub on_value-id : (o : Option Value) → on_value (λ v. v) o ≡ o
on_value-id none = refl
on_value-id (some v) = refl

get-flip_dict :
    (k : String) (d : Payload)
    → get k (flip_dict d) ≡ on_value (sided (names_side (key k))) (get (swapped "home" "away" k) d)
unfolding flip_dict
get-flip_dict k d = elim (equal_or_apart k "homeAway") [
  | inl e ↦
      subst (λ j. get j (flip_dict d) ≡ expected j) (sym e)
        (get-update_key flip_side_value "homeAway" "homeAway" once
          ∙ ap (on_value flip_side_value) (
              get-update_key flip_side_value "home_away" "homeAway" swap
              ∙ get-swap_keys "home" "away" "homeAway" d refl)
          ∙ on_value-other_side (get "homeAway" d))
  | inr apart ↦ elim (equal_or_apart k "home_away") [
    | inl e ↦
        subst (λ j. get j (flip_dict d) ≡ expected j) (sym e)
          (get-update_key flip_side_value "homeAway" "home_away" once
            ∙ get-update_key flip_side_value "home_away" "home_away" swap
            ∙ ap (on_value flip_side_value) (get-swap_keys "home" "away" "home_away" d refl)
            ∙ on_value-other_side (get "home_away" d))
    | inr apart' ↦
        let outer : get k (flip_dict d) ≡ get k once =
          get-update_key flip_side_value "homeAway" k once ∙ rw (==_sym "homeAway" k, apart) refl in
        let inner : get k once ≡ get k swap =
          get-update_key flip_side_value "home_away" k swap
          ∙ rw (==_sym "home_away" k, apart') refl in
        let kept : get (swapped "home" "away" k) d ≡ expected k =
          rw (apart, apart') (sym (on_value-id (get (swapped "home" "away" k) d))) in
        outer ∙ inner ∙ get-swap_keys "home" "away" k d refl ∙ kept
  ]
]
  where
    swap : Payload
    swap = swap_keys "home" "away" d

    once : Payload
    once = update_key flip_side_value "home_away" swap

    expected : String → Option Value
    expected j = on_value (sided (names_side (key j))) (get (swapped "home" "away" j) d)

get-flip_fields :
    (k : String) (fs : Fields)
    → get k (flip_fields fs) ≡ on_value flip_nested_home_away (get k (entries (object fs)))
unfolding flip_fields
get-flip_fields k end = refl
get-flip_fields k (field j v fs) = by_key (j == k) (get-flip_fields k fs)
  where
    by_key :
        (b : Bool)
        → get k (flip_fields fs) ≡ on_value flip_nested_home_away (get k (entries (object fs)))
        → (if b then some (flip_nested_home_away v) else get k (flip_fields fs))
          ≡ on_value flip_nested_home_away (if b then some v else get k (entries (object fs)))
    by_key true h = refl
    by_key false h = h

item-flip_items :
    (n : ℕ) (xs : Items) → item n (flip_items xs) ≡ on_value flip_nested_home_away (item n xs)
unfolding flip_items
item-flip_items n nil = refl
item-flip_items zero (cons x xs) = refl
item-flip_items (suc n) (cons x xs) = item-flip_items n xs

child-sided : (b : Bool) (k : Step) (v : Value) → child k (sided b v) ≡ child k v
child-sided false k v = refl
child-sided true (key k) (str s) = refl
child-sided true (index n) (str s) = refl
child-sided true k null = refl
child-sided true k (bool b) = refl
child-sided true k (int n) = refl
child-sided true k (float x) = refl
child-sided true k (array xs) = refl
child-sided true k (object fs) = refl

scalar-flip :
    (b : Bool) (v : Value) → scalar (sided b (flip_nested_home_away v)) ≡ scalar (sided b v)
unfolding flip_nested_home_away
scalar-flip true (array xs) = refl
scalar-flip false (array xs) = refl
scalar-flip true (object fs) = refl
scalar-flip false (object fs) = refl
scalar-flip b null = refl
scalar-flip b (bool c) = refl
scalar-flip b (int n) = refl
scalar-flip b (float x) = refl
scalar-flip b (str s) = refl

-- a value that is turned round, under its own step
abbrev turned_child : Step → Value → Value
turned_child k w = sided (names_side k) (flip_nested_home_away w)

on_value-on_value :
    (f g : Value → Value) (o : Option Value) → on_value f (on_value g o) ≡ on_value (λ v. f (g v)) o
on_value-on_value f g none = refl
on_value-on_value f g (some v) = refl

child-flip :
    (k : Step) (v : Value)
    → child k (flip_nested_home_away v) ≡ on_value (turned_child k) (child (turned_step k) v)
unfolding flip_nested_home_away
child-flip (key k) (object fs) =
    ap (get k) (entries-fields_of (flip_dict (flip_fields fs)))
    ∙ get-flip_dict k (flip_fields fs)
    ∙ ap (on_value (sided (names_side (key k)))) (get-flip_fields (swapped "home" "away" k) fs)
    ∙ on_value-on_value (sided (names_side (key k))) flip_nested_home_away
        (get (swapped "home" "away" k) (entries (object fs)))
child-flip (index n) (object fs) = refl
child-flip (index n) (array xs) = item-flip_items n xs
child-flip (key k) (array xs) = refl
child-flip (key k) null = refl
child-flip (index n) null = refl
child-flip (key k) (bool b) = refl
child-flip (index n) (bool b) = refl
child-flip (key k) (int i) = refl
child-flip (index n) (int i) = refl
child-flip (key k) (float x) = refl
child-flip (index n) (float x) = refl
child-flip (key k) (str s) = refl
child-flip (index n) (str s) = refl

pub leaf-flip_nested_home_away :
    (b : Bool) (path : List Step) (v : Value)
    → leaf path (sided b (flip_nested_home_away v)) ≡ turned_leaf b path v
leaf-flip_nested_home_away b [] v = scalar-flip b v
leaf-flip_nested_home_away b (k ∷ path) v =
    ap below (child-sided b k (flip_nested_home_away v) ∙ child-flip k v)
    ∙ by_child (child (turned_step k) v) (λ w. leaf-flip_nested_home_away (names_side k) path w)
  where
    below : Option Value → Option Value
    below o = elim o [ none ↦ none | some w ↦ leaf path w ]

    by_child :
        (o : Option Value)
        → ((w : Value) → leaf path (turned_child k w) ≡ turned_leaf (names_side k) path w)
        → below (on_value (turned_child k) o)
          ≡ (elim o [ none ↦ none | some w ↦ turned_leaf (names_side k) path w ])
    by_child none h = refl
    by_child (some w) h = h w
