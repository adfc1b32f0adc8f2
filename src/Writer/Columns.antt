-- ===== src/Writer/Columns.antt =====
-- What _pick, setdefault and the UPDATE of gamecollect/db/writer.py leave under the name of a
-- column.
use gamealerts_collector.Prelude.{
  String, ◌≡◌, refl, sym, ap, ◌∙◌, subst, Bool, true, false, ◌||◌, List, [], ◌∷◌, ◌++◌, Option,
  none, some, inl, inr, Bool-cases, false≢true, if◌then◌else◌, if-cases, ◌==◌, ==_iff, string_eq,
  arith,
}
use gamealerts_collector.Dict.{get, contains, insert, IsDict, get-insert}
use gamealerts_collector.Json.{Value, value_eq}
use gamealerts_collector.Writer.Rows.{Row, encode_payload, one_of, picked, match_columns}
use gamealerts_collector.Writer.Matches.{set_default, update_columns}

-- a value, or else another one
abbrev pub or_value : Option Value → Option Value → Option Value
or_value (some v) other = some v
or_value none other = other

-- the column of a value, as it is stored
abbrev pub encoded : String → Option Value → Option Value
encoded col none = none
encoded col (some v) = some (if col == "payload" then encode_payload v else v)

==_refl : (s : String) → (s == s) ≡ true
==_refl s = (==_iff s s).1 refl

==_sym : (s t : String) → (s == t) ≡ (t == s)
==_sym s t = ground (arith, ==_iff s t, ==_iff t s)

if-same : (b : Bool) (o : Option Value) → (if b then o else o) ≡ o
if-same true o = refl
if-same false o = refl

pub or_value-none : (o : Option Value) → or_value o none ≡ o
or_value-none none = refl
or_value-none (some v) = refl

absent : (o : Option Value) → (elim o [ none ↦ false | some _ ↦ true ]) ≡ false → o ≡ none
absent none h = refl
absent (some v) h = cc

pub get-picked :
    (allowed : List String) (row : Row) (k : String)
    → get k (picked allowed row) ≡ (if one_of allowed k then encoded k (get k row) else none)
unfolding picked one_of
get-picked [] row k = refl
get-picked (col ∷ allowed) row k = by_value (get col row) refl (get-picked allowed row k)
  where
    by_value :
        (o : Option Value)
        → get col row ≡ o
        → get k (picked allowed row) ≡ (if one_of allowed k then encoded k (get k row) else none)
        → get k (elim o [
          | none ↦ picked allowed row
          | some v ↦ (col, if col == "payload" then encode_payload v else v) ∷ picked allowed row
        ])
          ≡ (if col == k || one_of allowed k then encoded k (get k row) else none)
    by_value none e h = elim (Bool-cases (col == k)) [
      | inl same ↦
          let away : get k row ≡ none = subst (λ j. get j row ≡ none) ((==_iff col k).0 same) e in
          h ∙ rw (same, away) (if-same (one_of allowed k) none)
      | inr apart ↦ h ∙ rw apart refl
    ]
    by_value (some v) e h = elim (Bool-cases (col == k)) [
      | inl same ↦
          subst
            (λ j.
              get j ((col, if col == "payload" then encode_payload v else v) ∷ picked allowed row)
              ≡ (if col == j || one_of allowed j then encoded j (get j row) else none))
            ((==_iff col k).0 same) (rw (==_refl col, e) refl)
      | inr apart ↦ rw apart h
    ]

get-append :
    (row : Row) (key k : String) (v : Value)
    → get k (row ++ (key, v) ∷ []) ≡ or_value (get k row) (if key == k then some v else none)
get-append [] key k v = refl
get-append ((j, w) ∷ row) key k v = ground (arith, get-append row key k v)

pub get-set_default :
    (key : String) (v : Value) (row : Row) (k : String)
    → get k (set_default key v row) ≡ or_value (get k row) (if key == k then some v else none)
unfolding set_default
get-set_default key v row k = by_value (get key row) refl
  where
    by_value :
        (o : Option Value)
        → get key row ≡ o
        → get k (if elim o [ none ↦ false | some _ ↦ true ] then row else row ++ (key, v) ∷ [])
          ≡ or_value (get k row) (if key == k then some v else none)
    by_value none e = get-append row key k v
    by_value (some x) e = elim (Bool-cases (key == k)) [
      | inl same ↦
          let here : get k row ≡ some x =
            subst (λ j. get j row ≡ some x) ((==_iff key k).0 same) e in
          rw here refl
      | inr apart ↦ rw apart (sym (or_value-none (get k row)))
    ]

pub get-update_columns :
    (columns row : Row) (k : String)
    → IsDict row
    → get k (update_columns columns row) ≡ or_value (get k row) (get k columns)
unfolding update_columns
get-update_columns columns [] k d = refl
get-update_columns columns ((col, v) ∷ row) k (apart, d) =
    get-update_columns (insert col v columns) row k d
    ∙ ap (or_value (get k row)) (get-insert col k v columns)
    ∙ (elim (Bool-cases (col == k)) [
      | inl same ↦
          let away : get k row ≡ none =
            subst (λ j. get j row ≡ none) ((==_iff col k).0 same) (absent (get col row) apart) in
          rw (same, away) refl
      | inr other ↦ rw other refl
    ])

-- No name stands twice.
abbrev pub Distinct : List String → Type 0
Distinct [] = Unit
Distinct (name ∷ names) = (one_of names name ≡ false) × Distinct names

pub match_columns-Distinct : Distinct match_columns
unfolding one_of
match_columns-Distinct =
    (refl, (refl, (refl, (refl, (refl, (refl, (refl, (refl, (refl, (refl, (refl, tt)))))))))))

contains_if : (o : Option Value) → o ≡ none → (elim o [ none ↦ false | some _ ↦ true ]) ≡ false
contains_if o h = rw h refl

pub picked-IsDict :
    (allowed : List String) (row : Row) → Distinct allowed → IsDict (picked allowed row)
unfolding picked
picked-IsDict [] row d = tt
picked-IsDict (col ∷ allowed) row (fresh, d) = by_value (get col row) (picked-IsDict allowed row d)
  where
    away : contains col (picked allowed row) ≡ false
    away = contains_if (get col (picked allowed row)) (get-picked allowed row col ∙ rw fresh refl)

    by_value :
        (o : Option Value)
        → IsDict (picked allowed row)
        → IsDict (elim o [
          | none ↦ picked allowed row
          | some v ↦ (col, if col == "payload" then encode_payload v else v) ∷ picked allowed row
        ])
    by_value none rest = rest
    by_value (some v) rest = (away, rest)

append-IsDict :
    (key : String) (v : Value) (row : Row)
    → contains key row ≡ false
    → IsDict row
    → IsDict (row ++ (key, v) ∷ [])
append-IsDict key v [] h d = (refl, tt)
append-IsDict key v ((j, w) ∷ row) h (apart, d) = elim (Bool-cases (j == key)) [
  | inl same ↦ absurd (
      false≢true (
        sym h
        ∙ subst
            (λ (b : Bool).
              (elim (if b then some w else get key row) [ none ↦ false | some _ ↦ true ]) ≡ true)
            (sym same) refl))
  | inr other ↦
      let fresh : contains key row ≡ false =
        subst
          (λ (b : Bool).
            (elim (if b then some w else get key row) [ none ↦ false | some _ ↦ true ]) ≡ false)
          other h in
      let away : get j (row ++ (key, v) ∷ []) ≡ none =
        get-append row key j v ∙ rw (absent (get j row) apart, ==_sym key j, other) refl in
      (contains_if (get j (row ++ (key, v) ∷ [])) away, append-IsDict key v row fresh d)
]

pub set_default-IsDict :
    (key : String) (v : Value) (row : Row) → IsDict row → IsDict (set_default key v row)
unfolding set_default
set_default-IsDict key v row d =
    if-cases IsDict (contains key row) row (row ++ (key, v) ∷ []) (λ _. d)
      (λ h. append-IsDict key v row h d)

pub or_value-or_value :
    (a b c : Option Value) → or_value (or_value a b) c ≡ or_value a (or_value b c)
or_value-or_value none b c = refl
or_value-or_value (some v) b c = refl
