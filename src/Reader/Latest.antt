-- ===== src/Reader/Latest.antt =====
-- get_latest_event_of_type of gamecollect/db/reader.py and the scan that it stands for.
use gamealerts_collector.Prelude.{
  ◌≤◌, ◌≡◌, ◌⊎◌, inl, inr, refl, sym, String, Bool, Bool-cases, true, false, ◌||◌, List, [], ◌∷◌,
  Option, none, some, arith, All, All-Member, Member, Member-filter, filter, leb, le_trans,
  string_eq, All-map, All-of_Member, Member-append, false≢true, subst,
}
use gamealerts_collector.Json.{value_eq}
use gamealerts_collector.Writer.Table.{EventRow, Db}
use gamealerts_collector.Reader.{
  insert_by, sort_by, first, events_of, seq_ge, has_type, latest_of_type, latest_candidates,
  get_latest_event_of_type,
}

-- The list has no element, and there is no result; or the result is one of the list, and of the
-- highest seq.
abbrev pub IsHighest : List EventRow → Option EventRow → Type 0
IsHighest xs none = (x : EventRow) → Member x xs → ⊥
IsHighest xs (some e) = Member e xs × All (λ (x : EventRow). x.seq ≤ e.seq) xs

AtMost-trans :
    (d e : EventRow) (xs : List EventRow)
    → d.seq ≤ e.seq
    → All (λ (x : EventRow). x.seq ≤ d.seq) xs
    → All (λ (x : EventRow). x.seq ≤ e.seq) xs
AtMost-trans d e xs h k =
    All-map (λ (x : EventRow). x.seq ≤ d.seq) (λ (x : EventRow). x.seq ≤ e.seq) xs
      (λ x l. le_trans l h) k

insert_by-IsHighest :
    (x : EventRow) (xs ys : List EventRow)
    → IsHighest xs (first ys)
    → IsHighest (x ∷ xs) (first (insert_by seq_ge x ys))
unfolding insert_by
insert_by-IsHighest x [] [] h = (inl refl, (omega arith, tt))
insert_by-IsHighest x (w ∷ xs) [] h = absurd (h w (inl refl))
insert_by-IsHighest x xs (y ∷ ys) (m, low) = elim (Bool-cases (leb y.seq x.seq)) [
  | inl b ↦
      let order : y.seq ≤ x.seq = ground arith in
      rw b (inl refl, (omega arith, AtMost-trans y x xs order low))
  | inr b ↦ let order : x.seq ≤ y.seq = ground arith in rw b (inr m, (order, low))
]

sort_by-IsHighest : (xs : List EventRow) → IsHighest xs (first (sort_by seq_ge xs))
unfolding sort_by
sort_by-IsHighest [] = λ x m. absurd m
sort_by-IsHighest (x ∷ xs) = insert_by-IsHighest x xs (sort_by seq_ge xs) (sort_by-IsHighest xs)

-- `type IN (…)`
abbrev pub has_type_in : List String → EventRow → Bool
has_type_in [] e = false
has_type_in (type ∷ types) e = has_type type e || has_type_in types e

or_left : (a b : Bool) → a ≡ true → (a || b) ≡ true
or_left a b h = ground arith

or_right : (a b : Bool) → b ≡ true → (a || b) ≡ true
or_right a b h = ground arith

or_cases : (a b : Bool) → (a || b) ≡ true → (a ≡ true) ⊎ (b ≡ true)
or_cases a b h = ground arith

module _ (db : Db) (match_id : String) where
  -- the events of one type
  of_type : String → List EventRow
  of_type type = filter (has_type type) (events_of db match_id)

  -- Of the events of a type, the subquery has one of the highest seq, and no other.
  latest_of_type-highest :
      (type : String) (x : EventRow)
      → (Member x (latest_of_type db match_id type) → Member x (of_type type))
        × (Member x (of_type type)
            → (c : EventRow) × Member c (latest_of_type db match_id type) × (x.seq ≤ c.seq))
  unfolding latest_of_type of_type
  latest_of_type-highest type x =
      by_first (first (sort_by seq_ge (of_type type))) (sort_by-IsHighest (of_type type))
    where
      by_first :
          (o : Option EventRow)
          → IsHighest (of_type type) o
          → let found : List EventRow = elim o [ none ↦ [] | some e ↦ e ∷ [] ] in
            (Member x found → Member x (of_type type))
            × (Member x (of_type type) → (c : EventRow) × Member c found × (x.seq ≤ c.seq))
      by_first none h = ((λ m. absurd m), (λ m. absurd (h x m)))
      by_first (some e) (m, low) = (
        λ n. elim n [ inl p ↦ subst (λ y. Member y (of_type type)) (sym p) m | inr k ↦ absurd k ],
        λ n. (e, inl refl, All-Member (λ (y : EventRow). y.seq ≤ e.seq) x (of_type type) low n),
      )

  -- the events of the types: what one scan with `type IN (…)` selects
  of_types : List String → List EventRow
  of_types types = filter (has_type_in types) (events_of db match_id)

  latest_candidates-cover :
      (types : List String) (x : EventRow)
      → (Member x (latest_candidates db match_id types) → Member x (of_types types))
        × (Member x (of_types types)
            → (c : EventRow) × Member c (latest_candidates db match_id types) × (x.seq ≤ c.seq))
  unfolding latest_candidates of_types of_type
  latest_candidates-cover [] x =
      let scan = Member-filter (has_type_in []) x (events_of db match_id) in
      ((λ m. absurd m), (λ m. absurd (false≢true (scan.0 m).1)))
  latest_candidates-cover (type ∷ types) x =
      let ev = events_of db match_id in
      let scan = Member-filter (has_type_in (type ∷ types)) x ev in
      let one = Member-filter (has_type type) x ev in
      let others = Member-filter (has_type_in types) x ev in
      let here = latest_of_type-highest type x in
      let later = latest_candidates-cover types x in
      let here_list = latest_of_type db match_id type in
      let later_list = latest_candidates db match_id types in
      (
        λ m. elim ((Member-append x here_list later_list).0 m) [
          | inl n ↦ let (a, b) = one.0 (here.0 n) in scan.1 (a, or_left (has_type type x) _ b)
          | inr n ↦ let (a, b) = others.0 (later.0 n) in scan.1 (a, or_right (has_type type x) _ b)
        ],
        λ m.
            let (a, b) = scan.0 m in
            elim (or_cases (has_type type x) (has_type_in types x) b) [
              | inl k ↦
                  let (c, n, l) = here.1 (one.1 (a, k)) in
                  (c, (Member-append c here_list later_list).1.0 n, l)
              | inr k ↦
                  let (c, n, l) = later.1 (others.1 (a, k)) in
                  (c, (Member-append c here_list later_list).1.1 n, l)
            ],
      )

-- get_latest_event_of_type, which unites one bounded query for each type, gives an event
-- with the highest seq among all events of the match with one of the types, and None
-- exactly when there is no such event.
pub get_latest_event_of_type-IsHighest :
    (db : Db) (match_id : String) (types : List String)
    → IsHighest
        (filter (has_type_in types) (events_of db match_id))
        (get_latest_event_of_type db match_id types)
unfolding get_latest_event_of_type of_types
get_latest_event_of_type-IsHighest db match_id types =
    let found = latest_candidates db match_id types in
    widen (first (sort_by seq_ge found)) (sort_by-IsHighest found)
  where
    widen :
        (o : Option EventRow)
        → IsHighest (latest_candidates db match_id types) o
        → IsHighest (filter (has_type_in types) (events_of db match_id)) o
    widen none h = λ x m. let (c, n, l) = (latest_candidates-cover db match_id types x).1 m in h c n
    widen (some e) (m, low) =
        let all = filter (has_type_in types) (events_of db match_id) in
        (
          (latest_candidates-cover db match_id types e).0 m,
          All-of_Member (λ (x : EventRow). x.seq ≤ e.seq) all
              (λ x n.
                let (c, k, l) = (latest_candidates-cover db match_id types x).1 n in
                le_trans l (All-Member (λ (y : EventRow). y.seq ≤ e.seq) c _ low k)),
        )
