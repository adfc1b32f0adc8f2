-- ===== src/Reader/Since.antt =====
-- get_events_since of gamecollect/db/reader.py, for a consumer that reads on from a cursor.
use gamealerts_collector.Prelude.{
  ℕ, ◌≤◌, ◌≡◌, refl, sym, ◌∙◌, ap, String, Bool, Bool-cases, inl, inr, true, false, List, [], ◌∷◌,
  ◌++◌, none, some, arith, All, filter, leb, ltb, le_trans, if◌then◌else◌, All-map,
}
use gamealerts_collector.Writer.Table.{EventRow, Db}
use gamealerts_collector.Reader.{insert_by, sort_by, seq_le, events_of, get_events_since}

-- Every later row has a seq that is not lower.
abbrev pub IsAscending : List EventRow → Type 0
IsAscending [] = Unit
IsAscending (e ∷ es) = All (λ (x : EventRow). e.seq ≤ x.seq) es × IsAscending es

AtLeast-trans :
    (d e : EventRow) (es : List EventRow)
    → d.seq ≤ e.seq
    → All (λ (x : EventRow). e.seq ≤ x.seq) es
    → All (λ (x : EventRow). d.seq ≤ x.seq) es
AtLeast-trans d e es h k =
    All-map (λ (x : EventRow). e.seq ≤ x.seq) (λ (x : EventRow). d.seq ≤ x.seq) es
      (λ x l. le_trans h l) k

All-insert_by :
    (P : EventRow → Type 0) (x : EventRow) (ys : List EventRow)
    → P x
    → All P ys
    → All P (insert_by seq_le x ys)
unfolding insert_by
All-insert_by P x [] p h = (p, tt)
All-insert_by P x (y ∷ ys) p h = elim (Bool-cases (leb x.seq y.seq)) [
  | inl b ↦ rw b (p, h)
  | inr b ↦ rw b (h.0, All-insert_by P x ys p h.1)
]

insert_by-IsAscending :
    (x : EventRow) (ys : List EventRow) → IsAscending ys → IsAscending (insert_by seq_le x ys)
unfolding insert_by
insert_by-IsAscending x [] h = (tt, tt)
insert_by-IsAscending x (y ∷ ys) h = elim (Bool-cases (leb x.seq y.seq)) [
  | inl b ↦
      let order : x.seq ≤ y.seq = ground arith in rw b ((order, AtLeast-trans x y ys order h.0), h)
  | inr b ↦
      let order : y.seq ≤ x.seq = ground arith in
      rw b (
        All-insert_by (λ (z : EventRow). y.seq ≤ z.seq) x ys order h.0,
        insert_by-IsAscending x ys h.1,
      )
]

sort_by-IsAscending : (xs : List EventRow) → IsAscending (sort_by seq_le xs)
unfolding sort_by
sort_by-IsAscending [] = tt
sort_by-IsAscending (x ∷ xs) = insert_by-IsAscending x (sort_by seq_le xs) (sort_by-IsAscending xs)

insert_by-first :
    (x : EventRow) (ys : List EventRow)
    → All (λ (y : EventRow). x.seq ≤ y.seq) ys
    → insert_by seq_le x ys ≡ x ∷ ys
unfolding insert_by
insert_by-first x [] h = refl
insert_by-first x (y ∷ ys) h =
    let order = h.0 in let b : leb x.seq y.seq ≡ true = ground arith in rw b refl

All-filter :
    (P : EventRow → Type 0) (p : EventRow → Bool) (xs : List EventRow)
    → All P xs
    → All P (filter p xs)
All-filter P p [] h = tt
All-filter P p (x ∷ xs) h = by_test (p x) (All-filter P p xs h.1)
  where
    by_test :
        (b : Bool)
        → All P (filter p xs)
        → All P (elim b as (λ _. List EventRow) [ true ↦ x ∷ filter p xs | false ↦ filter p xs ])
    by_test true k = (h.0, k)
    by_test false k = k

filter-yes :
    (p : EventRow → Bool) (x : EventRow) (xs : List EventRow)
    → p x ≡ true
    → filter p (x ∷ xs) ≡ x ∷ filter p xs
filter-yes p x xs h = rw (filter, h) refl

filter-no :
    (p : EventRow → Bool) (x : EventRow) (xs : List EventRow)
    → p x ≡ false
    → filter p (x ∷ xs) ≡ filter p xs
filter-no p x xs h = rw (filter, h) refl

insert_by-later :
    (x y : EventRow) (ys : List EventRow)
    → leb x.seq y.seq ≡ false
    → insert_by seq_le x (y ∷ ys) ≡ y ∷ insert_by seq_le x ys
unfolding insert_by
insert_by-later x y ys b = rw b refl

filter-insert_by :
    (p : EventRow → Bool) (x : EventRow) (ys : List EventRow)
    → IsAscending ys
    → filter p (insert_by seq_le x ys)
      ≡ (if p x then insert_by seq_le x (filter p ys) else filter p ys)
unfolding insert_by
filter-insert_by p x [] h = elim (Bool-cases (p x)) [ inl b ↦ rw b refl | inr b ↦ rw b refl ]
filter-insert_by p x (y ∷ ys) h = elim (Bool-cases (leb x.seq y.seq)) [
  | inl b ↦
      let order : x.seq ≤ y.seq = ground arith in
      let above =
        All-filter (λ (z : EventRow). x.seq ≤ z.seq) p (y ∷ ys)
          (order, AtLeast-trans x y ys order h.0) in
      let moved = insert_by-first x (filter p (y ∷ ys)) above in
      elim (Bool-cases (p x)) [ inl c ↦ rw (b, c) (sym moved) | inr c ↦ rw (b, c) refl ]
  | inr b ↦
      let ih = filter-insert_by p x ys h.1 in
      let moved = ap (filter p) (insert_by-later x y ys b) in
      elim (Bool-cases (p y)) [
        | inr c ↦
            moved
            ∙ filter-no p y (insert_by seq_le x ys) c
            ∙ ih
            ∙ sym (ap (λ zs. if p x then insert_by seq_le x zs else zs) (filter-no p y ys c))
        | inl c ↦
            let kept = moved ∙ filter-yes p y (insert_by seq_le x ys) c ∙ ap (λ zs. y ∷ zs) ih in
            let back = filter-yes p y ys c in
            elim (Bool-cases (p x)) [
              | inl d ↦
                  kept
                  ∙ rw d (sym (ap (insert_by seq_le x) back ∙ insert_by-later x y (filter p ys) b))
              | inr d ↦ kept ∙ rw d (sym back)
            ]
      ]
]

-- The sort and a filter commute.
filter-sort_by :
    (p : EventRow → Bool) (xs : List EventRow)
    → sort_by seq_le (filter p xs) ≡ filter p (sort_by seq_le xs)
unfolding sort_by
filter-sort_by p [] = refl
filter-sort_by p (x ∷ xs) =
    let sorted = sort_by seq_le xs in
    let step = filter-insert_by p x sorted (sort_by-IsAscending xs) in
    elim (Bool-cases (p x)) [
      | inl b ↦
          ap (sort_by seq_le) (filter-yes p x xs b)
          ∙ ap (insert_by seq_le x) (filter-sort_by p xs)
          ∙ sym (step ∙ rw b refl)
      | inr b ↦
          ap (sort_by seq_le) (filter-no p x xs b) ∙ filter-sort_by p xs ∙ sym (step ∙ rw b refl)
    ]

none_up_to :
    (cursor : ℕ) (x : EventRow) (xs : List EventRow)
    → ltb cursor x.seq ≡ true
    → All (λ (y : EventRow). x.seq ≤ y.seq) xs
    → filter (λ (e : EventRow). leb e.seq cursor) xs ≡ []
none_up_to cursor x [] b h = refl
none_up_to cursor x (y ∷ ys) b h =
    let order = h.0 in
    let off : leb y.seq cursor ≡ false = ground arith in
    filter-no (λ (e : EventRow). leb e.seq cursor) y ys off ∙ none_up_to cursor x ys b h.1

all_above :
    (cursor : ℕ) (x : EventRow) (xs : List EventRow)
    → ltb cursor x.seq ≡ true
    → All (λ (y : EventRow). x.seq ≤ y.seq) xs
    → filter (λ (e : EventRow). ltb cursor e.seq) xs ≡ xs
all_above cursor x [] b h = refl
all_above cursor x (y ∷ ys) b h =
    let order = h.0 in
    let on : ltb cursor y.seq ≡ true = ground arith in
    filter-yes (λ (e : EventRow). ltb cursor e.seq) y ys on
    ∙ ap (λ zs. y ∷ zs) (all_above cursor x ys b h.1)

-- A list in order is what is up to a cursor and then what is beyond it.
split-at :
    (cursor : ℕ) (xs : List EventRow)
    → IsAscending xs
    → filter (λ (e : EventRow). leb e.seq cursor) xs
        ++ filter (λ (e : EventRow). ltb cursor e.seq) xs
      ≡ xs
split-at cursor [] h = refl
split-at cursor (x ∷ xs) h = elim (Bool-cases (ltb cursor x.seq)) [
  | inl b ↦
      let off : leb x.seq cursor ≡ false = ground arith in
      let low =
        filter-no (λ (e : EventRow). leb e.seq cursor) x xs off ∙ none_up_to cursor x xs b h.0 in
      let high =
        filter-yes (λ (e : EventRow). ltb cursor e.seq) x xs b
        ∙ ap (λ zs. x ∷ zs) (all_above cursor x xs b h.0) in
      ap (λ zs. zs ++ filter (λ (e : EventRow). ltb cursor e.seq) (x ∷ xs)) low ∙ high
  | inr b ↦
      let on : leb x.seq cursor ≡ true = ground arith in
      let low = filter-yes (λ (e : EventRow). leb e.seq cursor) x xs on in
      let high = filter-no (λ (e : EventRow). ltb cursor e.seq) x xs b in
      ap (λ zs. zs ++ filter (λ (e : EventRow). ltb cursor e.seq) (x ∷ xs)) low
      ∙ ap (λ zs. x ∷ (filter (λ (e : EventRow). leb e.seq cursor) xs ++ zs)) high
      ∙ ap (λ zs. x ∷ zs) (split-at cursor xs h.1)
]

-- For any cursor, the events up to the cursor in the full list of get_events_since,
-- followed by get_events_since from the cursor, are that full list: a consumer who resumes
-- from its last seq misses no event and sees none twice.
pub get_events_since-resumes :
    (db : Db) (match_id : String) (cursor : ℕ)
    → filter (λ (e : EventRow). leb e.seq cursor) (get_events_since db match_id none)
        ++ get_events_since db match_id (some cursor)
      ≡ get_events_since db match_id none
unfolding get_events_since
get_events_since-resumes db match_id cursor =
    let events = events_of db match_id in
    let full = sort_by seq_le events in
    ap (λ zs. filter (λ (e : EventRow). leb e.seq cursor) full ++ zs)
      (filter-sort_by (λ (e : EventRow). ltb cursor e.seq) events)
    ∙ split-at cursor full (sort_by-IsAscending events)
