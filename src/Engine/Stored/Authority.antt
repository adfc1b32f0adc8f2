-- ===== src/Engine/Stored/Authority.antt =====
-- Which stored row _stored_rows_for_provider of gamecollect/engine.py picks, and what its two
-- readers make of it.
use gamealerts_collector.Prelude.{
  ℕ, suc, ◌≤◌, ◌≡◌, refl, sym, ap, subst, ◌∙◌, ◌⊎◌, inl, inr, String, Bool, Bool-cases, true, false,
  ◌&&◌, List, [], ◌∷◌, ◌++◌, Option, none, some, arith, All, All-Member, Member, Member-append,
  ◌==◌, ==_iff, string_eq, if◌then◌else◌, le_trans,
}
use gamealerts_collector.Dict.{get}
use gamealerts_collector.Provider.{scheduled, finished, unknown, is_live, NormalizedMatch}
use gamealerts_collector.Writer.Table.{MatchRow, ProviderRow, Db}
use gamealerts_collector.Engine.Stored.{
  Candidate, qualified, candidate, mapped, candidates, before, first_of, stored_row, read_status,
  stored_match_snapshot, live_value, rows_report_live, status_text, read_match,
}

before-rank :
    (a b : Candidate)
    → ((before a b ≡ true) → a.rank ≤ b.rank) × ((before a b ≡ false) → b.rank ≤ a.rank)
unfolding before
before-rank a b = ground arith

AtMost-trans :
    (c d : Candidate) (cs : List Candidate)
    → c.rank ≤ d.rank
    → All (λ (x : Candidate). d.rank ≤ x.rank) cs
    → All (λ (x : Candidate). c.rank ≤ x.rank) cs
AtMost-trans c d [] h k = tt
AtMost-trans c d (x ∷ cs) h k = (le_trans h k.0, AtMost-trans c d cs h k.1)

-- The candidate is one of the list, and of the lowest rank.
abbrev IsFirst : Candidate → List Candidate → Type 0
IsFirst c cs = Member c cs × All (λ (x : Candidate). c.rank ≤ x.rank) cs

first_of-IsFirst :
    (x : Candidate) (cs : List Candidate)
    → (c : Candidate) × (first_of (x ∷ cs) ≡ some c) × IsFirst c (x ∷ cs)
unfolding first_of
first_of-IsFirst x [] = (x, refl, (inl refl, (omega arith, tt)))
first_of-IsFirst x (y ∷ cs) =
    let (d, e, (m, low)) = first_of-IsFirst y cs in
    elim (Bool-cases (before x d)) [
      | inl b ↦ (
        x,
        rw e (rw b refl),
        (inl refl, (omega arith, AtMost-trans x d (y ∷ cs) ((before-rank x d).0 b) low)),
      )
      | inr b ↦ (d, rw e (rw b refl), (inr m, ((before-rank x d).1 b, low)))
    ]

first_of-Member :
    (y : Candidate) (cs : List Candidate)
    → Member y cs
    → (c : Candidate) × (first_of cs ≡ some c) × IsFirst c cs
first_of-Member y [] m = elim m [ ]
first_of-Member y (x ∷ cs) m = first_of-IsFirst x cs

candidate-shape :
    (c : Candidate) (db : Db) (source : String) (rank : ℕ) (id : String)
    → Member c (candidate db source rank id)
    → (c.rank ≡ rank) × (c.match_id ≡ id)
unfolding candidate
candidate-shape c db source rank id m = by_row (get id db.matches) m
  where
    by_row :
        (o : Option MatchRow)
        → Member c (elim o [
          | none ↦ []
          | some row ↦
              if row.source == source
              then record { rank = rank; match_id = id; columns = row.columns } ∷ []
              else []
        ])
        → (c.rank ≡ rank) × (c.match_id ≡ id)
    by_row none k = elim k [ ]
    by_row (some row) k = ground arith

-- A row of provider_match_map takes the provider's id to the stored id.
abbrev pub IsMapped : String → String → String → List ProviderRow → Type 0
IsMapped source id stored_id rows =
    (q : ProviderRow) × Member q rows
    × (q.source ≡ source)
    × (q.provider_match_id ≡ id)
    × (q.match_id ≡ stored_id)

Member-if :
    {A : Type 0} (x : A) (b : Bool) (xs rest : List A)
    → Member x (if b then xs ++ rest else rest)
    → ((b ≡ true) × Member x xs) ⊎ Member x rest
Member-if x true xs rest m = elim ((Member-append x xs rest).0 m) [
  | inl k ↦ inl (refl, k)
  | inr k ↦ inr k
]
Member-if x false xs rest m = inr m

both : (a b : Bool) → (a && b) ≡ true → (a ≡ true) × (b ≡ true)
both a b h = ground arith

mapped-IsMapped :
    (c : Candidate) (db : Db) (source id : String) (rows : List ProviderRow)
    → Member c (mapped db source id rows)
    → (c.rank ≡ 0) × IsMapped source id c.match_id rows
unfolding mapped
mapped-IsMapped c db source id [] m = elim m [ ]
mapped-IsMapped c db source id (p ∷ rows) m =
    let test = p.source == source && p.provider_match_id == id in
    let rest = mapped db source id rows in
    elim (Member-if c test (candidate db source 0 p.match_id) rest m) [
      | inr k ↦
          let (r, (q, i, s, t, u)) = mapped-IsMapped c db source id rows k in
          (r, (q, inr i, s, t, u))
      | inl (t, k) ↦
          let (r, i) = candidate-shape c db source 0 p.match_id k in
          let (e, f) = both (p.source == source) (p.provider_match_id == id) t in
          let named = (==_iff p.provider_match_id id).0 f in
          (r, (p, inl refl, (==_iff p.source source).0 e, named, sym i))
    ]

candidate-here :
    (db : Db) (source : String) (rank : ℕ) (id : String) (row : MatchRow)
    → get id db.matches ≡ some row
    → row.source ≡ source
    → Member
        (record { rank = rank; match_id = id; columns = row.columns })
        (candidate db source rank id)
unfolding candidate
candidate-here db source rank id row h k =
    rw (h, candidate, (==_iff row.source source).1 k) (inl refl)

-- A stored row of the source that the map reaches is one of the candidates, with rank 0.
mapped-here :
    (db : Db) (source id : String) (p : ProviderRow) (row : MatchRow) (rows : List ProviderRow)
    → Member p rows
    → p.source ≡ source
    → p.provider_match_id ≡ id
    → get p.match_id db.matches ≡ some row
    → row.source ≡ source
    → Member
        (record { rank = 0; match_id = p.match_id; columns = row.columns })
        (mapped db source id rows)
unfolding mapped
mapped-here db source id p row [] m a b h k = elim m [ ]
mapped-here db source id p row (q ∷ rows) m a b h k =
    let found : Candidate = record { rank = 0; match_id = p.match_id; columns = row.columns } in
    let first = candidate db source 0 q.match_id in
    let rest = mapped db source id rows in
    elim m [
      | inl e ↦
          let here = candidate-here db source 0 p.match_id row h k in
          let here' =
            subst (λ (x : ProviderRow). Member found (candidate db source 0 x.match_id)) e here in
          let s = (==_iff q.source source).1 (ap (λ (x : ProviderRow). x.source) (sym e) ∙ a) in
          let i =
            (==_iff q.provider_match_id id).1
              (ap (λ (x : ProviderRow). x.provider_match_id) (sym e) ∙ b) in
          rw (s, i) ((Member-append found first rest).1.0 here')
      | inr n ↦
          later (q.source == source && q.provider_match_id == id)
            (mapped-here db source id p row rows n a b h k)
    ]
  where
    later :
        (t : Bool)
        → let found : Candidate = record {
          rank = 0;
          match_id = p.match_id;
          columns = row.columns;
        } in
          let rest = mapped db source id rows in
          Member found rest
          → Member found (if t then candidate db source 0 q.match_id ++ rest else rest)
    later true n = (Member-append _ (candidate db source 0 q.match_id) _).1.1 n
    later false n = n

-- If the source has a custom seed hook, a mapping of the source for the provider id, and a
-- row of the source for the match that it maps to, then the stored row that is chosen for
-- the provider id is a row that provider_match_map maps it to: a stub, however fresh, never
-- masks a canonical row.
pub stored_row-IsMapped :
    (db : Db) (source id : String) (p : ProviderRow) (row : MatchRow)
    → Member p db.provider_match_map
    → p.source ≡ source
    → p.provider_match_id ≡ id
    → get p.match_id db.matches ≡ some row
    → row.source ≡ source
    → (c : Candidate) × (stored_row false source db id ≡ some c)
      × IsMapped source id c.match_id db.provider_match_map
unfolding stored_row candidates
stored_row-IsMapped db source id p row m a b h k =
    let found : Candidate = record { rank = 0; match_id = p.match_id; columns = row.columns } in
    let bare = candidate db source 2 id in
    let stub = candidate db source 1 (qualified source id) in
    let canonical = mapped db source id db.provider_match_map in
    let here = mapped-here db source id p row db.provider_match_map m a b h k in
    let all =
      (Member-append found bare (stub ++ canonical)).1.1
        ((Member-append found stub canonical).1.1 here) in
    let (c, e, (i, low)) = first_of-Member found (bare ++ (stub ++ canonical)) all in
    let top = All-Member (λ (x : Candidate). c.rank ≤ x.rank) found _ low all in
    (
      c,
      e,
      elim ((Member-append c bare (stub ++ canonical)).0 i) [
        | inl n ↦ absurd (ranked c 1 (candidate-shape c db source 2 id n).0 top)
        | inr n ↦ elim ((Member-append c stub canonical).0 n) [
          | inl q ↦
              absurd (ranked c 0 (candidate-shape c db source 1 (qualified source id) q).0 top)
          | inr q ↦ (mapped-IsMapped c db source id db.provider_match_map q).1
        ]
      ],
    )
  where
    ranked : (c : Candidate) (n : ℕ) → c.rank ≡ suc n → c.rank ≤ 0 → ⊥
    ranked c n e h = omega arith

-- The status of a snapshot that may be missing is live.
abbrev pub is_live_snapshot : Option NormalizedMatch → Bool
is_live_snapshot none = false
is_live_snapshot (some m) = is_live m.status

live_value-read_status : (text : Option String) → live_value text ≡ is_live (read_status text)
unfolding read_status
live_value-read_status none = refl
live_value-read_status (some s) = elim (Bool-cases (s == "IN_PLAY")) [
  | inl e ↦ at "IN_PLAY" ((==_iff s "IN_PLAY").0 e) refl
  | inr e ↦ elim (Bool-cases (s == "PAUSED")) [
    | inl f ↦ at "PAUSED" ((==_iff s "PAUSED").0 f) refl
    | inr f ↦ rw (e, f) (others (s == "SCHEDULED") (s == "FINISHED"))
  ]
]
  where
    at :
        (x : String)
        → s ≡ x
        → live_value (some x) ≡ is_live (read_status (some x))
        → live_value (some s) ≡ is_live (read_status (some s))
    at x e h = subst (λ y. live_value (some y) ≡ is_live (read_status (some y))) (sym e) h

    others :
        (a b : Bool) → false ≡ is_live (if a then scheduled else if b then finished else unknown)
    others a b = ground arith

-- _rows_report_live answers True of the stored row of a provider id exactly when
-- _stored_match_snapshot gives a snapshot for it whose status is live.
pub rows_report_live-stored_match_snapshot :
    (default_seed : Bool) (source : String) (db : Db) (id : String)
    → rows_report_live (stored_row default_seed source db id)
      ≡ is_live_snapshot (stored_match_snapshot default_seed source db id)
unfolding rows_report_live stored_match_snapshot
rows_report_live-stored_match_snapshot default_seed source db id =
    by_row (stored_row default_seed source db id)
  where
    by_row :
        (o : Option Candidate)
        → rows_report_live o
          ≡ is_live_snapshot (elim o [ none ↦ none | some c ↦ some (read_match id c) ])
    by_row none = refl
    by_row (some c) = live_value-read_status (status_text c)
