-- ===== src/Football/Adoption/Moved.antt =====
-- The events that _adopt_stub_rows of gamecollect_football/reconcile.py moves.
use gamealerts_collector.Prelude.{
  ◌≡◌, refl, ap, ◌⊎◌, inl, inr, Bool, true, false, not, ◌&&◌, String, List, [], ◌∷◌, map, none,
  some, Member, ◌==◌, ==_iff, string_eq, option_eq, arith, if-cases,
}
use gamealerts_collector.Dict.{get, get-remove_self}
use gamealerts_collector.Writer.Table.{EventRow, Db, owner}
use gamealerts_collector.Football.Adoption.{
  has_rows, move_event, adopted_payload, put_payload, move_rows, adopt_stub_rows,
}

owner_absent : (id : String) (db : Db) → get id db.matches ≡ none → owner db id ≡ none
unfolding owner
owner_absent id db h = rw (owner, h) refl

module _ (source stub canonical : String) (apart : (canonical == stub) ≡ false) where
  has_rows-moved :
      (es : List EventRow)
      → has_rows source stub (map (move_event source stub canonical) es) ≡ false
  unfolding has_rows
  has_rows-moved [] = refl
  has_rows-moved (e ∷ es) = ground (arith, has_rows-moved es)

  Member-moved :
      (e : EventRow) (es : List EventRow)
      → Member e es
      → Member (move_event source stub canonical e) (map (move_event source stub canonical) es)
  Member-moved e [] h = absurd h
  Member-moved e (x ∷ es) (inl h) = inl (ap (move_event source stub canonical) h)
  Member-moved e (x ∷ es) (inr h) = inr (Member-moved e es h)

  -- The stub is gone, and each of its events is an event of the canonical match; the others are as
  -- they were.
  abbrev pub IsMoved : Db → Db → Type 0
  IsMoved db after =
      (owner after stub ≡ none)
      × (has_rows source stub after.events ≡ false)
      × ((e : EventRow)
          → Member e db.events
          → Member (move_event source stub canonical e) after.events)

  abbrev pub IsAdopted : Db → Bool × Db → Type 0
  IsAdopted db out = ((out.0 ≡ false) × (out.1 ≡ db)) ⊎ ((out.0 ≡ true) × IsMoved db out.1)

  move_rows-IsMoved :
      (reverse : Bool) (db : Db) → IsMoved db (move_rows reverse source stub canonical db)
  unfolding move_rows
  move_rows-IsMoved reverse db =
      let payload = adopted_payload reverse stub canonical db in
      (
        owner_absent stub (move_rows reverse source stub canonical db)
            (get-remove_self stub (put_payload source canonical payload db).matches),
        has_rows-moved db.events,
        λ e h. Member-moved e db.events h,
      )

  -- If a source has a stub whose id is not the canonical one, then either _adopt_stub_rows
  -- refuses and changes nothing; or it answers True, the stub's row is gone, no event of the
  -- source is left under its id, and every event of the table is still there, those of the
  -- stub under the canonical id: no early history is lost or stranded.
  pub adopt_stub_rows-IsAdopted :
      (reverse : Bool) (db : Db)
      → owner db stub ≡ some source
      → IsAdopted db (adopt_stub_rows reverse source stub canonical db)
  unfolding adopt_stub_rows
  adopt_stub_rows-IsAdopted reverse db h =
      let there : not (owner db stub == some source) ≡ false =
        ground (arith, h, ==_iff (owner db stub) (some source)) in
      rw there (
        if-cases (IsAdopted db)
          (has_rows source stub db.events && has_rows source canonical db.events) (false, db)
          (true, move_rows reverse source stub canonical db) (λ _. inl (refl, refl))
          (λ _. inr (refl, move_rows-IsMoved reverse db)))
