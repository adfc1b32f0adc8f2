-- ===== src/Fixture/RoundTrip.antt =====
-- A fixture of gamecollect/fixture_io.py that is written and read.
use gamealerts_collector.Prelude.{
  ℕ, ◌≡◌, ◌≢◌, ◌≤◌, refl, sym, ◌∙◌, ap, Bool-cases, inl, inr, true, false, List, [], ◌∷◌, map, some,
  arith, All, leb,
}
use gamealerts_collector.Json.{Value, object, Payload, fields_of}
use gamealerts_collector.Provider.{
  MatchStatus, scheduled, in_play, paused, finished, unknown, status_value, NormalizedEvent,
  NormalizedMatch,
}
use gamealerts_collector.Diffing.{insert_by_seq, sort_by_seq}
use gamealerts_collector.Diffing.Order.{IsSorted, All-insert_by_seq, sort_by_seq-IsSorted}
use gamealerts_collector.Diffing.Exact.{HasUniqueSeqs}
use gamealerts_collector.Engine.Rows.{entries}
use gamealerts_collector.Engine.Rows.Columns.{as_int-opt_int, as_str-opt_str}
use gamealerts_collector.Engine.Reconcile.{seen}
use gamealerts_collector.Fixture.{
  items_of, list_of, match_header, event_json, event_value, write_fixture, parse_status,
  read_event_json, read_events, or_empty_list, read_fixture,
}

pub entries-fields_of : (p : Payload) → entries (object (fields_of p)) ≡ p
unfolding fields_of
entries-fields_of [] = refl
entries-fields_of ((k, v) ∷ p) = ap (λ q. (k, v) ∷ q) (entries-fields_of p)

list_of-items_of : (vs : List Value) → list_of (items_of vs) ≡ vs
unfolding items_of list_of
list_of-items_of [] = refl
list_of-items_of (v ∷ vs) = ap (λ ws. v ∷ ws) (list_of-items_of vs)

parse_status-status_value : (s : MatchStatus) → parse_status (some (status_value s)) ≡ some s
unfolding parse_status
parse_status-status_value scheduled = refl
parse_status-status_value in_play = refl
parse_status-status_value paused = refl
parse_status-status_value finished = refl
parse_status-status_value unknown = refl

read_event_json-event_value :
    (seqs : List ℕ) (e : NormalizedEvent)
    → seen e.seq seqs ≡ false
    → read_event_json seqs (event_value e) ≡ some e
unfolding read_event_json event_json fields_of
read_event_json-event_value seqs e h =
    rw
      (
        h,
        as_int-opt_int e.minute,
        as_str-opt_str e.team,
        as_str-opt_str e.player,
        as_str-opt_str e.assist,
        as_str-opt_str e.detail,
      )
      refl

seen-other :
    (seq : ℕ) (es : List NormalizedEvent) (seqs : List ℕ)
    → All (λ x. x.seq ≢ seq) es
    → All (λ x. seen x.seq seqs ≡ false) es
    → All (λ x. seen x.seq (seq ∷ seqs) ≡ false) es
unfolding seen
seen-other seq [] seqs h k = tt
seen-other seq (e ∷ es) seqs h k =
    let apart = h.0 in (ground (arith, apart, k.0), seen-other seq es seqs h.1 k.1)

read_events-event_value :
    (seqs : List ℕ) (es : List NormalizedEvent)
    → HasUniqueSeqs es
    → All (λ x. seen x.seq seqs ≡ false) es
    → read_events seqs (map event_value es) ≡ some es
unfolding read_events
read_events-event_value seqs [] u h = refl
read_events-event_value seqs (e ∷ es) u h =
    let first = read_event_json-event_value seqs e h.0 in
    let rest = read_events-event_value (e.seq ∷ seqs) es u.1 (seen-other e.seq es seqs u.0 h.1) in
    rw (first, rest) refl

insert_by_seq_unique :
    (e : NormalizedEvent) (es : List NormalizedEvent)
    → All (λ x. x.seq ≢ e.seq) es
    → HasUniqueSeqs es
    → HasUniqueSeqs (insert_by_seq e es)
unfolding insert_by_seq
insert_by_seq_unique e [] h u = (tt, tt)
insert_by_seq_unique e (x ∷ xs) h u = elim (Bool-cases (leb e.seq x.seq)) [
  | inl b ↦ rw b (h, u)
  | inr b ↦ rw b (
    All-insert_by_seq (λ y. y.seq ≢ x.seq) e xs (λ p. h.0 (sym p)) u.0,
    insert_by_seq_unique e xs h.1 u.1,
  )
]

All-sort_by_seq :
    (P : NormalizedEvent → Type 0) (es : List NormalizedEvent) → All P es → All P (sort_by_seq es)
unfolding sort_by_seq
All-sort_by_seq P [] h = tt
All-sort_by_seq P (e ∷ es) h = All-insert_by_seq P e (sort_by_seq es) h.0 (All-sort_by_seq P es h.1)

pub sort_by_seq_unique :
    (es : List NormalizedEvent) → HasUniqueSeqs es → HasUniqueSeqs (sort_by_seq es)
unfolding sort_by_seq
sort_by_seq_unique [] u = tt
sort_by_seq_unique (e ∷ es) u =
    insert_by_seq_unique e (sort_by_seq es) (All-sort_by_seq (λ x. x.seq ≢ e.seq) es u.0)
      (sort_by_seq_unique es u.1)

insert_by_seq-first :
    (e : NormalizedEvent) (es : List NormalizedEvent)
    → All (λ x. e.seq ≤ x.seq) es
    → insert_by_seq e es ≡ e ∷ es
unfolding insert_by_seq
insert_by_seq-first e [] h = refl
insert_by_seq-first e (x ∷ xs) h =
    let first = h.0 in let b : leb e.seq x.seq ≡ true = ground arith in rw b refl

pub sort_by_seq-sorted : (es : List NormalizedEvent) → IsSorted es → sort_by_seq es ≡ es
unfolding sort_by_seq
sort_by_seq-sorted [] h = refl
sort_by_seq-sorted (e ∷ es) h =
    ap (insert_by_seq e) (sort_by_seq-sorted es h.1) ∙ insert_by_seq-first e es h.0

none_seen : (es : List NormalizedEvent) → All (λ x. seen x.seq [] ≡ false) es
unfolding seen
none_seen [] = tt
none_seen (e ∷ es) = (refl, none_seen es)

-- the match as it is read: its events in the order of their seqs
abbrev pub in_order : NormalizedMatch → NormalizedMatch
in_order m = record m { events = sort_by_seq m.events }

-- If no two events of a match have the same seq, read_fixture reads back from what
-- write_fixture wrote the match, with its events in the order of their seqs, and the
-- entities and the standings as they were.
pub read_fixture-write_fixture :
    (m : NormalizedMatch) (entities standings : List Value)
    → HasUniqueSeqs m.events
    → read_fixture (write_fixture m entities standings)
      ≡ some (record { match = in_order m; entities = entities; standings = standings })
unfolding read_fixture write_fixture match_header fields_of or_empty_list
read_fixture-write_fixture m entities standings u =
    let sorted = sort_by_seq m.events in
    let events =
      read_events-event_value [] sorted (sort_by_seq_unique m.events u) (none_seen sorted) in
    rw
      (
        parse_status-status_value m.status,
        list_of-items_of (map event_value sorted),
        events,
        list_of-items_of entities,
        list_of-items_of standings,
        sort_by_seq-sorted sorted (sort_by_seq-IsSorted m.events),
        as_int-opt_int m.minute,
        as_int-opt_int m.score_home,
        as_int-opt_int m.score_away,
        as_str-opt_str m.display_clock,
        as_str-opt_str m.home_team,
        as_str-opt_str m.away_team,
        as_str-opt_str m.kickoff_utc,
        entries-fields_of m.payload,
      )
      refl
