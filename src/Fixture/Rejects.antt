-- ===== src/Fixture/Rejects.antt =====
-- What read_fixture of gamecollect/fixture_io.py lets through.
use gamealerts_collector.Prelude.{
  ℕ, ◌≡◌, ◌≢◌, refl, ap, subst, Bool, true, false, List, [], ◌∷◌, Option, none, some, arith, All,
  nat_eq, if◌then◌else◌,
}
use gamealerts_collector.Dict.{get}
use gamealerts_collector.Json.{Value, null, bool, int, float, str, array, object}
use gamealerts_collector.Provider.{NormalizedEvent}
use gamealerts_collector.Diffing.{sort_by_seq}
use gamealerts_collector.Diffing.Order.{IsSorted, sort_by_seq-IsSorted}
use gamealerts_collector.Diffing.Exact.{HasUniqueSeqs}
use gamealerts_collector.Writer.Rows.{get_value}
use gamealerts_collector.Engine.Rows.{as_str}
use gamealerts_collector.Engine.Reconcile.{seen}
use gamealerts_collector.Fixture.{
  Fixture, ◌>>=◌, as_dict, as_list, guard, is_version, parse_status, new_seq, read_event_json,
  read_events, or_empty_list, read_fixture,
}
use gamealerts_collector.Fixture.RoundTrip.{sort_by_seq_unique}

-- A chain that gives a value has one from its first step.
bind-some :
    {A B : Type 0} (m : Option A) (f : A → Option B) (b : B)
    → (m >>= f) ≡ some b
    → (a : A) × (m ≡ some a) × (f a ≡ some b)
bind-some none f b h = cc
bind-some (some a) f b h = (a, refl, h)

new_seq-new :
    (seqs : List ℕ) (o : Option Value) (n : ℕ) → new_seq seqs o ≡ some n → seen n seqs ≡ false
new_seq-new seqs none n h = cc
new_seq-new seqs (some null) n h = cc
new_seq-new seqs (some (bool b)) n h = cc
new_seq-new seqs (some (float s)) n h = cc
new_seq-new seqs (some (str s)) n h = cc
new_seq-new seqs (some (array xs)) n h = cc
new_seq-new seqs (some (object fs)) n h = cc
new_seq-new seqs (some (int k)) n h = by_test (seen k seqs) refl h
  where
    by_test :
        (b : Bool)
        → seen k seqs ≡ b
        → ◌≡◌ {A = Option ℕ} (if b then none else some k) (some n)
        → seen n seqs ≡ false
    by_test true e p = cc
    by_test false e p = let same : k ≡ n = cc in subst (λ x. seen x seqs ≡ false) same e

-- The seq of an event that is read is not among those before.
read_event_json-new :
    (seqs : List ℕ) (v : Value) (e : NormalizedEvent)
    → read_event_json seqs v ≡ some e
    → seen e.seq seqs ≡ false
unfolding read_event_json
read_event_json-new seqs v e h =
    let (event, _, h1) = bind-some (as_dict v) _ e h in
    let (seq, k, h2) = bind-some (new_seq seqs (get "seq" event)) _ e h1 in
    let (event_type, _, h3) = bind-some (get "event_type" event) _ e h2 in
    let (importance, _, h4) = bind-some (get "importance" event) _ e h3 in
    let same : seq ≡ e.seq = cc in
    subst (λ x. seen x seqs ≡ false) same (new_seq-new seqs (get "seq" event) seq k)

apart :
    (seq : ℕ) (seqs : List ℕ) (es : List NormalizedEvent)
    → All (λ x. seen x.seq (seq ∷ seqs) ≡ false) es
    → All (λ x. x.seq ≢ seq) es × All (λ x. seen x.seq seqs ≡ false) es
unfolding seen
apart seq seqs [] h = (tt, tt)
apart seq seqs (e ∷ es) h =
    let first = h.0 in
    let (a, b) = apart seq seqs es h.1 in ((ground (arith, first), a), (ground (arith, first), b))

read_events_unique :
    (seqs : List ℕ) (vs : List Value) (es : List NormalizedEvent)
    → read_events seqs vs ≡ some es
    → HasUniqueSeqs es × All (λ x. seen x.seq seqs ≡ false) es
unfolding read_events
read_events_unique seqs [] es h =
    let same : [] ≡ es = cc in
    subst (λ xs. HasUniqueSeqs xs × All (λ x. seen x.seq seqs ≡ false) xs) same (tt, tt)
read_events_unique seqs (v ∷ vs) es h =
    let (e, k, h1) = bind-some (read_event_json seqs v) _ es h in
    let (rest, l, h2) = bind-some (read_events (e.seq ∷ seqs) vs) _ es h1 in
    let same : e ∷ rest ≡ es = cc in
    let (u, a) = read_events_unique (e.seq ∷ seqs) vs rest l in
    let (other, b) = apart e.seq seqs rest a in
    subst (λ xs. HasUniqueSeqs xs × All (λ x. seen x.seq seqs ≡ false) xs) same
      ((other, u), (read_event_json-new seqs v e k, b))

events_read : Option Fixture → List NormalizedEvent
events_read none = []
events_read (some f) = f.match.events

-- The events of every fixture that read_fixture accepts are in the order of their seqs, and
-- no two of them have the same seq.
pub read_fixture_unique :
    (v : Value) (f : Fixture)
    → read_fixture v ≡ some f
    → IsSorted f.match.events × HasUniqueSeqs f.match.events
unfolding read_fixture events_read
read_fixture_unique v f h =
    let (root, _, h1) = bind-some (as_dict v) _ f h in
    let (version, _, h2) = bind-some (get "format_version" root) _ f h1 in
    let (_, _, h3) = bind-some (guard (is_version version)) _ f h2 in
    let (header, _, h4) = bind-some (get "match" root >>= as_dict) _ f h3 in
    let (status, _, h5) = bind-some (parse_status (as_str (get_value "status" header))) _ f h4 in
    let (values, _, h6) = bind-some (as_list (get "events" root)) _ f h5 in
    let (events, k, h7) = bind-some (read_events [] values) _ f h6 in
    let (match_id, _, h8) = bind-some (get "match_id" header) _ f h7 in
    let (_, _, h9) = bind-some (or_empty_list (get_value "entities" root)) _ f h8 in
    let (_, _, h10) = bind-some (or_empty_list (get_value "standings" root)) _ f h9 in
    let same : sort_by_seq events ≡ f.match.events = ap events_read h10 in
    subst (λ xs. IsSorted xs × HasUniqueSeqs xs) same
      (
        sort_by_seq-IsSorted events,
        sort_by_seq_unique events (read_events_unique [] values events k).0,
      )
