-- ===== src/Writer/Valid/Appends.antt =====
-- The invariant under append_events and map_provider_match of gamecollect/db/writer.py.
use gamealerts_collector.Prelude.{
  ℕ, String, ◌≡◌, refl, sym, subst, ◌∙◌, ap, inl, inr, Bool, true, List, [], ◌∷◌, some, All,
  All-map, All-append, ◌==◌, string_eq, Bool-cases, ◌&&◌,
}
use gamealerts_collector.Writer.Table.{EventRow, ProviderRow, Db, owner}
use gamealerts_collector.Writer.Action.{Result, ok, err, Action, pure, modify, transaction}
use gamealerts_collector.Writer.Action.Returns.{Returns, Returns-bind, ok_pair}
use gamealerts_collector.Writer.Action.Preserves.{Preserves}
use gamealerts_collector.Writer.Action.Atomic.{IsAtomic}
use gamealerts_collector.Writer.Rows.{PartitionWriter, Row}
use gamealerts_collector.Writer.Matches.{assert_match_owned, put_provider, map_provider_match}
use gamealerts_collector.Writer.Events.{append_events, max_seq}
use gamealerts_collector.Writer.Append.Run.{with_events}
use gamealerts_collector.Writer.Append.Rows.{IsOwn}
use gamealerts_collector.Writer.Batches.{
  append_events-Accepted, append_events-Extends, append_events-IsOrdered, owner-with_events,
  assert_match_owned-Returns,
}
use gamealerts_collector.Writer.Atomicity.{append_events-IsAtomic, map_provider_match-IsAtomic}
use gamealerts_collector.Writer.Valid.{IsValid, IsOwned, IsMapped}

accepted-IsValid :
    (w : PartitionWriter) (m : String) (rows : List Row) (n : ℕ) (db db' : Db)
    → Returns (append_events w m rows) db n db'
    → IsValid db
    → IsValid db'
accepted-IsValid w m [] n db db' h v =
    let same : db ≡ db' = unfold append_events pure in (ok_pair h).1 in subst IsValid same v
accepted-IsValid w m (row ∷ rows) n db db' h v =
    let (cs, acc) = append_events-Accepted w m row rows n db db' h in
    let ((new, grown, count, own), frame) = append_events-Extends w m (row ∷ rows) n db db' h in
    let keep = λ (j s : String) (q : owner db j ≡ some s). owner_after j s frame q in
    record {
      ordered = append_events-IsOrdered w m (row ∷ rows) n db db' h v.ordered;
      owned = subst (All (IsOwned db')) (sym grown) (
          All-append (IsOwned db') db.events new
            (All-map (IsOwned db) (IsOwned db') db.events (λ e q. keep e.match_id e.source q)
              v.owned)
            (All-map (IsOwn w m (max_seq db.events w.source m)) (IsOwned db') new
              (λ e q. owned_new e q (keep m w.source acc.2)) own));
      mapped = subst (All (IsMapped db')) (sym (ap (λ (x : Db). x.provider_match_map) frame)) (
          All-map (IsMapped db) (IsMapped db') db.provider_match_map
            (λ r q. keep r.match_id r.source q) v.mapped);
    }
  where
    owner_after :
        (j s : String)
        → db' ≡ with_events db db'.events
        → owner db j ≡ some s
        → owner db' j ≡ some s
    owner_after j s frame q =
        ap (λ (x : Db). owner x j) frame ∙ owner-with_events db j db'.events ∙ q

    owned_new :
        (e : EventRow)
        → IsOwn w m (max_seq db.events w.source m) e
        → owner db' m ≡ some w.source
        → IsOwned db' e
    owned_new e (source, match_id, above) q = ap (owner db') match_id ∙ q ∙ ap some (sym source)

-- An atomic action keeps what it keeps when it returns.
Preserves-of_Returns :
    {A : Type 0} {P : Db → Type 0} (m : Action A)
    → IsAtomic m
    → ((a : A) (db db' : Db) → Returns m db a db' → P db → P db')
    → Preserves P m
Preserves-of_Returns {A} {P} m atomic step = record { at = λ db v. by_result db v (m db).0 refl }
  where
    by_result : (db : Db) → P db → (r : Result A) → (m db).0 ≡ r → P (m db).1
    by_result db v (ok a) e = step a db (m db).1 (cc e) v
    by_result db v (err x) e = subst P (sym (atomic.at db x e)) v

pub append_events-IsValid :
    (w : PartitionWriter) (m : String) (rows : List Row)
    → Preserves IsValid (append_events w m rows)
append_events-IsValid w m rows =
    Preserves-of_Returns (append_events w m rows) (append_events-IsAtomic w m rows)
      (λ n db db' h v. accepted-IsValid w m rows n db db' h v)

All-put_provider :
    (P : ProviderRow → Type 0) (r : ProviderRow) (rows : List ProviderRow)
    → P r
    → All P rows
    → All P (put_provider r rows)
unfolding put_provider
All-put_provider P r [] p h = (p, tt)
All-put_provider P r (x ∷ xs) p h = elim (Bool-cases test) [
  | inl e ↦ rw e (p, h.1)
  | inr e ↦ rw e (h.0, All-put_provider P r xs p h.1)
]
  where
    test : Bool
    test =
        x.source == r.source
        && (x.provider == r.provider && x.provider_match_id == r.provider_match_id)

map_provider_match_run-IsValid :
    (w : PartitionWriter) (p id m : String) (a : Unit {0}) (db db' : Db)
    → Returns (map_provider_match w p id m) db a db'
    → IsValid db
    → IsValid db'
unfolding map_provider_match modify transaction
map_provider_match_run-IsValid w p id m a db db' h v =
    let (u, d, asserted, put) = Returns-bind (assert_match_owned w m true) _ db a db' h in
    let (owned, same) = assert_match_owned-Returns w m u db d asserted in
    let r : ProviderRow = record {
      source = w.source;
      provider = p;
      provider_match_id = id;
      match_id = m;
    } in
    let next : Db = record db { provider_match_map = put_provider r db.provider_match_map } in
    let end : next ≡ db' =
      ap (λ (x : Db). record x { provider_match_map = put_provider r x.provider_match_map }) same
      ∙ (ok_pair put).1 in
    subst IsValid end (record {
      ordered = v.ordered;
      owned = v.owned;
      mapped = All-put_provider (IsMapped db) r db.provider_match_map owned v.mapped;
    })

pub map_provider_match-IsValid :
    (w : PartitionWriter) (p id m : String) → Preserves IsValid (map_provider_match w p id m)
map_provider_match-IsValid w p id m =
    Preserves-of_Returns (map_provider_match w p id m) (map_provider_match-IsAtomic w p id m)
      (λ a db db' h v. map_provider_match_run-IsValid w p id m a db db' h v)
