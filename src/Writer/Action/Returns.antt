-- ===== src/Writer/Action/Returns.antt =====
-- What follows from the result of an action for its parts.
use gamealerts_collector.Prelude.{◌≡◌, refl, ap}
use gamealerts_collector.Writer.Table.{Db}
use gamealerts_collector.Writer.Action.{
  Result, ok, err, Action, lift, ◌>>=◌, continue, settle, transaction,
}

-- `m` starts at `db`, returns `a` and ends at `db'`.
abbrev pub Returns : {A : Type 0} → Action A → Db → A → Db → Type 0
Returns {A} m db a db' = ◌≡◌ {A = Result A × Db} (m db) (ok a, db')

pub ok_pair :
    {A : Type 0} {a b : A} {d d' : Db}
    → ◌≡◌ {A = Result A × Db} (ok a, d) (ok b, d')
    → (a ≡ b) × (d ≡ d')
ok_pair h = (cc, cc)

continue_ok :
    {A B : Type 0} (r : Result A) (f : A → Action B) (d : Db) (b : B) (db' : Db)
    → ◌≡◌ {A = Result B × Db} (continue r f d) (ok b, db')
    → (a : A) × (r ≡ ok a) × Returns (f a) d b db'
continue_ok (ok a) f d b db' h = (a, refl, h)
continue_ok (err e) f d b db' h = cc

pair_eta : {A : Type 0} (p : Result A × Db) (r : Result A) → p.0 ≡ r → p ≡ (r, p.1)
pair_eta p r h = cc

pub Returns-bind :
    {A B : Type 0} (m : Action A) (f : A → Action B) (db : Db) (b : B) (db' : Db)
    → Returns (m >>= f) db b db'
    → (a : A) × (d : Db) × Returns m db a d × Returns (f a) d b db'
unfolding ◌>>=◌
Returns-bind m f db b db' h =
    let (a, e, k) = continue_ok (m db).0 f (m db).1 b db' h in
    (a, (m db).1, pair_eta (m db) (ok a) e, k)

pub Returns-bind_lift :
    {A B : Type 0} (r : Result A) (f : A → Action B) (db : Db) (b : B) (db' : Db)
    → Returns (lift r >>= f) db b db'
    → (a : A) × (r ≡ ok a) × Returns (f a) db b db'
unfolding ◌>>=◌
Returns-bind_lift r f db b db' h = continue_ok r f db b db' h

settled :
    {A : Type 0} (r : Result A) (start last : Db) (a : A) (db' : Db)
    → ◌≡◌ {A = Result A × Db} (r, settle r start last) (ok a, db')
    → ◌≡◌ {A = Result A × Db} (r, last) (ok a, db')
settled (ok x) start last a db' h = h
settled (err e) start last a db' h = cc

pub Returns-transaction :
    {A : Type 0} (m : Action A) (db : Db) (a : A) (db' : Db)
    → Returns (transaction m) db a db'
    → Returns m db a db'
unfolding transaction
Returns-transaction m db a db' h = settled (m db).0 db (m db).1 a db' h

-- Forward: a bind goes on from what its first part returns.
pub bind-of_Returns :
    {A B : Type 0} (m : Action A) (f : A → Action B) (db : Db) (a : A) (d : Db)
    → Returns m db a d
    → ◌≡◌ {A = Result B × Db} ((m >>= f) db) (f a d)
unfolding ◌>>=◌
bind-of_Returns {A} m f db a d h = ap (λ (p : Result A × Db). continue p.0 f p.1) h
