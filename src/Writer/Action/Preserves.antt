-- ===== src/Writer/Action/Preserves.antt =====
-- Invariants of actions, one rule for each way to build an action.
use gamealerts_collector.Writer.Table.{Db}
use gamealerts_collector.Writer.Action.{
  Result, ok, err, Action, pure, lift, gets, ◌>>=◌, continue, settle, transaction,
}

-- `m` keeps `P`, whether it returns or raises.
pub record Preserves {A : Type 0} (P : Db → Type 0) (m : Action A) : Type 0 where
  pub at : (db : Db) → P db → P (m db).1

settle_preserves :
    {A : Type 0} (P : Db → Type 0) (r : Result A) (start last : Db)
    → P start
    → P last
    → P (settle r start last)
settle_preserves P (ok a) start last p q = q
settle_preserves P (err e) start last p q = p

module _ {A : Type 0} {P : Db → Type 0} where
  pub Preserves-pure : (a : A) → Preserves P (pure a)
  unfolding pure
  Preserves-pure a = record { at = λ db h. h }

  pub Preserves-lift : (r : Result A) → Preserves P (lift r)
  unfolding lift
  Preserves-lift r = record { at = λ db h. h }

  pub Preserves-gets : (f : Db → A) → Preserves P (gets f)
  unfolding gets
  Preserves-gets f = record { at = λ db h. h }

  pub Preserves-transaction : (m : Action A) → Preserves P m → Preserves P (transaction m)
  unfolding transaction
  Preserves-transaction m k = record {
    at = λ db h. settle_preserves P (m db).0 db (m db).1 h (k.at db h);
  }

module _ {A B : Type 0} {P : Db → Type 0} where
  continue_preserves :
      (r : Result A) (f : A → Action B) (db : Db)
      → ((a : A) → Preserves P (f a))
      → P db
      → P (continue r f db).1
  continue_preserves (ok a) f db k h = (k a).at db h
  continue_preserves (err e) f db k h = h

  pub Preserves-bind :
      (m : Action A) (f : A → Action B)
      → Preserves P m
      → ((a : A) → Preserves P (f a))
      → Preserves P (m >>= f)
  unfolding ◌>>=◌
  Preserves-bind m f km kf = record {
    at = λ db h. continue_preserves (m db).0 f (m db).1 kf (km.at db h);
  }

pub ruleset preserves_rules =
    (Preserves-pure, Preserves-lift, Preserves-gets, Preserves-transaction, Preserves-bind)
