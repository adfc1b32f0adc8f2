-- ===== src/Writer/Action/Keeps.antt =====
-- What an action leaves alone, one rule for each way to build an action.
use gamealerts_collector.Prelude.{◌≡◌, refl, ◌∙◌, Bool, true, false, if◌then◌else◌}
use gamealerts_collector.Writer.Table.{Db}
use gamealerts_collector.Writer.Action.{
  Result, ok, err, Action, pure, lift, gets, ◌>>=◌, continue, settle, transaction,
}

-- `view` is the same after `m`, whether it returns or raises.
pub record Keeps {A X : Type 0} (view : Db → X) (m : Action A) : Type 0 where
  pub at : (db : Db) → view (m db).1 ≡ view db

view-settle :
    {A X : Type 0} (view : Db → X) (r : Result A) (start last : Db)
    → view last ≡ view start
    → view (settle r start last) ≡ view start
view-settle view (ok a) start last h = h
view-settle view (err e) start last h = refl

module _ {A X : Type 0} {view : Db → X} where
  pub Keeps-pure : (a : A) → Keeps view (pure a)
  unfolding pure
  Keeps-pure a = record { at = λ db. refl }

  pub Keeps-lift : (r : Result A) → Keeps view (lift r)
  unfolding lift
  Keeps-lift r = record { at = λ db. refl }

  pub Keeps-gets : (f : Db → A) → Keeps view (gets f)
  unfolding gets
  Keeps-gets f = record { at = λ db. refl }

  pub Keeps-transaction : (m : Action A) → Keeps view m → Keeps view (transaction m)
  unfolding transaction
  Keeps-transaction m k = record { at = λ db. view-settle view (m db).0 db (m db).1 (k.at db) }

  pub Keeps-if :
      (b : Bool) (m n : Action A) → Keeps view m → Keeps view n → Keeps view (if b then m else n)
  Keeps-if true m n km kn = km
  Keeps-if false m n km kn = kn

module _ {A B X : Type 0} {view : Db → X} where
  then-Keeps :
      (r : Result A) (f : A → Action B) (db db' : Db)
      → ((a : A) → Keeps view (f a))
      → view db' ≡ view db
      → view (continue r f db').1 ≡ view db
  then-Keeps (ok a) f db db' kf h = (kf a).at db' ∙ h
  then-Keeps (err e) f db db' kf h = h

  pub Keeps-bind :
      (m : Action A) (f : A → Action B)
      → Keeps view m
      → ((a : A) → Keeps view (f a))
      → Keeps view (m >>= f)
  unfolding ◌>>=◌
  Keeps-bind m f km kf = record { at = λ db. then-Keeps (m db).0 f db (m db).1 kf (km.at db) }

pub ruleset keeps_rules =
    (Keeps-pure, Keeps-lift, Keeps-gets, Keeps-transaction, Keeps-if, Keeps-bind)
