-- ===== src/Writer/Action/Atomic.antt =====
-- What an action that raises leaves of the database, one rule for each way to build an action.
use gamealerts_collector.Prelude.{◌≡◌, refl, ◌∙◌}
use gamealerts_collector.Writer.Table.{Db}
use gamealerts_collector.Writer.Action.{
  Error, Result, ok, err, Action, pure, lift, gets, ◌>>=◌, continue, settle, transaction,
}

pub record IsAtomic {A : Type 0} (m : Action A) : Type 0 where
  pub at : (db : Db) (e : Error) → (m db).0 ≡ err e → (m db).1 ≡ db

-- An action that only reads.
pub record IsReading {A : Type 0} (m : Action A) : Type 0 where
  pub at : (db : Db) → (m db).1 ≡ db

settle_err :
    {A : Type 0} (r : Result A) (start last : Db) (e : Error)
    → r ≡ err e
    → settle r start last ≡ start
settle_err (ok a) start last e h = cc
settle_err (err x) start last e h = refl

module _ {A : Type 0} where
  pub IsReading-lift : (r : Result A) → IsReading (lift r)
  unfolding lift
  IsReading-lift r = record { at = λ db. refl }

  pub IsReading-gets : (f : Db → A) → IsReading (gets f)
  unfolding gets
  IsReading-gets f = record { at = λ db. refl }

  pub IsAtomic-pure : (a : A) → IsAtomic (pure a)
  unfolding pure
  IsAtomic-pure a = record { at = λ db e h. refl }

  pub IsAtomic-transaction : (m : Action A) → IsAtomic (transaction m)
  unfolding transaction
  IsAtomic-transaction m = record { at = λ db e h. settle_err (m db).0 db (m db).1 e h }

module _ {A B : Type 0} where
  continue_atomic :
      (r : Result A) (f : A → Action B) (start last : Db) (e : Error)
      → last ≡ start
      → ((a : A) → IsAtomic (f a))
      → (continue r f last).0 ≡ err e
      → (continue r f last).1 ≡ start
  continue_atomic (ok a) f start last e same k h = (k a).at last e h ∙ same
  continue_atomic (err x) f start last e same k h = same

  -- A reading, and then an atomic action.
  pub IsAtomic-bind :
      (m : Action A) (f : A → Action B)
      → IsReading m
      → ((a : A) → IsAtomic (f a))
      → IsAtomic (m >>= f)
  unfolding ◌>>=◌
  IsAtomic-bind m f km kf = record {
    at = λ db e h. continue_atomic (m db).0 f db (m db).1 e (km.at db) kf h;
  }

  continue-pure :
      (r : Result A) (g : A → B) (start last : Db) (e : Error)
      → ((x : Error) → r ≡ err x → last ≡ start)
      → (continue r (λ a. pure (g a)) last).0 ≡ err e
      → (continue r (λ a. pure (g a)) last).1 ≡ start
  unfolding pure
  continue-pure (ok a) g start last e k h = cc
  continue-pure (err x) g start last e k h = k x refl

  -- An atomic action whose result is only read.
  pub IsAtomic-bind_pure :
      (m : Action A) (g : A → B) → IsAtomic m → IsAtomic (m >>= λ a. pure (g a))
  unfolding ◌>>=◌
  IsAtomic-bind_pure m g km = record {
    at = λ db e h. continue-pure (m db).0 g db (m db).1 e (λ x p. km.at db x p) h;
  }

pub ruleset atomic_rules =
    (IsReading-lift, IsReading-gets, IsAtomic-pure, IsAtomic-transaction, IsAtomic-bind)
