-- ===== src/Writer/Action.antt =====
-- A method of PartitionWriter: it may raise, and what it has written before that stays written
-- unless a transaction rolls it back.
pub mod Keeps
pub mod Returns
pub mod Preserves
pub mod Atomic
use gamealerts_collector.Prelude.{Bool, if◌then◌else◌}
use gamealerts_collector.Writer.Table.{Db}

pub data Error : Type 0 where
  value_error type_error interface_error : Error
  cross_partition_error unseeded_match_error taxonomy_error sequence_error : Error

pub data Result (A : Type 0) : Type 0 where
  ok : A → Result A
  err : Error → Result A

abbrev pub Action : Type 0 → Type 0
Action A = Db → Result A × Db

unfoldable pub pure : {A : Type 0} → A → Action A
pure a db = (ok a, db)

unfoldable pub lift : {A : Type 0} → Result A → Action A
lift r db = (r, db)

unfoldable pub gets : {A : Type 0} → (Db → A) → Action A
gets f db = (ok (f db), db)

unfoldable pub modify : (Db → Db) → Action (Unit {0})
modify f db = (ok tt, f db)

abbrev pub continue : {A B : Type 0} → Result A → (A → Action B) → Action B
continue (ok a) f db = f a db
continue (err e) f db = (err e, db)

infixl 5 ◌>>=◌ ◌>>◌
-- opening this opens `pure`, `lift`, `gets` and `modify` too
unfoldable pub ◌>>=◌ : {A B : Type 0} → Action A → (A → Action B) → Action B
unfolding pure lift gets modify
◌>>=◌ m f db = let (r, db') = m db in continue r f db'

abbrev pub ◌>>◌ : {A B : Type 0} → Action A → Action B → Action B
m >> k = m >>= λ _. k

-- `raise e` under a test
abbrev pub raise_if : Bool → Error → Result (Unit {0})
raise_if c e = if c then err e else ok tt

-- the state after the block: the last one, or the one at its start
abbrev pub settle : {A : Type 0} → Result A → Db → Db → Db
settle (ok a) start last = last
settle (err e) start last = start

-- _Transaction: commit on success, roll back to the state at the start on an error.
unfoldable pub transaction : {A : Type 0} → Action A → Action A
transaction m db = let (r, db') = m db in (r, settle r db db')
