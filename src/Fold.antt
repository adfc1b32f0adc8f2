-- ===== src/Fold.antt =====
-- gamecollect/fold.py: the accent-insensitive key of a display name. The tables of the Unicode
-- database, the case folding and the trimming of Python's str are a parameter.
use Prim.Native.Char.{Char}
use gamealerts_collector.Prelude.{String, Bool, not, List, filter}

pub record Unicode : Type 0 where
  pub nfkd : String → List Char
  pub combining : Char → Bool
  pub casefold : List Char → String
  pub strip : String → String

unfoldable pub fold : Unicode → String → String
fold u name = u.strip (u.casefold (filter (λ ch. not (u.combining ch)) (u.nfkd name)))
