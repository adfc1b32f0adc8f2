-- ===== src/Engine/Reconcile/Drift.antt =====
-- What _log_drift_once of gamecollect/engine.py remembers and how loud it is.
use gamealerts_collector.Prelude.{
  ℕ, String, ◌≡◌, ◌≢◌, ap, inl, inr, Bool-cases, refl, [], ◌∷◌, Option, none, some, arith, ◌==◌,
  ==_iff, nat_eq, string_eq, option_eq, if◌then◌else◌, ◌&&◌,
}
use gamealerts_collector.Dict.{get-insert}
use gamealerts_collector.Engine.Reconcile.{
  Signature, signature_eq, Signatures, signature_of, put_signature, Memory, signatures, Level,
  warning, error, level_of, log_drift_once,
}

-- The signature that was logged last for a seq of a match.
abbrev pub last_signature : String → ℕ → Memory → Option Signature
last_signature match_id seq memory = signature_of seq (signatures match_id memory)

signature_of-put_signature :
    (seq n : ℕ) (s : Signature) (known : Signatures)
    → signature_of n (put_signature seq s known)
      ≡ (if seq == n then some s else signature_of n known)
unfolding put_signature
signature_of-put_signature seq n s [] = refl
signature_of-put_signature seq n s ((k, t) ∷ rest) =
    ground (arith, ==_iff k seq, ==_iff k n, ==_iff seq n, signature_of-put_signature seq n s rest)

-- After _log_drift_once, the signature that was logged last is the given one at the given
-- seq of the given match, and at every other seq and match what it was before.
pub log_drift_once-last_signature :
    (m k : String) (seq n : ℕ) (s : Signature) (memory : Memory)
    → last_signature k n (log_drift_once m seq s memory)
      ≡ (if m == k && seq == n then some s else last_signature k n memory)
unfolding log_drift_once
log_drift_once-last_signature m k seq n s memory = ground (
  arith,
  ==_iff m k,
  get-insert m k (put_signature seq s (signatures m memory)) memory.logged,
  signature_of-put_signature seq n s (signatures m memory),
)

-- How loud the latest line of the log is.
abbrev pub latest_level : Memory → Option Level
latest_level memory = elim memory.reports [ [] ↦ none | r ∷ _ ↦ some r.level ]

level_of-eq :
    (known : Option Signature) (s : Signature)
    → ((known ≡ some s) → level_of known s ≡ warning)
      × ((known ≢ some s) → level_of known s ≡ error)
level_of-eq known s = (
  λ p. rw ((==_iff known (some s)).1 p),
  λ n. elim (Bool-cases (known == some s)) [
    | inl e ↦ absurd (n ((==_iff known (some s)).0 e))
    | inr e ↦ rw e
  ],
)

-- The line that _log_drift_once logs is a WARNING if the signature is the one that was
-- logged last for this seq of this match, and an ERROR if it is not.
pub log_drift_once-level :
    (m : String) (seq : ℕ) (s : Signature) (memory : Memory)
    → (last_signature m seq memory ≡ some s
        → latest_level (log_drift_once m seq s memory) ≡ some warning)
      × (last_signature m seq memory ≢ some s
          → latest_level (log_drift_once m seq s memory) ≡ some error)
unfolding log_drift_once
log_drift_once-level m seq s memory =
    let l = level_of-eq (last_signature m seq memory) s in
    (λ p. ap some (l.0 p), λ n. ap some (l.1 n))
