-- ===== src/Engine/Poll/Once/Backoff.antt =====
-- The delays of _poll_and_next_delay of gamecollect/engine.py over a run of polls.
use gamealerts_collector.Prelude.{
  ℕ, suc, ◌+◌, ◌*◌, min, String, ◌≡◌, refl, ◌∙◌, ap, List, [], ◌∷◌, arith, length, All,
}
use gamealerts_collector.Writer.Action.{ok}
use gamealerts_collector.Engine.Tracking.{power_of_two}
use gamealerts_collector.Engine.Poll.State.{Fetched}
use gamealerts_collector.Engine.Poll.Once.{
  Config, Engine, Slate, slate, slate_unavailable, slate_shape_drift, backoff, poll_and_next_delay,
}

-- The provider fails to answer.
abbrev pub IsOutage : Slate → Type 0
IsOutage (slate ms) = ⊥
IsOutage slate_unavailable = Unit
IsOutage slate_shape_drift = Unit

-- A run of polls, with an answer of the provider for each.
unfoldable pub run_polls : Config → (String → Fetched) → List Slate → Engine → Engine
run_polls config fetch [] e = e
run_polls config fetch (s ∷ ss) e =
    run_polls config fetch ss (poll_and_next_delay config fetch s e).1

outage_doubles :
    (config : Config) (fetch : String → Fetched) (s : Slate) (e : Engine)
    → IsOutage s
    → ((poll_and_next_delay config fetch s e).0 ≡ ok (backoff e.backoff_multiplier))
      × ((poll_and_next_delay config fetch s e).1.backoff_multiplier
          ≡ min (e.backoff_multiplier * 2) 8)
unfolding poll_and_next_delay
outage_doubles config fetch (slate ms) e h = absurd h
outage_doubles config fetch slate_unavailable e h = (refl, refl)
outage_doubles config fetch slate_shape_drift e h = (refl, refl)

after_outages :
    (config : Config) (fetch : String → Fetched) (ss : List Slate) (e : Engine) (k : ℕ)
    → All IsOutage ss
    → e.backoff_multiplier ≡ min (power_of_two k) 8
    → (run_polls config fetch ss e).backoff_multiplier ≡ min (power_of_two (k + length ss)) 8
unfolding run_polls
after_outages config fetch [] e k h m = let same : k + 0 ≡ k = omega arith in rw same m
after_outages config fetch (s ∷ ss) e k (o, h) m =
    let e' = (poll_and_next_delay config fetch s e).1 in
    let next = (outage_doubles config fetch s e o).1 in
    let twice : power_of_two (suc k) ≡ 2 * power_of_two k = unfold power_of_two in refl in
    let moved : suc k + length ss ≡ k + suc (length ss) = omega arith in
    after_outages config fetch ss e' (suc k) h (omega (arith, next, m, twice))
    ∙ ap (λ n. min (power_of_two n) 8) moved

-- If the multiplier is 1 before a run of polls in which the provider fails, the delay after
-- one more failing poll is the poll interval times 2 to the power of the run's length, and
-- 8 at most.
pub poll_and_next_delay-outage :
    (config : Config) (fetch : String → Fetched) (ss : List Slate) (s : Slate) (e : Engine)
    → All IsOutage ss
    → IsOutage s
    → e.backoff_multiplier ≡ 1
    → (poll_and_next_delay config fetch s (run_polls config fetch ss e)).0
      ≡ ok (backoff (min (power_of_two (length ss)) 8))
poll_and_next_delay-outage config fetch ss s e h o m =
    let one : power_of_two 0 ≡ 1 = unfold power_of_two in refl in
    (outage_doubles config fetch s (run_polls config fetch ss e) o).0
    ∙ ap (λ n. ok (backoff n))
        (after_outages config fetch ss e 0 h (omega (arith, m, one))
          ∙ ap (λ n. min (power_of_two n) 8) none_before)
  where
    none_before : 0 + length ss ≡ length ss
    none_before = omega arith
