-- ===== src/Engine/GiveUp/Monotone.antt =====
-- The scores and the status of the snapshot of _build_give_up_snapshot of gamecollect/engine.py.
use gamealerts_collector.Prelude.{
  ◌≡◌, refl, subst, ◌∙◌, Bool, true, false, ◌||◌, Option, none, some, arith,
}
use gamealerts_collector.Provider.{NormalizedMatch}
use gamealerts_collector.FallbackMerge.{is_terminal, non_regressing_score, or_else, accrue_fallback}
use gamealerts_collector.FallbackMerge.Accrual.{
  Covers, Covers-trans, AtLeast-refl, accrue_fallback-Covers,
}
use gamealerts_collector.Merge.{merge_over_base}
use gamealerts_collector.Engine.GiveUp.{
  nonregress_over_stored, over, merged_candidate, build_give_up_snapshot,
}

-- The status of a snapshot that may be missing is terminal.
abbrev pub is_final : Option NormalizedMatch → Bool
is_final none = false
is_final (some m) = is_terminal m.status

-- The status of the snapshot that _nonregress_over_stored returns is terminal exactly when
-- the close is forced, or the candidate's or the stored row's status is terminal.
pub nonregress_over_stored-terminal :
    (force : Bool) (snap : NormalizedMatch) (stored : Option NormalizedMatch)
    → is_terminal (nonregress_over_stored force snap stored).status
      ≡ (force || (is_terminal snap.status || is_final stored))
unfolding nonregress_over_stored
nonregress_over_stored-terminal force snap none = ground arith
nonregress_over_stored-terminal force snap (some stored) = ground arith

-- The scores of `m` cover those of a snapshot that may be missing.
abbrev pub CoversAll : NormalizedMatch → Option NormalizedMatch → Type 0
CoversAll m none = Unit
CoversAll m (some k) = Covers m k

nonregress-Covers :
    (force : Bool) (snap : NormalizedMatch) (stored : Option NormalizedMatch)
    → Covers (nonregress_over_stored force snap stored) snap
      × CoversAll (nonregress_over_stored force snap stored) stored
unfolding nonregress_over_stored non_regressing_score
nonregress-Covers force snap none = ground arith
nonregress-Covers force snap (some stored) = ground arith

Covers-refl : (m : NormalizedMatch) → Covers m m
Covers-refl m = (AtLeast-refl m.score_home, AtLeast-refl m.score_away)

over-Covers : (base : Option NormalizedMatch) (c : NormalizedMatch) → Covers (over base c) c
unfolding merge_over_base
over-Covers none c = Covers-refl c
over-Covers (some b) c = ground arith

CoversAll-trans :
    (a b : NormalizedMatch) (o : Option NormalizedMatch)
    → Covers a b
    → CoversAll b o
    → CoversAll a o
CoversAll-trans a b none p q = tt
CoversAll-trans a b (some c) p q = Covers-trans a b c p q

-- The candidate covers the fallback and the fresh snapshot.
merged_candidate-Covers :
    (f n b s : Option NormalizedMatch) (m : NormalizedMatch)
    → merged_candidate f n b s ≡ some m
    → CoversAll m f × CoversAll m n
unfolding merged_candidate
merged_candidate-Covers (some f) none b s m h =
    let same : over (or_else b s) f ≡ m = cc in
    (subst (λ x. Covers x f) same (over-Covers (or_else b s) f), tt)
merged_candidate-Covers none (some n) b s m h =
    let same : over (or_else b s) n ≡ m = cc in
    (tt, subst (λ x. Covers x n) same (over-Covers (or_else b s) n))
merged_candidate-Covers (some f) (some n) b s m h =
    let acc = accrue_fallback (some f) n in
    let base = or_else b (some f) in
    let same : over base acc ≡ m = cc in
    let covers = subst (λ x. Covers x acc) same (over-Covers base acc) in
    let both = accrue_fallback-Covers f n in
    (Covers-trans m acc f covers both.0, Covers-trans m acc n covers both.1)
merged_candidate-Covers none none b s m h = (tt, tt)

given_up :
    (force : Bool) (stored o : Option NormalizedMatch) (m : NormalizedMatch)
    → ◌≡◌ {A = Option NormalizedMatch}
        (elim o [ none ↦ none | some merged ↦ some (nonregress_over_stored force merged stored) ])
        (some m)
    → (c : NormalizedMatch) × (o ≡ some c) × (nonregress_over_stored force c stored ≡ m)
given_up force stored none m h = cc
given_up force stored (some c) m h = (c, refl, cc)

-- If _build_give_up_snapshot returns a snapshot, each of its scores is known wherever the
-- tracker's fallback, the fresh snapshot or the stored row knows it, and is below none of
-- them; and if the close is forced, its status is terminal.
pub build_give_up_snapshot-Covers :
    (force : Bool) (fallback fresh baseline stored : Option NormalizedMatch) (m : NormalizedMatch)
    → build_give_up_snapshot force fallback fresh baseline stored ≡ some m
    → CoversAll m fallback
      × CoversAll m fresh
      × CoversAll m stored
      × (force ≡ true → is_terminal m.status ≡ true)
build_give_up_snapshot-Covers force fallback fresh baseline stored m h =
    let (c, e, same) =
      given_up force stored (merged_candidate fallback fresh baseline stored) m
        (unfold build_give_up_snapshot in h) in
    let out = nonregress_over_stored force c stored in
    let known = merged_candidate-Covers fallback fresh baseline stored c e in
    let kept = nonregress-Covers force c stored in
    let covers = subst (λ x. Covers x c) same kept.0 in
    let final = nonregress_over_stored-terminal force c stored in
    (
      CoversAll-trans m c fallback covers known.0,
      CoversAll-trans m c fresh covers known.1,
      subst (λ x. CoversAll x stored) same kept.1,
      λ f. subst (λ x. is_terminal x.status ≡ true) same (final ∙ rw f refl),
    )
