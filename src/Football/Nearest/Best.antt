-- ===== src/Football/Nearest/Best.antt =====
-- The candidate that _reconcile_by_kickoff of gamecollect_football/reconcile.py picks.
use gamealerts_collector.Prelude.{
  ℕ, ◌≤◌, ◌≡◌, refl, sym, subst, false≢true, ◌∙◌, ◌⊎◌, inl, inr, Bool-cases, true, false, List, [],
  ◌∷◌, Option, none, some, All, Member, ltb, arith,
}
use gamealerts_collector.Football.Nearest.{
  KickoffCandidate, Target, is_same_teams, delta, better, nearest, reconcile_by_kickoff,
}

-- how far the kickoff of a candidate is from the match's
abbrev pub distance : Target → KickoffCandidate → ℕ
distance t c = delta c.kickoff t.instant

-- The choice is no further than a candidate.
abbrev pub Beats : Target → Option KickoffCandidate → KickoffCandidate → Type 0
Beats t none d = ⊥
Beats t (some c) d = distance t c ≤ distance t d

-- The choice has the same teams and is among the candidates, or there is none.
abbrev pub IsAmong : Target → Option KickoffCandidate → List KickoffCandidate → Type 0
IsAmong t none cs = Unit {0}
IsAmong t (some c) cs = Member c cs × (is_same_teams t c ≡ true)

abbrev Round : Target → KickoffCandidate → Option KickoffCandidate → Type 0
Round t c best =
    ((is_same_teams t c ≡ false) × (better t c best ≡ best))
    ⊎ ((b : KickoffCandidate) × (better t c best ≡ some b)
        × (distance t b ≤ distance t c)
        × (((b ≡ c) × (is_same_teams t c ≡ true)) ⊎ (best ≡ some b))
        × ((x : KickoffCandidate) → best ≡ some x → distance t b ≤ distance t x))

better-Round : (t : Target) (c : KickoffCandidate) (best : Option KickoffCandidate) → Round t c best
unfolding better
better-Round t c best = elim (Bool-cases (is_same_teams t c)) [
  | inr e ↦ inl (e, rw e refl)
  | inl e ↦ inr (fits best e)
]
  where
    fits :
        (o : Option KickoffCandidate)
        → is_same_teams t c ≡ true
        → (b : KickoffCandidate) × (better t c o ≡ some b)
          × (distance t b ≤ distance t c)
          × (((b ≡ c) × (is_same_teams t c ≡ true)) ⊎ (o ≡ some b))
          × ((x : KickoffCandidate) → o ≡ some x → distance t b ≤ distance t x)
    fits none e = (c, rw e refl, omega arith, inl (refl, e), λ x n. cc)
    fits (some b) e = elim (Bool-cases (ltb (distance t c) (distance t b))) [
      | inl l ↦
          let closer : distance t c ≤ distance t b = ground arith in
          (
            c,
            rw (e, l) refl,
            omega arith,
            inl (refl, e),
            λ x n. let same : b ≡ x = cc in subst (λ y. distance t c ≤ distance t y) same closer,
          )
      | inr l ↦
          let kept : distance t b ≤ distance t c = ground arith in
          (
            b,
            rw (e, l) refl,
            kept,
            inr refl,
            λ x n.
                let same : b ≡ x = cc in
                subst (λ y. distance t b ≤ distance t y) same (omega arith),
          )
    ]

-- What is chosen is the choice so far, or a candidate.
abbrev Origin :
    Target → List KickoffCandidate → Option KickoffCandidate → Option KickoffCandidate → Type 0
Origin t cs best r =
    (r ≡ best) ⊎ ((c : KickoffCandidate) × (r ≡ some c) × Member c cs × (is_same_teams t c ≡ true))

abbrev Chosen :
    Target → List KickoffCandidate → Option KickoffCandidate → Option KickoffCandidate → Type 0
Chosen t cs best r =
    Origin t cs best r
    × All (λ d. is_same_teams t d ≡ true → Beats t r d) cs
    × ((b : KickoffCandidate) → best ≡ some b → Beats t r b)

Beats-trans :
    (t : Target) (r : Option KickoffCandidate) (c d : KickoffCandidate)
    → Beats t r c
    → distance t c ≤ distance t d
    → Beats t r d
Beats-trans t none c d h k = h
Beats-trans t (some b) c d h k = omega arith

nearest-Chosen :
    (t : Target) (cs : List KickoffCandidate) (best : Option KickoffCandidate)
    → Chosen t cs best (nearest t cs best)
unfolding nearest
nearest-Chosen t [] best = (inl refl, tt, λ b e. subst (λ o. Beats t o b) (sym e) (omega arith))
nearest-Chosen t (c ∷ cs) best =
    let r = nearest t cs (better t c best) in
    let (origin, beats, keeps) = nearest-Chosen t cs (better t c best) in
    elim (better-Round t c best) [
      | inl (other, same) ↦ (
        elim origin [ inl e ↦ inl (e ∙ same) | inr (x, e, m, k) ↦ inr (x, e, inr m, k) ],
        (λ s. absurd (false≢true (sym other ∙ s)), beats),
        λ b e. keeps b (same ∙ e),
      )
      | inr (b, chosen, close, from, closest) ↦ (
        elim origin [
          | inr (x, e, m, k) ↦ inr (x, e, inr m, k)
          | inl e ↦ elim from [
            | inl (same, k) ↦
                inr (b, e ∙ chosen, inl same, subst (λ x. is_same_teams t x ≡ true) (sym same) k)
            | inr before ↦ inl (e ∙ chosen ∙ sym before)
          ]
        ],
        (λ s. Beats-trans t r b c (keeps b chosen) close, beats),
        λ x e. Beats-trans t r b x (keeps b chosen) (closest x e),
      )
    ]

-- _reconcile_by_kickoff gives the id of a candidate whose set of team keys is the match's
-- and whose kickoff is no further from the match's than that of any other such candidate;
-- it gives None only if no candidate has these teams.
pub reconcile_by_kickoff-IsNearest :
    (t : Target) (cs : List KickoffCandidate)
    → (r : Option KickoffCandidate) × (reconcile_by_kickoff t cs
        ≡ (elim r [ none ↦ none | some c ↦ some c.match_id ]))
      × IsAmong t r cs
      × All (λ d. is_same_teams t d ≡ true → Beats t r d) cs
unfolding reconcile_by_kickoff
reconcile_by_kickoff-IsNearest t cs =
    let (origin, beats, _) = nearest-Chosen t cs none in
    (nearest t cs none, refl, among (nearest t cs none) origin, beats)
  where
    among : (r : Option KickoffCandidate) → Origin t cs none r → IsAmong t r cs
    among none o = tt
    among (some c) (inl e) = cc
    among (some c) (inr (x, e, m, k)) =
        let same : x ≡ c = cc in subst (λ y. Member y cs × (is_same_teams t y ≡ true)) same (m, k)
