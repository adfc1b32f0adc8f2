-- ===== src/FallbackMerge/Clock.antt =====
-- paired_clock of gamecollect/fallback_merge.py: where the accumulated clock comes from.
use gamealerts_collector.Prelude.{
  ◌≡◌, sym, ◌⊎◌, inl, inr, Bool, true, false, Option, none, some, arith, Eq, ==_iff, string_eq,
  nat_eq,
}
use gamealerts_collector.Provider.{NormalizedMatch}
use gamealerts_collector.FallbackMerge.{compatible, or_else, clock_eligible, paired_clock}

-- Two fields agree, or one of them is unknown.
abbrev pub Agrees {ℓ} : {A : Type ℓ} → Option A → Option A → Type ℓ
Agrees (some a) (some b) = a ≡ b
Agrees _ _ = Unit

-- `own` is what the winner has, and `borrowed` what the other side offers.
abbrev pub Borrows : NormalizedMatch → NormalizedMatch → Bool → Type 0
Borrows w o other_vetoed = (other_vetoed ≡ false) × (clock_eligible w o ≡ true)

compatible-Agrees {ℓ} :
    {A : Type ℓ} ⦃e : Eq A⦄ (a b : Option A) → compatible a b ≡ true → Agrees a b
compatible-Agrees none b h = tt
compatible-Agrees (some a) none h = tt
compatible-Agrees (some a) (some b) h = sym ((==_iff b a).0 h)

paired_clock_minute :
    (w o : NormalizedMatch) (v : Bool)
    → ((paired_clock w o v).0 ≡ w.minute)
      ⊎ ((w.minute ≡ none)
          × ((paired_clock w o v).0 ≡ o.minute)
          × Borrows w o v
          × (compatible w.display_clock o.display_clock ≡ true))
unfolding paired_clock
paired_clock_minute w o v = ground arith

paired_clock_display :
    (w o : NormalizedMatch) (v : Bool)
    → ((paired_clock w o v).1 ≡ w.display_clock)
      ⊎ ((w.display_clock ≡ none)
          × ((paired_clock w o v).1 ≡ o.display_clock)
          × Borrows w o v
          × (compatible w.minute o.minute ≡ true))
unfolding paired_clock
paired_clock_display w o v = ground arith

-- Where one clock field comes from: `mine` if the winner knows it or nothing may be borrowed, and
-- else `theirs`, whose other clock field does not contradict the winner's.
abbrev pub Source {ℓ κ} :
    {A : Type ℓ} {B : Type κ}
    → Option A
    → Option A
    → Option A
    → Option B
    → Option B
    → Type 0
    → Type (ℓ ⊔ κ)
Source result mine theirs mine' theirs' Allowed =
    (result ≡ mine) ⊎ ((mine ≡ none) × (result ≡ theirs) × Allowed × Agrees mine' theirs')

-- Each of the two clock fields that paired_clock returns is the winner's own, or else the
-- winner's is unknown and it is the other side's, which is then not vetoed, is eligible by
-- its status, and does not contradict the winner in the other clock field.
pub paired_clock-Source :
    (w o : NormalizedMatch) (v : Bool)
    → Source
        (paired_clock w o v).0
        w.minute
        o.minute
        w.display_clock
        o.display_clock
        (Borrows w o v)
      × Source
          (paired_clock w o v).1
          w.display_clock
          o.display_clock
          w.minute
          o.minute
          (Borrows w o v)
paired_clock-Source w o v = (
  elim (paired_clock_minute w o v) [
    | inl e ↦ inl e
    | inr (a, b, c, d) ↦ inr (a, b, c, compatible-Agrees w.display_clock o.display_clock d)
  ],
  elim (paired_clock_display w o v) [
    | inl e ↦ inl e
    | inr (a, b, c, d) ↦ inr (a, b, c, compatible-Agrees w.minute o.minute d)
  ],
)

-- If the other side is eligible, not vetoed, and contradicts the winner in neither clock
-- field, paired_clock fills each unknown clock field of the winner from it and keeps the
-- known ones.
pub paired_clock_fills :
    (w o : NormalizedMatch)
    → clock_eligible w o ≡ true
    → compatible w.display_clock o.display_clock ≡ true
    → compatible w.minute o.minute ≡ true
    → paired_clock w o false ≡ (or_else w.minute o.minute, or_else w.display_clock o.display_clock)
unfolding paired_clock
paired_clock_fills w o e c m = ground arith
