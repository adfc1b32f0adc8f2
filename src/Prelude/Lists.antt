-- ===== src/Prelude/Lists.antt =====
-- Lists measured by native numbers, under the library's names.
use Prim.Native.Nat.{ℕ, suc, ◌+◌}
use mathlib.Core.Path.{◌≡◌, refl, sym, subst, ap, ◌∙◌}
use mathlib.Core.Logic.{◌⊎◌, inl, inr, ◌↔◌}
use mathlib.Core.Bool.{Bool, true, false, false≢true}
use mathlib.Core.List.{List, [], ◌∷◌, ◌++◌}
use native.Mathlib.Omega.{arith}

module _ {ℓ} {A : Type ℓ} where
  abbrev pub length : List A → ℕ
  length [] = 0
  length (x ∷ xs) = suc (length xs)

  -- `bool(xs)`
  abbrev pub non_empty : List A → Bool
  non_empty [] = false
  non_empty (x ∷ xs) = true

  pub length-append : (xs ys : List A) → length (xs ++ ys) ≡ length xs + length ys
  length-append [] ys = omega arith
  length-append (x ∷ xs) ys = omega (arith, length-append xs ys)

-- Every element satisfies `P`.
abbrev pub All {ℓ κ} : {A : Type ℓ} → (A → Type κ) → List A → Type κ
All P [] = Unit
All P (x ∷ xs) = P x × All P xs

-- `x` is one of the elements.
abbrev pub Member : {A : Type 0} → A → List A → Type 0
Member x [] = ⊥
Member x (y ∷ ys) = (x ≡ y) ⊎ Member x ys

pub All-Member {κ} :
    {A : Type 0} (P : A → Type κ) (x : A) (xs : List A) → All P xs → Member x xs → P x
All-Member P x [] h m = elim m [ ]
All-Member P x (y ∷ ys) h (inl e) = subst P (sym e) h.0
All-Member P x (y ∷ ys) h (inr m) = All-Member P x ys h.1 m

pub All-of_Member {κ} :
    {A : Type 0} (P : A → Type κ) (xs : List A) → ((x : A) → Member x xs → P x) → All P xs
All-of_Member P [] h = tt
All-of_Member P (x ∷ xs) h = (h x (inl refl), All-of_Member P xs (λ y m. h y (inr m)))

-- The elements that pass a test, in order: `[x for x in xs if p(x)]`.
abbrev pub filter {ℓ} : {A : Type ℓ} → (A → Bool) → List A → List A
filter p [] = []
filter p (x ∷ xs) = let rest = filter p xs in elim (p x) [ true ↦ x ∷ rest | false ↦ rest ]

keep_step :
    {A : Type 0} (x y : A) (b : Bool) (px : Bool) (ys zs : List A)
    → (x ≡ y → b ≡ px)
    → (Member x zs ↔ (Member x ys × (px ≡ true)))
    → Member x (elim b [ true ↦ y ∷ zs | false ↦ zs ]) ↔ (Member x (y ∷ ys) × (px ≡ true))
keep_step x y true px ys zs e ih = (
  λ m. elim m [ inl p ↦ (inl p, sym (e p)) | inr n ↦ (inr (ih.0 n).0, (ih.0 n).1) ],
  λ (m, h). elim m [ inl p ↦ inl p | inr n ↦ inr (ih.1 (n, h)) ],
)
keep_step x y false px ys zs e ih = (
  λ m. (inr (ih.0 m).0, (ih.0 m).1),
  λ (m, h). elim m [ inl p ↦ absurd (false≢true (e p ∙ h)) | inr n ↦ ih.1 (n, h) ],
)

pub Member-filter :
    {A : Type 0} (p : A → Bool) (x : A) (xs : List A)
    → Member x (filter p xs) ↔ (Member x xs × (p x ≡ true))
Member-filter p x [] = ((λ m. absurd m), (λ m. absurd m.0))
Member-filter p x (y ∷ ys) =
    keep_step x y (p y) (p x) ys (filter p ys) (λ e. ap p (sym e)) (Member-filter p x ys)

pub All-map :
    {A : Type 0} (P Q : A → Type 0) (xs : List A) → ((x : A) → P x → Q x) → All P xs → All Q xs
All-map P Q [] f h = tt
All-map P Q (x ∷ xs) f h = (f x h.0, All-map P Q xs f h.1)

pub All-append :
    {A : Type 0} (P : A → Type 0) (xs ys : List A) → All P xs → All P ys → All P (xs ++ ys)
All-append P [] ys h k = k
All-append P (x ∷ xs) ys h k = (h.0, All-append P xs ys h.1 k)

pub Member-append :
    {A : Type 0} (x : A) (xs ys : List A)
    → ((Member x (xs ++ ys) → Member x xs ⊎ Member x ys))
      × ((Member x xs → Member x (xs ++ ys)) × (Member x ys → Member x (xs ++ ys)))
Member-append x [] ys = ground arith
Member-append x (y ∷ xs) ys = ground (arith, Member-append x xs ys)
