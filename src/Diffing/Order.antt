-- ===== src/Diffing/Order.antt =====
-- The stable sort by seq of gamecollect/diffing.py.
use gamealerts_collector.Prelude.{
  ℕ, ◌≤◌, ◌↔◌, inl, inr, List, [], ◌∷◌, arith, leb, All, Member, Bool-cases, le_trans,
}
use gamealerts_collector.Provider.{NormalizedEvent}
use gamealerts_collector.Diffing.{insert_by_seq, sort_by_seq}

-- Every later event has a seq that is not lower.
abbrev pub IsSorted : List NormalizedEvent → Type 0
IsSorted [] = Unit
IsSorted (e ∷ es) = All (λ x. e.seq ≤ x.seq) es × IsSorted es

pub All-insert_by_seq :
    (P : NormalizedEvent → Type 0) (e : NormalizedEvent) (es : List NormalizedEvent)
    → P e
    → All P es
    → All P (insert_by_seq e es)
unfolding insert_by_seq
All-insert_by_seq P e [] p h = (p, tt)
All-insert_by_seq P e (x ∷ xs) p h = elim (Bool-cases (leb e.seq x.seq)) [
  | inl b ↦ rw b (p, h)
  | inr b ↦ rw b (h.0, All-insert_by_seq P e xs p h.1)
]

All-le_trans :
    (m n : ℕ) (es : List NormalizedEvent)
    → m ≤ n
    → All (λ x. n ≤ x.seq) es
    → All (λ x. m ≤ x.seq) es
All-le_trans m n [] p h = tt
All-le_trans m n (e ∷ es) p h = (le_trans p h.0, All-le_trans m n es p h.1)

insert_by_seq-IsSorted :
    (e : NormalizedEvent) (es : List NormalizedEvent) → IsSorted es → IsSorted (insert_by_seq e es)
unfolding insert_by_seq
insert_by_seq-IsSorted e [] h = (tt, tt)
insert_by_seq-IsSorted e (x ∷ xs) h = elim (Bool-cases (leb e.seq x.seq)) [
  | inl b ↦
      let le : e.seq ≤ x.seq = ground arith in rw b ((le, All-le_trans e.seq x.seq xs le h.0), h)
  | inr b ↦ rw b (
    All-insert_by_seq (λ y. x.seq ≤ y.seq) e xs (ground arith) h.0,
    insert_by_seq-IsSorted e xs h.1,
  )
]

pub sort_by_seq-IsSorted : (es : List NormalizedEvent) → IsSorted (sort_by_seq es)
unfolding sort_by_seq
sort_by_seq-IsSorted [] = tt
sort_by_seq-IsSorted (e ∷ es) = insert_by_seq-IsSorted e (sort_by_seq es) (sort_by_seq-IsSorted es)

Member-insert_by_seq :
    (x e : NormalizedEvent) (es : List NormalizedEvent)
    → Member x (insert_by_seq e es) ↔ Member x (e ∷ es)
unfolding insert_by_seq
Member-insert_by_seq x e [] = ((λ m. m), (λ m. m))
Member-insert_by_seq x e (y ∷ ys) = elim (Bool-cases (leb e.seq y.seq)) [
  | inl b ↦ rw b ((λ m. m), (λ m. m))
  | inr b ↦ rw b (swap_in (Member-insert_by_seq x e ys))
]
  where
    swap_in :
        Member x (insert_by_seq e ys) ↔ Member x (e ∷ ys)
        → Member x (y ∷ insert_by_seq e ys) ↔ Member x (e ∷ y ∷ ys)
    swap_in ih = (
      λ m. elim m [
        | inl p ↦ inr (inl p)
        | inr n ↦ elim (ih.0 n) [ inl p ↦ inl p | inr k ↦ inr (inr k) ]
      ],
      λ m. elim m [
        | inl p ↦ inr (ih.1 (inl p))
        | inr n ↦ elim n [ inl p ↦ inl p | inr k ↦ inr (ih.1 (inr k)) ]
      ],
    )

pub Member-sort_by_seq :
    (x : NormalizedEvent) (es : List NormalizedEvent) → Member x (sort_by_seq es) ↔ Member x es
unfolding sort_by_seq
Member-sort_by_seq x [] = ((λ m. m), (λ m. m))
Member-sort_by_seq x (e ∷ es) =
    let ih = Member-sort_by_seq x es in
    let step = Member-insert_by_seq x e (sort_by_seq es) in
    (
      λ m. elim (step.0 m) [ inl p ↦ inl p | inr n ↦ inr (ih.0 n) ],
      λ m. step.1 (elim m [ inl p ↦ inl p | inr n ↦ inr (ih.1 n) ]),
    )
