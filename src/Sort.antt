-- ===== src/Sort.antt =====
-- Sorting by a Boolean order: `order by` in SQL, `sort.Slice` and `sort.Strings` in Go. The order of
-- equal elements is open in all three; the theorems about sorted results do not depend on it.
use lapis_archive_file_servi.Prelude.{
  [], ◌∷◌, List, Bool, true, false, if◌then◌else◌, ◌≡◌, inl, inr, arith, All, Bool-cases,
}
use mathlib.Core.List.{Perm}
use mathlib.Core.List.Perm

module _ {A : Type 0} (before : A → A → Bool) where
  unfoldable pub insert_by : A → List A → List A
  insert_by a [] = a ∷ []
  insert_by a (b ∷ l) = if before b a then b ∷ insert_by a l else a ∷ b ∷ l

  unfoldable pub sort_by : List A → List A
  sort_by [] = []
  sort_by (a ∷ l) = insert_by a (sort_by l)

  -- No element comes before one that stands ahead of it.
  abbrev pub IsSortedBy : List A → Type 0
  IsSortedBy [] = Unit
  IsSortedBy (a ∷ l) = All (λ b. before b a ≡ false) l × IsSortedBy l

  insert_by-perm : (a : A) (l : List A) → Perm (insert_by a l) (a ∷ l)
  unfolding insert_by
  insert_by-perm a [] = Perm.rfl
  insert_by-perm a (b ∷ l) = elim (Bool-cases (before b a)) [
    | inl p ↦ rw p (Perm.trans (Perm.cons b (insert_by-perm a l)) (Perm.swap a b l))
    | inr p ↦ rw p Perm.rfl
  ]

  -- Sorting loses and invents nothing.
  pub sort_by-perm : (l : List A) → Perm (sort_by l) l
  unfolding sort_by
  sort_by-perm [] = Perm.rfl
  sort_by-perm (a ∷ l) = Perm.trans (insert_by-perm a (sort_by l)) (Perm.cons a (sort_by-perm l))

  All-insert_by : (P : A → Type 0) (a : A) (l : List A) → P a → All P l → All P (insert_by a l)
  unfolding insert_by
  All-insert_by P a [] p h = (p, tt)
  All-insert_by P a (b ∷ l) p h = ground (arith, All-insert_by P a l p h.1)

  -- What holds of all elements holds of all elements of the sorted list.
  pub All-sort_by : (P : A → Type 0) (l : List A) → All P l → All P (sort_by l)
  unfolding sort_by
  All-sort_by P [] h = tt
  All-sort_by P (a ∷ l) h = All-insert_by P a (sort_by l) h.0 (All-sort_by P l h.1)

  -- A strict weak order: what `sort` documents of its `less`.
  pub record IsStrictWeak : Type 0 where
    pub asym : (a b : A) → before a b ≡ true → before b a ≡ false
    pub cotrans : (a b c : A) → before a b ≡ false → before b c ≡ false → before a c ≡ false

module _ {A : Type 0} {before : A → A → Bool} (o : IsStrictWeak before) where
  not_before-All :
      (a b : A) (l : List A)
      → before b a ≡ false
      → All (λ c. before c b ≡ false) l
      → All (λ c. before c a ≡ false) l
  not_before-All a b [] h k = tt
  not_before-All a b (c ∷ l) h k = (o.cotrans c b a k.0 h, not_before-All a b l h k.1)

  insert_by-IsSortedBy :
      (a : A) (l : List A) → IsSortedBy before l → IsSortedBy before (insert_by before a l)
  unfolding insert_by
  insert_by-IsSortedBy a [] h = (tt, tt)
  insert_by-IsSortedBy a (b ∷ l) h = elim (Bool-cases (before b a)) [
    | inl p ↦ rw p (
      All-insert_by before (λ c. before c b ≡ false) a l (o.asym b a p) h.0,
      insert_by-IsSortedBy a l h.1,
    )
    | inr p ↦ rw p ((p, not_before-All a b l p h.0), h)
  ]

  -- The result is sorted, if the order is a strict weak order.
  pub sort_by-IsSortedBy : (l : List A) → IsSortedBy before (sort_by before l)
  unfolding sort_by
  sort_by-IsSortedBy [] = tt
  sort_by-IsSortedBy (a ∷ l) = insert_by-IsSortedBy a (sort_by before l) (sort_by-IsSortedBy l)
