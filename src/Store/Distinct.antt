-- ===== src/Store/Distinct.antt =====
-- Lists in which no two elements have the same key: a unique index.
use lapis_archive_file_servi.Prelude.{
  [], ◌∷◌, ◌++◌, List, Bytes, Bool, ◌||◌, true, false, none, some, ◌≟◌, ≟_iff, map, keep_if, any_of,
  find_if, All, All-keep_if, All-both, ◌≡◌, ◌≢◌, refl, subst, sym, ◌∙◌, arith, Bool-cases, inl, inr,
}

module _ {A : Type 0} (key : A → Bytes) where
  abbrev pub IsDistinct : List A → Type 0
  IsDistinct [] = Unit
  IsDistinct (x ∷ xs) = All (λ y. key y ≢ key x) xs × IsDistinct xs

  abbrev pub keyed : Bytes → A → Bool
  keyed k x = key x ≟ k

  pub All-append_one :
      (P : A → Type 0) (xs : List A) (y : A) → All P xs → P y → All P (xs ++ y ∷ [])
  All-append_one P [] y h p = (p, tt)
  All-append_one P (x ∷ xs) y h p = (h.0, All-append_one P xs y h.1 p)

  -- An insert that finds no row with its key keeps the keys distinct.
  pub append_one-IsDistinct :
      (xs : List A) (y : A)
      → any_of (keyed (key y)) xs ≡ false
      → IsDistinct xs
      → IsDistinct (xs ++ y ∷ [])
  unfolding any_of
  append_one-IsDistinct [] y e h = (tt, tt)
  append_one-IsDistinct (x ∷ xs) y e h =
      let new : key y ≢ key x = λ same. ground (arith, ≟_iff (key x) (key y)) in
      let rest : any_of (keyed (key y)) xs ≡ false = ground arith in
      (All-append_one (λ z. key z ≢ key x) xs y h.0 new, append_one-IsDistinct xs y rest h.1)

  pub keep_if-IsDistinct : (p : A → Bool) (xs : List A) → IsDistinct xs → IsDistinct (keep_if p xs)
  unfolding keep_if
  keep_if-IsDistinct p [] h = tt
  keep_if-IsDistinct p (x ∷ xs) h =
      ground (arith, keep_if-IsDistinct p xs h.1, All-keep_if (λ y. key y ≢ key x) p xs h.0)

  module _ (f : A → A) (same : (x : A) → key (f x) ≡ key x) where
    All-map_ne :
        (k : Bytes) (xs : List A) → All (λ y. key y ≢ k) xs → All (λ y. key y ≢ k) (map f xs)
    All-map_ne k [] h = tt
    All-map_ne k (x ∷ xs) h = (λ e. h.0 (sym (same x) ∙ e), All-map_ne k xs h.1)

    -- An update that leaves the key alone keeps the keys distinct.
    pub map-IsDistinct : (xs : List A) → IsDistinct xs → IsDistinct (map f xs)
    map-IsDistinct [] h = tt
    map-IsDistinct (x ∷ xs) h = (rw (same x) (All-map_ne (key x) xs h.0), map-IsDistinct xs h.1)

    pub find_if-map :
        (k : Bytes) (xs : List A)
        → find_if (keyed k) (map f xs)
          ≡ elim (find_if (keyed k) xs) [ none ↦ none | some x ↦ some (f x) ]
    unfolding find_if
    find_if-map k [] = refl
    find_if-map k (x ∷ xs) = ground (arith, same x, find_if-map k xs)

  pub find_if-append_one :
      (k : Bytes) (xs : List A) (y : A)
      → find_if (keyed k) (xs ++ y ∷ []) ≡ elim (find_if (keyed k) xs) [
        | some x ↦ some x
        | none ↦ elim (key y ≟ k) [ true ↦ some y | false ↦ none ]
      ]
  unfolding find_if
  find_if-append_one k [] y = ground arith
  find_if-append_one k (x ∷ xs) y = ground (arith, find_if-append_one k xs y)

pub any_of-or :
    {A : Type 0} (p q : A → Bool) (xs : List A)
    → any_of (λ x. p x || q x) xs ≡ false
    → (any_of p xs ≡ false) × (any_of q xs ≡ false)
unfolding any_of
any_of-or p q [] h = (refl, refl)
any_of-or p q (x ∷ xs) h = ground (arith, any_of-or p q xs)

module _ {A : Type 0} where
  pub find_if-none : (p : A → Bool) (xs : List A) → any_of p xs ≡ false → find_if p xs ≡ none
  unfolding find_if any_of
  find_if-none p [] h = refl
  find_if-none p (x ∷ xs) h = ground (arith, find_if-none p xs)

  pub find_if-some :
      (p : A → Bool) (xs : List A) {x : A}
      → find_if p xs ≡ some x
      → (p x ≡ true) × (any_of p xs ≡ true)
  unfolding find_if any_of
  find_if-some p [] {x} h = cc
  find_if-some p (y ∷ xs) {x} h = elim (Bool-cases (p y)) [
    | inl e ↦ ground arith
    | inr e ↦ ground (arith, find_if-some p xs {x = x})
  ]

pub All-find_if :
    {A : Type 0} (P : A → Type 0) (p : A → Bool) (xs : List A) {x : A}
    → All P xs
    → find_if p xs ≡ some x
    → P x
unfolding find_if
All-find_if P p [] h e = cc
All-find_if P p (y ∷ xs) {x} h e = elim (Bool-cases (p y)) [
  | inl this ↦ subst P (ground arith) h.0
  | inr other ↦ All-find_if P p xs h.1 (ground arith)
]

pub find_if-any_of :
    {A : Type 0} (p : A → Bool) (xs : List A)
    → any_of p xs ≡ true
    → (x : A) × (find_if p xs ≡ some x) × (p x ≡ true)
unfolding find_if any_of
find_if-any_of p [] h = cc
find_if-any_of p (y ∷ xs) h = elim (Bool-cases (p y)) [
  | inl this ↦ (y, ground arith, this)
  | inr other ↦
      let (x, there, passes) = find_if-any_of p xs (ground arith) in (x, ground arith, passes)
]

module _ {A : Type 0} (key : A → Bytes) (p : A → Bool) where
  -- what a test says of one element, it says of all that have its key
  abbrev pub SameKey : List A → A → Type 0
  SameKey xs x = All (λ y. key y ≡ key x → p y ≡ true) xs

  pub IsDistinct-SameKey :
      (xs : List A) → IsDistinct key xs → All (λ x. p x ≡ true → SameKey xs x) xs
  IsDistinct-SameKey [] h = tt
  IsDistinct-SameKey (x ∷ xs) h = (
    λ px. (
      λ e. px,
      All-both (λ y. key y ≢ key x) (λ y. key y ≢ key x) (λ y. key y ≡ key x → p y ≡ true)
          (λ y ne _ e. absurd (ne e)) xs h.0 h.0,
    ),
    All-both (λ y. key y ≢ key x) (λ y. p y ≡ true → SameKey xs y)
        (λ y. p y ≡ true → SameKey (x ∷ xs) y) (λ y ne rest py. (λ e. absurd (ne (sym e)), rest py))
        xs h.0 (IsDistinct-SameKey xs h.1),
  )
