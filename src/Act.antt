-- ===== src/Act.antt =====
-- Effects by explicit state. A `Step` reads and replaces the state that it runs on; an `Act` is a
-- step that returns a value or an error, and what was written before an error stays written.
use lapis_archive_file_servi.Prelude.{Bytes, ◌≡◌, ◌⊎◌, arith, inl, inr}
use lapis_archive_file_servi.Result.{Error, Result, Result-cases, ok, err, wrapped}

abbrev pub Step : Type 0 → Type 0 → Type 0
Step S A = S → A × S

abbrev pub Act : Type 0 → Type 0 → Type 0
Act S A = S → Result A × S

module _ {S A : Type 0} where
  abbrev pub pure : A → Act S A
  pure a s = (ok a, s)

  abbrev pub raise : Error → Act S A
  raise e s = (err e, s)

  -- `if err != nil { return fmt.Errorf("…: %w", err) }`
  abbrev pub wrap : Bytes → Act S A → Act S A
  wrap context m s =
      let (r, s') = m s in elim r [ ok a ↦ (ok a, s') | err e ↦ (err (wrapped context e), s') ]

infixl 5 ◌>>=◌ ◌>>◌
abbrev pub ◌>>=◌ : {S A B : Type 0} → Act S A → (A → Act S B) → Act S B
◌>>=◌ m f s = let (r, s') = m s in elim r [ ok a ↦ f a s' | err e ↦ (err e, s') ]

abbrev pub ◌>>◌ : {S B : Type 0} → Act S (Unit {0}) → Act S B → Act S B
m >> k = m >>= λ _. k

-- Inversion of a bind, and of a wrapped call, that returned a value.
pub >>=-eq-ok :
    {S A B : Type 0} (m : Act S A) (f : A → Act S B) (s : S) {b : B}
    → (◌>>=◌ m f s).0 ≡ ok b
    → (a : A) × ((m s).0 ≡ ok a) × ((f a (m s).1).0 ≡ ok b)
>>=-eq-ok m f s e = ground arith

pub wrap-eq-ok :
    {S A : Type 0} (context : Bytes) (m : Act S A) (s : S) {a : A}
    → (wrap context m s).0 ≡ ok a
    → (m s).0 ≡ ok a
wrap-eq-ok context m s e = ground arith

pub wrap-state :
    {S A : Type 0} (context : Bytes) (m : Act S A) (s : S) → (wrap context m s).1 ≡ (m s).1
wrap-state context m s = ground arith

-- `m` keeps `P`, whether it returns a value or an error.
abbrev pub Preserves : {S A : Type 0} → (S → Type 0) → Act S A → Type 0
Preserves {S} P m = (s : S) → P s → P (m s).1

pub wrap-Preserves :
    {S A : Type 0} (P : S → Type 0) (context : Bytes) (m : Act S A)
    → Preserves P m
    → Preserves P (wrap context m)
wrap-Preserves P context m keep s h = ground (arith, keep s h)

pub >>=-Preserves :
    {S A B : Type 0} (P : S → Type 0) (m : Act S A) (f : A → Act S B)
    → Preserves P m
    → ((a : A) → Preserves P (f a))
    → Preserves P (m >>= f)
>>=-Preserves P m f keep next s h = elim (Result-cases (m s).0) [
  | inl (a, e) ↦ ground (arith, keep s h, next a (m s).1)
  | inr (x, e) ↦ ground (arith, keep s h)
]

-- A bind ends with the error of its first step, or goes on with its value.
pub >>=-cases :
    {S A B : Type 0} (m : Act S A) (f : A → Act S B) (s : S)
    → ((e : Error) × (◌>>=◌ m f s ≡ (err e, (m s).1)))
      ⊎ ((a : A) × ((m s).0 ≡ ok a) × (◌>>=◌ m f s ≡ f a (m s).1))
>>=-cases m f s = elim (Result-cases (m s).0) [
  | inl (a, e) ↦ inr (a, e, ground arith)
  | inr (x, e) ↦ inl (x, ground arith)
]
