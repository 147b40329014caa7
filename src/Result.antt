-- ===== src/Result.antt =====
-- A Go function that returns `(value, error)` returns a `Result`. The errors that the program
-- tells apart by `errors.Is` are constructors; every other error is its text.
use lapis_archive_file_servi.Prelude.{
  Bytes, codes, Bool, true, false, ◌++◌, ◌≡◌, ◌⊎◌, inl, inr, refl,
}

pub data Error : Type 0 where
  -- internal/domain/share.go
  expired wrong_code invalid_slug not_found share_limit : Error
  -- internal/storage/s3.go
  object_not_found no_such_upload : Error
  failed : Bytes → Error

-- `err.Error()`
unfoldable pub error_text : Error → Bytes
error_text expired = codes "share expired"
error_text wrong_code = codes "wrong access code"
error_text invalid_slug = codes "invalid slug"
error_text not_found = codes "share not found"
error_text share_limit = codes "share limit reached"
error_text object_not_found = codes "object not found"
error_text no_such_upload = codes "multipart upload not found"
error_text (failed message) = message

pub data Result {ℓ} (A : Type ℓ) : Type ℓ where
  ok : A → Result A
  err : Error → Result A

infixl 5 ◌>>=◌
abbrev pub ◌>>=◌ {ℓ κ} : {A : Type ℓ} {B : Type κ} → Result A → (A → Result B) → Result B
ok a >>= f = f a
err e >>= f = err e

-- `fmt.Errorf("…: %w", err)`: what `errors.Is` finds in it is what it found in `err`.
abbrev pub wrapped : Bytes → Error → Error
wrapped context (failed message) = failed (context ++ message)
wrapped context expired = expired
wrapped context wrong_code = wrong_code
wrapped context invalid_slug = invalid_slug
wrapped context not_found = not_found
wrapped context share_limit = share_limit
wrapped context object_not_found = object_not_found
wrapped context no_such_upload = no_such_upload

abbrev pub is_ok {ℓ} : {A : Type ℓ} → Result A → Bool
is_ok (ok a) = true
is_ok (err e) = false

pub Result-cases {ℓ} :
    {A : Type ℓ} (r : Result A) → ((a : A) × (r ≡ ok a)) ⊎ ((e : Error) × (r ≡ err e))
Result-cases (ok a) = inl (a, refl)
Result-cases (err e) = inr (e, refl)
