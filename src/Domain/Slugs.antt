-- ===== src/Domain/Slugs.antt =====
-- `ValidateSlug` of internal/domain/share.go: the runes that it reads and the bytes of a slug.
use lapis_archive_file_servi.Prelude.{
  ℕ, ◌≤◌, [], ◌∷◌, Bytes, ◌≡◌, ◌⊎◌, ◌↔◌, Bool, true, false, not, arith, All, length, any_of, inl,
  inr, refl,
}
use lapis_archive_file_servi.Result.{ok, err, invalid_slug}
use lapis_archive_file_servi.Utf8.Ascii.{any_of-runes-true}
use lapis_archive_file_servi.Domain.{slug_length, is_slug_letter, validate_slug}

-- an ASCII letter or digit
abbrev pub IsSlugLetter : ℕ → Type 0
IsSlugLetter c = ((b'a' ≤ c) × (c ≤ b'z')) ⊎ ((b'A' ≤ c) × (c ≤ b'Z')) ⊎ ((b'0' ≤ c) × (c ≤ b'9'))

abbrev pub IsSlug : Bytes → Type 0
IsSlug slug = (length slug ≡ slug_length) × All IsSlugLetter slug

abbrev is_bad : ℕ → Bool
is_bad r = not (is_slug_letter r)

is_bad_high : (r : ℕ) → 0x80 ≤ r → is_bad r ≡ true
unfolding is_slug_letter
is_bad_high r h = ground arith

All-IsSlugLetter_of_any_of : (s : Bytes) → any_of is_bad s ≡ false → All IsSlugLetter s
unfolding any_of is_slug_letter
All-IsSlugLetter_of_any_of [] h = tt
All-IsSlugLetter_of_any_of (c ∷ s) h = ground (arith, All-IsSlugLetter_of_any_of s)

any_of_of_All-IsSlugLetter : (s : Bytes) → All IsSlugLetter s → any_of is_bad s ≡ false
unfolding any_of is_slug_letter
any_of_of_All-IsSlugLetter [] h = refl
any_of_of_All-IsSlugLetter (c ∷ s) h = ground (arith, any_of_of_All-IsSlugLetter s h.1)

validate_slug-cases :
    (slug : Bytes)
    → (IsSlug slug × (validate_slug slug ≡ ok tt))
      ⊎ (¬ IsSlug slug × (validate_slug slug ≡ err invalid_slug))
unfolding validate_slug
validate_slug-cases slug = ground (
  arith,
  any_of-runes-true is_bad is_bad_high slug,
  All-IsSlugLetter_of_any_of slug,
  any_of_of_All-IsSlugLetter slug,
)

-- A slug passes exactly when it is ten ASCII letters and digits; no other byte, and no encoding of
-- another character, gets through.
pub validate_slug-IsSlug : (slug : Bytes) → (validate_slug slug ≡ ok tt) ↔ IsSlug slug
validate_slug-IsSlug slug = elim (validate_slug-cases slug) [
  | inl (good, passes) ↦ (λ _. good, λ _. passes)
  | inr (bad, fails) ↦ (λ e. cc (e, fails), λ good. absurd (bad good))
]
