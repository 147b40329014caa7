-- ===== src/Config/Laws.antt =====
-- What internal/config/config.go reads from the environment.
use lapis_archive_file_servi.Prelude.{
  [], ◌∷◌, Bytes, some, is_empty, if◌then◌else◌, ◌≡◌, ◌∙◌, refl, ap,
}
use lapis_archive_file_servi.Prelude.Int.{ℤ}
use lapis_archive_file_servi.Decimal.{itoa, atoi}
use lapis_archive_file_servi.Decimal.RoundTrip.{IsInt64, atoi-itoa}
use lapis_archive_file_servi.Config.{or_default, get_env_int}

read_int :
    (value : Bytes) (z d : ℤ)
    → atoi value ≡ some z
    → (if is_empty value then d else or_default (atoi value) d) ≡ z
unfolding atoi
read_int [] z d h = cc
read_int (c ∷ s) z d h = rw h refl

module _ (getenv : Bytes → Bytes) (key : Bytes) where
  -- A variable that has an int64 in decimal gives this number, whatever the default.
  pub get_env_int-itoa : (z d : ℤ) → IsInt64 z → getenv key ≡ itoa z → get_env_int getenv key d ≡ z
  unfolding get_env_int
  get_env_int-itoa z d h e = read_int (getenv key) z d (ap atoi e ∙ atoi-itoa z h)
