-- ===== src/Config.antt =====
-- internal/config/config.go. The environment is a function: an unset variable is empty, as for
-- `os.Getenv`.
pub mod Laws
use lapis_archive_file_servi.Prelude.{
  ℕ, [], ◌∷◌, ◌++◌, List, Bytes, codes, Bool, true, false, not, ◌||◌, Option, none, some, is_empty,
  leb, length, take, any_of, keep_if, map, ◌≟◌, if◌then◌else◌,
}
use lapis_archive_file_servi.Prelude.Int.{ℤ, pos}
use lapis_archive_file_servi.Decimal.{atoi}
use lapis_archive_file_servi.Text.{trim_space, split_on}

pub record RetentionConfig : Type 0 where
  pub anon_hours : ℤ
  pub owned_hours : ℤ

pub record ServerConfig : Type 0 where
  pub port : ℤ
  pub read_timeout : ℤ
  pub write_timeout : ℤ
  pub idle_timeout : ℤ
  pub shutdown_timeout : ℤ
  pub max_upload_mb : ℤ
  pub allowed_origins : List Bytes
  pub trusted_proxies : List Bytes

pub record LoggingConfig : Type 0 where
  pub level : Bytes
  pub mode : Bytes

pub record S3Config : Type 0 where
  pub endpoint : Bytes
  pub region : Bytes
  pub access_key_id : Bytes
  pub secret_access_key : Bytes
  pub use_ssl : Bool
  pub bucket_name : Bytes
  pub force_path_style : Bool

pub record DatabaseConfig : Type 0 where
  pub url : Bytes

pub record AuthConfig : Type 0 where
  pub jwks_url : Bytes
  pub issuer : Bytes
  pub audience : Bytes

pub record Config : Type 0 where
  pub server : ServerConfig
  pub logging : LoggingConfig
  pub s3 : S3Config
  pub database : DatabaseConfig
  pub auth : AuthConfig
  pub retention : RetentionConfig

-- `strconv.ParseBool`
unfoldable pub parse_bool : Bytes → Option Bool
parse_bool s =
    if any_of (λ t. s ≟ t)
      (codes "1" ∷ codes "t" ∷ codes "T" ∷ codes "true" ∷ codes "TRUE" ∷ codes "True" ∷ [])
    then some true
    else if any_of (λ t. s ≟ t)
        (codes "0" ∷ codes "f" ∷ codes "F" ∷ codes "false" ∷ codes "FALSE" ∷ codes "False" ∷ [])
    then some false
    else none

abbrev pub or_default : {A : Type 0} → Option A → A → A
or_default none d = d
or_default (some a) d = a

-- `mask`: what a log line shows of a key
unfoldable pub mask : Bytes → Bytes
mask s = if leb (length s) 4 then codes "****" else take 4 s ++ codes "****"

module _ (getenv : Bytes → Bytes) where
  unfoldable pub get_env : Bytes → Bytes → Bytes
  get_env key default_value =
      let value = getenv key in if is_empty value then default_value else value

  unfoldable pub get_env_int : Bytes → ℤ → ℤ
  get_env_int key default_value =
      let value = getenv key in
      if is_empty value then default_value else or_default (atoi value) default_value

  unfoldable pub get_env_list : Bytes → List Bytes → List Bytes
  get_env_list key default_value =
      let value = getenv key in
      let list = keep_if (λ part. not (is_empty part)) (map trim_space (split_on b',' value)) in
      if is_empty value then default_value else elim list [ [] ↦ default_value | x ∷ xs ↦ x ∷ xs ]

  unfoldable pub get_env_bool : Bytes → Bool → Bool
  get_env_bool key default_value =
      let value = getenv key in
      if is_empty value then default_value else or_default (parse_bool value) default_value

  -- `Load`
  unfoldable pub load : Config
  load = record {
    server = record {
      port = get_env_int (codes "PORT") (pos 6060);
      read_timeout = get_env_int (codes "READ_TIMEOUT") (pos 30);
      write_timeout = get_env_int (codes "WRITE_TIMEOUT") (pos 30);
      idle_timeout = get_env_int (codes "IDLE_TIMEOUT") (pos 120);
      shutdown_timeout = get_env_int (codes "SHUTDOWN_TIMEOUT") (pos 5);
      max_upload_mb = get_env_int (codes "MAX_UPLOAD_MB") (pos 512);
      allowed_origins = get_env_list (codes "ALLOWED_ORIGINS") [];
      trusted_proxies = get_env_list (codes "TRUSTED_PROXIES") [];
    };
    logging = record {
      level = get_env (codes "LOG_LEVEL") (codes "info");
      mode = get_env (codes "GIN_MODE") (codes "release");
    };
    s3 = record {
      endpoint = get_env (codes "S3_ENDPOINT") [];
      region = get_env (codes "S3_REGION") (codes "us-east-1");
      access_key_id = get_env (codes "S3_ACCESS_KEY_ID") [];
      secret_access_key = get_env (codes "S3_SECRET_ACCESS_KEY") [];
      use_ssl = get_env_bool (codes "S3_USE_SSL") true;
      bucket_name = get_env (codes "S3_BUCKET_NAME") (codes "oss-archive");
      force_path_style = get_env_bool (codes "S3_FORCE_PATH_STYLE") false;
    };
    database = record { url = get_env (codes "DATABASE_URL") [] };
    auth = record {
      jwks_url = get_env (codes "AUTH_JWKS_URL") [];
      issuer = get_env (codes "AUTH_ISSUER") [];
      audience = get_env (codes "AUTH_AUDIENCE") [];
    };
    retention = record {
      anon_hours = get_env_int (codes "RETENTION_ANON_HOURS") (pos 72);
      owned_hours = get_env_int (codes "RETENTION_OWNED_HOURS") (pos 168);
    };
  }
