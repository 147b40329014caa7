-- ===== src/Handlers/World.antt =====
-- What the handlers and the jobs act on: the database, the bucket, the random source, the clock and
-- the limiters. The bucket is behind the interfaces that the handlers declare, with a state of its own.
use lapis_archive_file_servi.Prelude.{ℕ, [], ◌∷◌, List, Bytes, Bool}
use lapis_archive_file_servi.Prelude.Int.{pos, ◌+ℤ◌}
use lapis_archive_file_servi.Act.{Step, Act}
use lapis_archive_file_servi.Time.{Time}
use lapis_archive_file_servi.Domain.{Share, Upload, Tape}
use lapis_archive_file_servi.Store.{Db}
use lapis_archive_file_servi.Store.Shares
use lapis_archive_file_servi.Handlers.RateLimit.{RateLimiter, allow}

-- `ticks` is what passes before each of the coming readings of the clock.
pub record World (O : Type 0) : Type 0 where
  pub db : Db
  pub objects : O
  pub entropy : Tape
  pub now : Time
  pub ticks : List ℕ
  pub per_ip : RateLimiter
  pub per_slug : RateLimiter
  pub meta_per_ip : RateLimiter

-- `rest.Success` and `rest.Error`: the body of a reply of status 200, or a status and a message
pub data Reply (A : Type 0) : Type 0 where
  success : A → Reply A
  failure : ℕ → Bytes → Reply A

-- `ShareStore` of internal/handlers/share.go
pub record ShareStore : Type 0 where
  pub create : Share → Act Db (Unit {0})
  pub get_by_slug : Bytes → Act Db Share
  pub get_by_storage_key : Bytes → Act Db Share
  pub rotate_code : Share → Act Db (Unit {0})
  pub list_by_owner : Bytes → Act Db (List Share)
  pub delete : Bytes → Bytes → Act Db (Unit {0})

abbrev pub db_shares : ShareStore
db_shares = record {
  create = Shares.create;
  get_by_slug = Shares.get_by_slug;
  get_by_storage_key = Shares.get_by_storage_key;
  rotate_code = Shares.rotate_code;
  list_by_owner = Shares.list_by_owner;
  delete = Shares.delete;
}

-- `UploadLookup`
abbrev pub UploadLookup : Type 0
UploadLookup = Bytes → Act Db Upload

-- `storage.Storage`
pub record Storage (O : Type 0) : Type 0 where
  pub get_presigned_upload_url : Bytes → ℕ → Bytes → Act O Bytes
  pub get_presigned_url : Bytes → Bool → Act O Bytes
  pub delete_file : Bytes → Act O (Unit {0})
  pub get_file_size : Bytes → Act O ℕ

module _ {O : Type 0} where
  abbrev pub on_db : {A : Type 0} → (Db → A × Db) → Step (World O) A
  on_db m w = let (a, db) = m w.db in (a, record w { db = db })

  abbrev pub on_objects : {A : Type 0} → (O → A × O) → Step (World O) A
  on_objects m w = let (a, objects) = m w.objects in (a, record w { objects = objects })

  abbrev pub on_entropy : {A : Type 0} → (Tape → A × Tape) → Step (World O) A
  on_entropy m w = let (a, entropy) = m w.entropy in (a, record w { entropy = entropy })

  abbrev pub elapse : List ℕ → World O → Time × World O
  elapse [] w = (w.now, w)
  elapse (d ∷ ticks) w = (w.now +ℤ pos d, record w { now = w.now +ℤ pos d; ticks = ticks })

  -- `time.Now()`
  unfoldable pub read_clock : Step (World O) Time
  read_clock w = elapse w.ticks w

  unfoldable pub allow_ip : Bytes → Step (World O) Bool
  allow_ip key w =
      let (t, w₁) = read_clock w in
      let (allowed, limiter) = allow w₁.per_ip key t in (allowed, record w₁ { per_ip = limiter })

  unfoldable pub allow_slug : Bytes → Step (World O) Bool
  allow_slug key w =
      let (t, w₁) = read_clock w in
      let (allowed, limiter) = allow w₁.per_slug key t in
      (allowed, record w₁ { per_slug = limiter })

  unfoldable pub allow_meta : Bytes → Step (World O) Bool
  allow_meta key w =
      let (t, w₁) = read_clock w in
      let (allowed, limiter) = allow w₁.meta_per_ip key t in
      (allowed, record w₁ { meta_per_ip = limiter })
