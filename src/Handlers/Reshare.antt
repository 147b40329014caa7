-- ===== src/Handlers/Reshare.antt =====
-- internal/handlers/share.go: creating a share, and rotating the code of a file that has one.
use lapis_archive_file_servi.Prelude.{
  ℕ, [], Bytes, codes, Bool, true, false, not, ◌||◌, Option, none, some, ◌≟◌, ltb, is_empty,
  if◌then◌else◌, length,
}
use lapis_archive_file_servi.Prelude.Int.{ℤ, pos, ◌+ℤ◌, leb_ℤ}
use lapis_archive_file_servi.Result.{Error, ok, err, not_found, share_limit, object_not_found}
use lapis_archive_file_servi.Act.{Step}
use lapis_archive_file_servi.Time.{Time, Duration, hour, times, after}
use lapis_archive_file_servi.Storagekey.{split}
use lapis_archive_file_servi.Domain.{Share, Upload, User, new_share, rotate}
use lapis_archive_file_servi.Handlers.World.{
  World, Reply, success, failure, ShareStore, UploadLookup, Storage, on_db, on_objects, on_entropy,
  read_clock,
}
use lapis_archive_file_servi.Handlers.Keys.{valid_key}

-- `CreateShareRequest` and `CreateShareResponse`
pub record CreateShare : Type 0 where
  pub storage_key : Bytes
  pub owner_email : Bytes
  pub recipient_email : Bytes
  pub ttl_hours : ℤ

pub record Created : Type 0 where
  pub slug : Bytes
  pub code : Bytes
  pub file_name : Bytes
  pub file_size : ℕ
  pub share_count : ℕ
  pub rotated : Bool
  pub expires_at : Time

abbrev pub max_email_length : ℕ
max_email_length = 320

abbrev pub created_of : Share → Bytes → Bool → Created
created_of s code rotated = record {
  slug = s.slug;
  code = code;
  file_name = s.file_name;
  file_size = s.file_size;
  share_count = s.share_count;
  rotated = rotated;
  expires_at = s.expires_at;
}

-- the replies to an error of `GetFileSize`, of `Rotate`, and of everything else
abbrev pub size_failure : {A : Type 0} → Error → Reply A
size_failure object_not_found = failure 404 (codes "File not found")
size_failure e = failure 502 (codes "Storage temporarily unavailable")

abbrev pub rotate_failure : {A : Type 0} → Error → Reply A
rotate_failure share_limit = failure 409 (codes "This file has reached its share limit of 3 codes")
rotate_failure e = failure 500 (codes "Could not create share")

abbrev pub could_not_create : {A : Type 0} → Reply A
could_not_create = failure 500 (codes "Could not create share")

abbrev pub forbidden : {A : Type 0} → Reply A
forbidden = failure 403 (codes "Only the person who shared this file can reshare it")

-- Whether `rotateShare` lets this user rotate a share of this owner.
abbrev pub may_rotate : Option User → Bytes → Bool
may_rotate none owner = is_empty owner
may_rotate (some user) owner = is_empty owner || (user.id ≟ owner)

-- the id and the address of the owner of a new share
abbrev pub owner_of : Option User → Bytes → Bytes × Bytes
owner_of none email = ([], email)
owner_of (some user) email = (user.id, if is_empty email then user.email else email)

-- how long the upload of this owner is kept
abbrev pub window_of : Duration → Duration → Bytes → Duration
window_of anon_ttl owned_ttl owner = if is_empty owner then anon_ttl else owned_ttl

-- the end of `capToRetention`
unfoldable pub cap : Duration → Upload → Share → Share
cap window up s =
    if leb_ℤ window (pos 0)
    then s
    else if after s.expires_at (up.created_at +ℤ window)
    then record s { expires_at = up.created_at +ℤ window }
    else s

module _ {O : Type 0} (store : ShareStore) (uploads : Option UploadLookup)
    (anon_ttl owned_ttl : Duration) where
  unfoldable pub cap_to : Option UploadLookup → Bytes → Share → Step (World O) Share
  cap_to none key s w = (s, w)
  cap_to (some lookup) key s w =
      let (r, w₁) = on_db (lookup key) w in
      elim r [ err e ↦ (s, w₁) | ok up ↦ (cap (window_of anon_ttl owned_ttl up.owner_id) up s, w₁) ]

  unfoldable pub cap_to_retention : Bytes → Share → Step (World O) Share
  cap_to_retention key s w = cap_to uploads key s w

  module _ (sha256 : Bytes → Bytes) (files : Storage O) where
    -- the end of `rotateShare`: the rotated share is capped and stored
    unfoldable pub store_rotated : Share → Bytes → Step (World O) (Reply Created)
    store_rotated s code w =
        let (capped, w₁) = cap_to_retention s.storage_key s w in
        let (r, w₂) = on_db (store.rotate_code capped) w₁ in
        elim r [
          | err e ↦ (could_not_create, w₂)
          | ok done ↦ (success (created_of capped code true), w₂)
        ]

    -- `rotateShare` after the check of the owner; the share has the request's recipient
    unfoldable pub rotate_stored : Share → ℤ → Step (World O) (Reply Created)
    rotate_stored s ttl_hours w =
        let (size, w₁) = on_objects (files.get_file_size s.storage_key) w in
        elim size [
          | err e ↦ (size_failure e, w₁)
          | ok bytes ↦
              let (t, w₂) = read_clock w₁ in
              let (r, w₃) = on_entropy (rotate sha256 s (times ttl_hours hour) t) w₂ in
              elim r [
                | err e ↦ (rotate_failure e, w₃)
                | ok (rotated, code) ↦ store_rotated rotated code w₃
              ]
        ]

    unfoldable pub rotate_share : Option User → Share → CreateShare → Step (World O) (Reply Created)
    rotate_share user s req w =
        if may_rotate user s.owner_id
        then rotate_stored (record s { recipient_email = req.recipient_email }) req.ttl_hours w
        else (forbidden, w)

    -- `Create` failed: perhaps a concurrent request has shared the file
    unfoldable pub lost_race : Option User → CreateShare → Step (World O) (Reply Created)
    lost_race user req w =
        let (racer, w₁) = on_db (store.get_by_storage_key req.storage_key) w in
        elim racer [ err e ↦ (could_not_create, w₁) | ok s ↦ rotate_share user s req w₁ ]

    unfoldable pub store_new :
        Option User → CreateShare → Share → Bytes → Step (World O) (Reply Created)
    store_new user req s code w =
        let (capped, w₁) = cap_to_retention req.storage_key s w in
        let (r, w₂) = on_db (store.create capped) w₁ in
        elim r [
          | err e ↦ lost_race user req w₂
          | ok done ↦ (success (created_of capped code false), w₂)
        ]

    -- the file has no share yet
    unfoldable pub share_new : Option User → CreateShare → Step (World O) (Reply Created)
    share_new user req w =
        let (size, w₁) = on_objects (files.get_file_size req.storage_key) w in
        elim size [
          | err e ↦ (size_failure e, w₁)
          | ok bytes ↦
              let (owner_id, owner_email) = owner_of user req.owner_email in
              let (t, w₂) = read_clock w₁ in
              let (r, w₃) =
                on_entropy
                  (new_share sha256 req.storage_key (split req.storage_key).1 bytes owner_id
                    owner_email req.recipient_email (times req.ttl_hours hour) t)
                  w₂ in
              elim r [
                | err e ↦ (could_not_create, w₃)
                | ok (s, code) ↦ store_new user req s code w₃
              ]
        ]

    unfoldable pub share_file : Option User → CreateShare → Step (World O) (Reply Created)
    share_file user req w =
        let (existing, w₁) = on_db (store.get_by_storage_key req.storage_key) w in
        elim existing [
          | ok s ↦ rotate_share user s req w₁
          | err not_found ↦ share_new user req w₁
          | err e ↦ (failure 502 (codes "Storage temporarily unavailable"), w₁)
        ]

    -- `POST /shares`
    unfoldable pub create_share : Option User → Option CreateShare → Step (World O) (Reply Created)
    create_share user none w = (failure 400 (codes "storage_key is required"), w)
    create_share user (some req) w =
        if not (valid_key req.storage_key)
        then (failure 400 (codes "Invalid storage key"), w)
        else if ltb max_email_length (length req.recipient_email)
            || ltb max_email_length (length req.owner_email)
        then (failure 400 (codes "Email too long"), w)
        else share_file user req w
