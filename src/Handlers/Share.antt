-- ===== src/Handlers/Share.antt =====
-- internal/handlers/share.go: reading, unlocking, listing and revoking shares. A request is what the
-- router has made of it: its parameters, its body (none if it does not bind), the client's address,
-- and the user of a verified token.
use lapis_archive_file_servi.Prelude.{
  ℕ, [], ◌∷◌, ◌++◌, List, Bytes, codes, Bool, false, not, Option, none, some, if◌then◌else◌, ◌≡◌,
  ◌⊎◌, inl, inr, refl,
}
use lapis_archive_file_servi.Result.{Error, Result, ok, err, expired, wrong_code, not_found}
use lapis_archive_file_servi.Act.{Step}
use lapis_archive_file_servi.Time.{Time}
use lapis_archive_file_servi.Domain.{Share, User, validate_slug, is_expired, verify}
use lapis_archive_file_servi.Handlers.World.{
  World, Reply, success, failure, ShareStore, Storage, on_db, on_objects, read_clock, allow_ip,
  allow_slug, allow_meta,
}

-- `ShareMetaResponse`
pub record ShareMeta : Type 0 where
  pub slug : Bytes
  pub file_name : Bytes
  pub file_size : ℕ
  pub share_count : ℕ
  pub created_at : Time
  pub expires_at : Time
  pub expired : Bool

-- `UnlockShareRequest` and `UnlockShareResponse`
pub record Unlock : Type 0 where
  pub code : Bytes
  pub download : Bool

pub record Unlocked : Type 0 where
  pub url : Bytes
  pub expires_in : ℕ
  pub file_name : Bytes
  pub file_size : ℕ

abbrev pub meta_of : Share → Bool → ShareMeta
meta_of s over = record {
  slug = s.slug;
  file_name = s.file_name;
  file_size = s.file_size;
  share_count = s.share_count;
  created_at = s.created_at;
  expires_at = s.expires_at;
  expired = over;
}

module _ {O : Type 0} where
  unfoldable pub to_meta : Share → Step (World O) ShareMeta
  to_meta s w = let (t, w₁) = read_clock w in (meta_of s (is_expired s t), w₁)

  -- the loop of `ListMine`
  unfoldable pub to_metas : List Share → Step (World O) (List ShareMeta)
  to_metas [] w = ([], w)
  to_metas (s ∷ list) w =
      let (m, w₁) = to_meta s w in let (out, w₂) = to_metas list w₁ in (m ∷ out, w₂)

-- the reply to an error of the store, in `loadShare`
abbrev pub load_failure : {A : Type 0} → Error → Reply A
load_failure not_found = failure 404 (codes "Share not found")
load_failure e = failure 502 (codes "Storage temporarily unavailable")

-- the reply to an error of `Verify`
abbrev pub verify_failure : Error → Reply Unlocked
verify_failure expired = failure 410 (codes "This share has expired")
verify_failure wrong_code = failure 403 (codes "Wrong access code")
verify_failure e = failure 500 (codes "Could not verify code")

-- the reply to an error of `Delete`
abbrev pub revoke_failure : Error → Reply Bytes
revoke_failure not_found = failure 404 (codes "Share not found")
revoke_failure e = failure 500 (codes "Could not revoke share")

module _ {O : Type 0} where
  -- `!h.perSlug.Allow(slug) || !h.perIP.Allow(…)`: the second limiter is asked only if the first allows
  unfoldable pub allow_unlock : Bytes → Bytes → Step (World O) Bool
  allow_unlock slug client w =
      let (allowed, w₁) = allow_slug slug w in
      if not allowed then (false, w₁) else allow_ip (slug ++ b'|' ∷ client) w₁

-- A share, or the reply that `loadShare` has sent.
pub data Loaded (A : Type 0) : Type 0 where
  loaded : Share → Loaded A
  replied : Reply A → Loaded A

pub Loaded-cases :
    {A : Type 0} (r : Loaded A)
    → ((s : Share) × (r ≡ loaded s)) ⊎ ((reply : Reply A) × (r ≡ replied reply))
Loaded-cases (loaded s) = inl (s, refl)
Loaded-cases (replied reply) = inr (reply, refl)

abbrev pub not_there : {A : Type 0} → Reply A
not_there = failure 404 (codes "Share not found")

abbrev pub loaded_of : {A : Type 0} → Result Share → Loaded A
loaded_of (ok s) = loaded s
loaded_of (err e) = replied (load_failure e)

module _ {O : Type 0} (store : ShareStore) where
  unfoldable pub load_share : {A : Type 0} → Bytes → Step (World O) (Loaded A)
  load_share slug w = elim (validate_slug slug) [
    | err e ↦ (replied not_there, w)
    | ok valid ↦ let (r, w₁) = on_db (store.get_by_slug slug) w in (loaded_of r, w₁)
  ]

  -- `GET /shares/:slug`
  unfoldable pub get_share : Bytes → Bytes → Step (World O) (Reply ShareMeta)
  get_share client slug w =
      let (allowed, w₁) = allow_meta client w in
      if not allowed
      then (failure 429 (codes "Too many requests, slow down"), w₁)
      else let (r, w₂) = load_share slug w₁ in
        elim r [
          | replied reply ↦ (reply, w₂)
          | loaded s ↦ let (m, w₃) = to_meta s w₂ in (success m, w₃)
        ]

  -- `GET /shares`
  unfoldable pub list_mine : Option User → Step (World O) (Reply (List ShareMeta))
  list_mine none w = (failure 401 (codes "Authentication required"), w)
  list_mine (some user) w =
      let (r, w₁) = on_db (store.list_by_owner user.id) w in
      elim r [
        | err e ↦ (failure 500 (codes "Could not load your shares"), w₁)
        | ok list ↦ let (out, w₂) = to_metas list w₁ in (success out, w₂)
      ]

  -- `DELETE /shares/:slug`
  unfoldable pub revoke_share : Option User → Bytes → Step (World O) (Reply Bytes)
  revoke_share none slug w = (failure 401 (codes "Authentication required"), w)
  revoke_share (some user) slug w = elim (validate_slug slug) [
    | err e ↦ (not_there, w)
    | ok valid ↦
        let (r, w₁) = on_db (store.delete slug user.id) w in
        elim r [ err e ↦ (revoke_failure e, w₁) | ok done ↦ (success slug, w₁) ]
  ]

  module _ (sha256 : Bytes → Bytes) (files : Storage O) where
    -- the end of `UnlockShare`: the code was right
    unfoldable pub open_share : Share → Bool → Step (World O) (Reply Unlocked)
    open_share s download w =
        let (r, w₁) = on_objects (files.get_presigned_url s.storage_key download) w in
        elim r [
          | err e ↦ (failure 500 (codes "Could not prepare download"), w₁)
          | ok url ↦ (
            success (record {
              url = url;
              expires_in = 3600;
              file_name = s.file_name;
              file_size = s.file_size;
            }),
            w₁,
          )
        ]

    unfoldable pub try_code : Share → Unlock → Step (World O) (Reply Unlocked)
    try_code s req w =
        let (t, w₁) = read_clock w in
        elim (verify sha256 s t req.code) [
          | err e ↦ (verify_failure e, w₁)
          | ok right ↦ open_share s req.download w₁
        ]

    unfoldable pub unlock_admitted : Bytes → Option Unlock → Step (World O) (Reply Unlocked)
    unlock_admitted slug none w = (failure 400 (codes "code is required"), w)
    unlock_admitted slug (some req) w =
        let (r, w₁) = load_share slug w in
        elim r [ replied reply ↦ (reply, w₁) | loaded s ↦ try_code s req w₁ ]

    -- `POST /shares/:slug/unlock`
    unfoldable pub unlock_share : Bytes → Bytes → Option Unlock → Step (World O) (Reply Unlocked)
    unlock_share client slug body w = elim (validate_slug slug) [
      | err e ↦ (not_there, w)
      | ok valid ↦
          let (allowed, w₁) = allow_unlock slug client w in
          if not allowed
          then (failure 429 (codes "Too many attempts, slow down"), w₁)
          else unlock_admitted slug body w₁
    ]
