-- ===== src/Handlers/ReadOnly.antt =====
-- `GetShare`, `ListMine` and `UnlockShare` of internal/handlers/share.go, and the tables.
use lapis_archive_file_servi.Prelude.{
  [], ◌∷◌, List, Bytes, Option, none, some, ◌≡◌, refl, ◌∙◌, arith, inl, inr,
}
use lapis_archive_file_servi.Result.{Result-cases}
use lapis_archive_file_servi.Domain.{Share, User}
use lapis_archive_file_servi.Store.Statements.{get_by_slug-tables, list_by_owner-tables}
use lapis_archive_file_servi.Handlers.World.{
  World, Storage, db_shares, on_db, read_clock, allow_ip, allow_slug, allow_meta,
}
use lapis_archive_file_servi.Handlers.Share.{
  ShareMeta, Unlock, Unlocked, Loaded-cases, to_meta, to_metas, load_share, get_share, list_mine,
  open_share, try_code, unlock_admitted, allow_unlock, unlock_share,
}

module _ {O : Type 0} where
  pub read_clock-db : (w : World O) → (read_clock w).1.db ≡ w.db
  unfolding read_clock
  read_clock-db w = ground arith

  to_metas-db : (list : List Share) (w : World O) → (to_metas list w).1.db ≡ w.db
  unfolding to_metas to_meta
  to_metas-db [] w = refl
  to_metas-db (s ∷ list) w = to_metas-db list (read_clock w).1 ∙ read_clock-db w

  pub allow_unlock-db :
      (slug client : Bytes) (w : World O) → (allow_unlock slug client w).1.db ≡ w.db
  unfolding allow_unlock allow_slug allow_ip
  allow_unlock-db slug client w =
      ground (arith, read_clock-db w, read_clock-db (allow_slug slug w).1)

  load_share-tables :
      (A : Type 0) (slug : Bytes) (w : World O)
      → (load_share db_shares {A = A} slug w).1.db.tables ≡ w.db.tables
  unfolding load_share
  load_share-tables A slug w = ground (arith, get_by_slug-tables slug w.db)

  try_code-db :
      (sha256 : Bytes → Bytes) (files : Storage O) (s : Share) (req : Unlock) (w : World O)
      → (try_code db_shares sha256 files s req w).1.db ≡ w.db
  unfolding try_code open_share
  try_code-db sha256 files s req w = ground (arith, read_clock-db w)

  unlock_admitted-tables :
      (sha256 : Bytes → Bytes) (files : Storage O) (slug : Bytes) (body : Option Unlock)
      (w : World O)
      → (unlock_admitted db_shares sha256 files slug body w).1.db.tables ≡ w.db.tables
  unfolding unlock_admitted
  unlock_admitted-tables sha256 files slug none w = refl
  unlock_admitted-tables sha256 files slug (some req) w =
      let w₁ = (load_share db_shares {A = Unlocked} slug w).1 in
      elim (Loaded-cases (load_share db_shares {A = Unlocked} slug w).0) [
        | inl (s, got) ↦
            ground (arith, load_share-tables Unlocked slug w, try_code-db sha256 files s req w₁)
        | inr (reply, failed) ↦ ground (arith, load_share-tables Unlocked slug w)
      ]

  unlock_share-tables :
      (sha256 : Bytes → Bytes) (files : Storage O) (client slug : Bytes) (body : Option Unlock)
      (w : World O)
      → (unlock_share db_shares sha256 files client slug body w).1.db.tables ≡ w.db.tables
  unfolding unlock_share
  unlock_share-tables sha256 files client slug body w = ground (
    arith,
    allow_unlock-db slug client w,
    unlock_admitted-tables sha256 files slug body (allow_unlock slug client w).1,
  )

  get_share-tables :
      (client slug : Bytes) (w : World O)
      → (get_share db_shares client slug w).1.db.tables ≡ w.db.tables
  unfolding get_share allow_meta to_meta
  get_share-tables client slug w =
      let w₁ = (allow_meta client w).1 in
      let w₂ = (load_share db_shares {A = ShareMeta} slug w₁).1 in
      ground (arith, read_clock-db w, load_share-tables ShareMeta slug w₁, read_clock-db w₂)

  list_mine-tables :
      (user : Option User) (w : World O) → (list_mine db_shares user w).1.db.tables ≡ w.db.tables
  unfolding list_mine
  list_mine-tables none w = refl
  list_mine-tables (some user) w =
      let w₁ = (on_db (db_shares.list_by_owner user.id) w).1 in
      elim (Result-cases (db_shares.list_by_owner user.id w.db).0) [
        | inl (list, got) ↦ ground (arith, list_by_owner-tables user.id w.db, to_metas-db list w₁)
        | inr (x, failed) ↦ ground (arith, list_by_owner-tables user.id w.db)
      ]

-- Reading a share, listing one's shares and unlocking a share, with a right code or a wrong one,
-- change no table, whatever the connection does.
pub reading-tables :
    {O : Type 0} (sha256 : Bytes → Bytes) (files : Storage O) (client slug : Bytes)
    (user : Option User) (body : Option Unlock) (w : World O)
    → ((get_share db_shares client slug w).1.db.tables ≡ w.db.tables)
      × ((list_mine db_shares user w).1.db.tables ≡ w.db.tables)
      × ((unlock_share db_shares sha256 files client slug body w).1.db.tables ≡ w.db.tables)
reading-tables sha256 files client slug user body w = (
  get_share-tables client slug w,
  list_mine-tables user w,
  unlock_share-tables sha256 files client slug body w,
)
