-- ===== src/Handlers/Laws.antt =====
-- What the handlers rely on in a share store, and the Postgres store as such a store.
use lapis_archive_file_servi.Prelude.{Bytes, ◌≡◌, sym, subst}
use lapis_archive_file_servi.Result.{ok}
use lapis_archive_file_servi.Domain.{Share}
use lapis_archive_file_servi.Store.{Db}
use lapis_archive_file_servi.Store.Distinct.{All-find_if}
use lapis_archive_file_servi.Store.Invariant.{SoundRow, SoundShare, IsConsistent}
use lapis_archive_file_servi.Store.Keeps
use lapis_archive_file_servi.Store.Shares
use lapis_archive_file_servi.Store.Uploads
use lapis_archive_file_servi.Store.Reads.{get_by_storage_key-ok}
use lapis_archive_file_servi.Handlers.World.{ShareStore, UploadLookup, db_shares}

-- Sound shares go in and come out, and the tables stay consistent.
pub record IsStore (store : ShareStore) : Type 0 where
  pub creates : (s : Share) → SoundShare s → Keeps.Keeps (store.create s)
  pub rotates : (s : Share) → SoundShare s → Keeps.Keeps (store.rotate_code s)
  pub gets : (key : Bytes) → Keeps.Keeps (store.get_by_storage_key key)
  pub sound :
      (key : Bytes) (db : Db) {s : Share}
      → IsConsistent db.tables
      → (store.get_by_storage_key key db).0 ≡ ok s
      → SoundShare s
  pub deletes : (slug owner : Bytes) → Keeps.Keeps (store.delete slug owner)

abbrev pub IsLookup : UploadLookup → Type 0
IsLookup lookup = (key : Bytes) → Keeps.Keeps (lookup key)

sound_read :
    (key : Bytes) (db : Db) {s : Share}
    → IsConsistent db.tables
    → (Shares.get_by_storage_key key db).0 ≡ ok s
    → SoundShare s
unfolding Shares.scan_share
sound_read key db {s} h e =
    let (row, there, scanned) = get_by_storage_key-ok key db e in
    let sound : SoundRow row =
      All-find_if SoundRow (Shares.has_key key) db.tables.shares h.sound there in
    subst SoundShare (sym scanned) sound

pub db_shares-IsStore : IsStore db_shares
db_shares-IsStore = record {
  creates = Keeps.create-Keeps;
  rotates = Keeps.rotate_code-Keeps;
  gets = Keeps.get_by_storage_key-Keeps;
  sound = λ key db {s} h e. sound_read key db h e;
  deletes = Keeps.delete-Keeps;
}

pub db_uploads-IsLookup : IsLookup Uploads.get_by_storage_key
db_uploads-IsLookup = Keeps.upload_get-Keeps
