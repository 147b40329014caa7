-- ===== src/Worker/Retention/Due.antt =====
-- The run of internal/worker/retention.go, and the files in the bucket.
use lapis_archive_file_servi.Prelude.{
  All-imp, Option-cases, ℕ, [], ◌∷◌, List, Bytes, codes, All, All-kept, All-map, All-take, keep_if,
  take, ◌≡◌, subst, arith, inl, inr, true,
}
use lapis_archive_file_servi.Prelude.Int.{pos, negsuc, ltb_ℤ, ◌-ℤ◌}
use lapis_archive_file_servi.Result.{Result-cases, ok}
use lapis_archive_file_servi.Act.{Preserves, wrap-eq-ok}
use lapis_archive_file_servi.Time.{to_micros, Time, Duration}
use lapis_archive_file_servi.Sort.{sort_by, All-sort_by}
use lapis_archive_file_servi.Domain.{Upload}
use lapis_archive_file_servi.Store.{UploadRow, Db, statement}
use lapis_archive_file_servi.Store.Uploads
use lapis_archive_file_servi.Store.Statements.{statement-ok}
use lapis_archive_file_servi.Handlers.World.{Storage}
use lapis_archive_file_servi.Worker.Purge.{sweep_batch_size}
use lapis_archive_file_servi.Worker.Retention.{
  Kept, delete_object, purge_upload, purge_uploads, purge_expired_uploads,
}

module _ {O : Type 0} (files : Storage O) (P : O → Type 0) where
  delete_object-objects :
      (up : Upload) (size : ℕ) (w : Kept O)
      → Preserves P (files.delete_file up.storage_key)
      → P w.objects
      → P (delete_object files up size w).objects
  unfolding delete_object
  delete_object-objects up size w keep h = ground (arith, keep w.objects h)

  purge_upload-objects :
      (up : Upload) (w : Kept O)
      → ((key : Bytes) → Preserves P (files.get_file_size key))
      → Preserves P (files.delete_file up.storage_key)
      → P w.objects
      → P (purge_upload files up w).objects
  unfolding purge_upload
  purge_upload-objects up w sizes keep h =
      let h₁ = sizes up.storage_key w.objects h in
      elim (Result-cases (files.get_file_size up.storage_key w.objects).0) [
        | inl (size, got) ↦ ground (
          arith,
          delete_object-objects up size
              (record { db = w.db; objects = (files.get_file_size up.storage_key w.objects).1 })
              keep h₁,
        )
        | inr (x, failed) ↦ ground (arith, h₁)
      ]

  purge_uploads-objects :
      (list : List Upload) (w : Kept O)
      → ((key : Bytes) → Preserves P (files.get_file_size key))
      → All (λ (up : Upload). Preserves P (files.delete_file up.storage_key)) list
      → P w.objects
      → P (purge_uploads files list w).objects
  unfolding purge_uploads
  purge_uploads-objects [] w sizes keep h = h
  purge_uploads-objects (up ∷ list) w sizes keep h =
      purge_uploads-objects list (purge_upload files up w) sizes keep.1
        (purge_upload-objects up w sizes keep.0 h)

-- An instant that is before another to the microsecond is before it.
before_micros : (t u : Time) → ltb_ℤ t (to_micros u) ≡ true → ltb_ℤ t u ≡ true
unfolding to_micros
before_micros (pos m) (pos n) h = ground arith
before_micros (pos m) (negsuc n) h = ground arith
before_micros (negsuc m) (pos n) h = ground arith
before_micros (negsuc m) (negsuc n) h = ground arith

is_due_micros :
    (a b : Time) (row : UploadRow)
    → Uploads.is_due (to_micros a) (to_micros b) row ≡ true
    → Uploads.is_due a b row ≡ true
is_due_micros a b row h = elim (Option-cases row.owner_id) [
  | inl e ↦ ground (arith, before_micros row.created_at a)
  | inr (id, e) ↦ ground (arith, before_micros row.created_at b)
]

-- The uploads that the query returns are rows of the table that it found due.
list_expired-All :
    (Q : Bytes → Type 0) (a b : Time) (limit : ℕ) (db : Db) {list : List Upload}
    → All (λ (row : UploadRow). Uploads.is_due a b row ≡ true → Q row.storage_key) db.tables.uploads
    → (Uploads.list_expired a b limit db).0 ≡ ok list
    → All (λ (up : Upload). Q up.storage_key) list
unfolding Uploads.list_expired Uploads.scan_upload
list_expired-All Q a b limit db {list} h e =
    let q = Uploads.select_rows (Uploads.due_rows (to_micros a) (to_micros b) limit) in
    let (listed, same) =
      statement-ok q db (wrap-eq-ok (codes "list expired uploads: ") (statement q) db e) in
    let R = λ (row : UploadRow). Q row.storage_key in
    let due = Uploads.is_due (to_micros a) (to_micros b) in
    let rows = sort_by Uploads.older (keep_if due db.tables.uploads) in
    let kept : All R (take limit rows) = All-take R limit rows (
      All-sort_by Uploads.older R _ (
        All-kept R due _ (
          All-imp (λ row. Uploads.is_due a b row ≡ true → R row) (λ row. due row ≡ true → R row)
            (λ row keep yes. keep (is_due_micros a b row yes)) db.tables.uploads h))) in
    subst (All (λ (up : Upload). Q up.storage_key)) (inj listed)
      (All-map (λ (up : Upload). Q up.storage_key) Uploads.scan_upload (take limit rows) kept)
  where
    inj : {xs ys : List Upload} → ok xs ≡ ok ys → xs ≡ ys
    inj e = cc

-- A retention run deletes nothing from the bucket but files of uploads that are recorded and past
-- the window of their kind: what is true of the bucket, and stays true when sizes are asked for and
-- when such a file is deleted, is still true after the run, whatever the database and the bucket do.
pub purge_expired_uploads-due :
    {O : Type 0} (files : Storage O) (P : O → Type 0) (anon_ttl owned_ttl : Duration) (now : Time)
    (w : Kept O)
    → ((key : Bytes) → Preserves P (files.get_file_size key))
    → All
        (λ (row : UploadRow).
          Uploads.is_due (now -ℤ anon_ttl) (now -ℤ owned_ttl) row ≡ true
          → Preserves P (files.delete_file row.storage_key))
        w.db.tables.uploads
    → P w.objects
    → P (purge_expired_uploads files anon_ttl owned_ttl now w).1.objects
unfolding purge_expired_uploads
purge_expired_uploads-due files P anon_ttl owned_ttl now w sizes due h =
    let a = now -ℤ anon_ttl in
    let b = now -ℤ owned_ttl in
    elim (Result-cases (Uploads.list_expired a b sweep_batch_size w.db).0) [
      | inr (x, failed) ↦ rw (purge_expired_uploads, failed) h
      | inl (list, got) ↦
          rw (purge_expired_uploads, got)
            (purge_uploads-objects files P list
              (record {
                db = (Uploads.list_expired a b sweep_batch_size w.db).1;
                objects = w.objects;
              })
              sizes
              (list_expired-All (λ key. Preserves P (files.delete_file key)) a b sweep_batch_size
                w.db due got)
              h)
    ]
