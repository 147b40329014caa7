-- ===== src/Worker/Jobs/Passes.antt =====
-- The passes of the jobs of internal/worker, statement by statement.
use lapis_archive_file_servi.Prelude.{
  ℕ, ◌+◌, if◌then◌else◌, [], ◌∷◌, List, Bytes, codes, Bool, true, false, ltb, some, All, inl, inr,
  arith, ◌≡◌, ◌∙◌,
}
use lapis_archive_file_servi.Prelude.Int.{◌-ℤ◌}
use lapis_archive_file_servi.Result.{Result-cases, Error, error_text}
use lapis_archive_file_servi.Time.{Time, Duration}
use lapis_archive_file_servi.Domain.{Share, Upload}
use lapis_archive_file_servi.Store.{purge_failure, Db}
use lapis_archive_file_servi.Store.Shares
use lapis_archive_file_servi.Store.Uploads
use lapis_archive_file_servi.Store.Reach.{
  Sends, deletes_slug, deletes_key, lists_expired, lists_due, deletes_upload, marks_failed,
  records_action, records_run,
}
use lapis_archive_file_servi.Handlers.World.{Storage}
use lapis_archive_file_servi.Worker.Purge.{
  sweep_batch_size, share_snapshot, purge_share, purge_shares, purge_expired_shares,
}
use lapis_archive_file_servi.Worker.Retention.{
  Kept, mark_failed, record_purge, drop_orphan, keep_for_retry, drop_rows, delete_object,
  purge_upload, purge_uploads, purge_expired_uploads, upload_snapshot, slugs_of,
}
use lapis_archive_file_servi.Worker.Runner.{
  safe_run, Job, Machine, Event, cancelled, ticked, read_time, run_once, rounds, loop,
}
use lapis_archive_file_servi.Worker.Jobs.{db_recorder, jobs}
use lapis_archive_file_servi.Worker.Runner.History.{read_time-state}

-- What every statement keeps, every pass of the jobs keeps.
module _ (Reached : Db → Type 0) (step : (a b : Db) → Sends a b → Reached a → Reached b) where
  if-Reached : (b : Bool) (x y : Db) → Reached x → Reached y → Reached (if b then x else y)
  if-Reached true x y h k = h
  if-Reached false x y h k = k

  purge_share-Reached : (s : Share) (db : Db) → Reached db → Reached (purge_share s db)
  unfolding purge_share
  purge_share-Reached s db h =
      let db₁ = (Shares.delete_by_slug s.slug db).1 in
      let h₁ = step _ _ (deletes_slug s.slug) h in
      elim (Result-cases (Shares.delete_by_slug s.slug db).0) [
        | inr (x, e) ↦ rw (purge_share, e) h₁
        | inl (done, e) ↦
            rw (purge_share, e)
              (step _ _ (records_action (codes "purge_share") s.slug (share_snapshot s)) h₁)
      ]

  purge_shares-Reached : (list : List Share) (db : Db) → Reached db → Reached (purge_shares list db)
  unfolding purge_shares
  purge_shares-Reached [] db h = h
  purge_shares-Reached (s ∷ list) db h =
      purge_shares-Reached list (purge_share s db) (purge_share-Reached s db h)

  pub purge_expired_shares-Reached :
      (now : Time) → (db : Db) → Reached db → Reached (purge_expired_shares now db).1
  unfolding purge_expired_shares
  purge_expired_shares-Reached now db h =
      let db₁ = (Shares.list_expired now sweep_batch_size db).1 in
      let h₁ = step _ _ (lists_expired now sweep_batch_size) h in
      elim (Result-cases (Shares.list_expired now sweep_batch_size db).0) [
        | inr (x, e) ↦ rw (purge_expired_shares, e) h₁
        | inl (list, e) ↦ rw (purge_expired_shares, e) (purge_shares-Reached list db₁ h₁)
      ]

  mark_failed-Reached :
      (up : Upload) (e : Error) (db : Db) → Reached db → Reached (mark_failed up e db)
  unfolding mark_failed
  mark_failed-Reached up e db h = step _ _ (marks_failed up.storage_key (error_text e)) h

  record_purge-Reached :
      (up : Upload) (size : ℕ) (slugs : List Bytes) (db : Db)
      → Reached db
      → Reached (record_purge up size slugs db)
  unfolding record_purge
  record_purge-Reached up size slugs db h =
      step _ _
        (records_action (codes "purge_upload") up.storage_key (upload_snapshot up size slugs)) h

  drop_orphan-Reached : (up : Upload) (db : Db) → Reached db → Reached (drop_orphan up db)
  unfolding drop_orphan
  drop_orphan-Reached up db h =
      let db₁ = (Uploads.delete up.storage_key db).1 in
      let h₁ = step _ _ (deletes_upload up.storage_key) h in
      elim (Result-cases (Uploads.delete up.storage_key db).0) [
        | inr (x, e) ↦ rw (drop_orphan, e) (mark_failed-Reached up x db₁ h₁)
        | inl (done, e) ↦
            rw (drop_orphan, e)
              (if-Reached (ltb 0 up.delete_attempts) _ _
                (record_purge-Reached up up.size_bytes [] db₁ h₁) h₁)
      ]

  keep_for_retry-Reached :
      (up : Upload) (e : Error) (db : Db) → Reached db → Reached (keep_for_retry up e db)
  unfolding keep_for_retry
  keep_for_retry-Reached up e db h =
      step _ _
        (records_action (codes "purge_upload_failed") up.storage_key
          (purge_failure (up.delete_attempts + 1) (error_text e)))
        (mark_failed-Reached up e db h)

  drop_rows-Reached :
      (up : Upload) (size : ℕ) (db : Db) → Reached db → Reached (drop_rows up size db)
  unfolding drop_rows
  drop_rows-Reached up size db h =
      let (slugs, db₁) = Shares.delete_by_storage_key up.storage_key db in
      let h₁ = step _ _ (deletes_key up.storage_key) h in
      let db₂ = (Uploads.delete up.storage_key db₁).1 in
      let h₂ = step _ _ (deletes_upload up.storage_key) h₁ in
      elim (Result-cases (Uploads.delete up.storage_key db₁).0) [
        | inr (x, e) ↦ rw (drop_rows, e) (mark_failed-Reached up x db₂ h₂)
        | inl (done, e) ↦ rw (drop_rows, e) (record_purge-Reached up size (slugs_of slugs) db₂ h₂)
      ]

  module _ {O : Type 0} (files : Storage O) where
    delete_object-Reached :
        (up : Upload) (size : ℕ) (w : Kept O)
        → Reached w.db
        → Reached (delete_object files up size w).db
    unfolding delete_object
    delete_object-Reached up size w h =
        elim (Result-cases (files.delete_file up.storage_key w.objects).0) [
          | inr (x, e) ↦ rw (delete_object, e) (keep_for_retry-Reached up x w.db h)
          | inl (done, e) ↦ rw (delete_object, e) (drop_rows-Reached up size w.db h)
        ]

    purge_upload-Reached :
        (up : Upload) (w : Kept O) → Reached w.db → Reached (purge_upload files up w).db
    unfolding purge_upload
    purge_upload-Reached up w h =
        let objects = (files.get_file_size up.storage_key w.objects).1 in
        elim (Result-cases (files.get_file_size up.storage_key w.objects).0) [
          | inr (x, e) ↦
              ground (arith, drop_orphan-Reached up w.db h, mark_failed-Reached up x w.db h)
          | inl (size, e) ↦
              rw (purge_upload, e)
                (delete_object-Reached up size (record { db = w.db; objects = objects }) h)
        ]

    purge_uploads-Reached :
        (list : List Upload) (w : Kept O) → Reached w.db → Reached (purge_uploads files list w).db
    unfolding purge_uploads
    purge_uploads-Reached [] w h = h
    purge_uploads-Reached (up ∷ list) w h =
        purge_uploads-Reached list (purge_upload files up w) (purge_upload-Reached up w h)

    pub purge_expired_uploads-Reached :
        (anon_ttl owned_ttl : Duration) (now : Time) (w : Kept O)
        → Reached w.db
        → Reached (purge_expired_uploads files anon_ttl owned_ttl now w).1.db
    unfolding purge_expired_uploads
    purge_expired_uploads-Reached anon_ttl owned_ttl now w h =
        let a = now -ℤ anon_ttl in
        let b = now -ℤ owned_ttl in
        let db₁ = (Uploads.list_expired a b sweep_batch_size w.db).1 in
        let h₁ = step _ _ (lists_due a b sweep_batch_size) h in
        elim (Result-cases (Uploads.list_expired a b sweep_batch_size w.db).0) [
          | inr (x, e) ↦ rw (purge_expired_uploads, e) h₁
          | inl (list, e) ↦
              rw (purge_expired_uploads, e)
                (purge_uploads-Reached list (record { db = db₁; objects = w.objects }) h₁)
        ]

    -- A pass of a job that sends statements only, with its record.
    pub run_once-Reached :
        (job : Job (Kept O))
        → ((t : Time) (w : Kept O) → Reached w.db → Reached (job.run t w).1.db)
        → (m : Machine (Kept O)) → Reached m.state.db
        → Reached (run_once (some db_recorder) job m).state.db
    unfolding run_once
    run_once-Reached job keeps m h =
        let m₁ = (read_time m).1 in
        let m₂ = (read_time m₁).1 in
        let same : m₂.state ≡ m.state = read_time-state m₁ ∙ read_time-state m in
        let ran = keeps (read_time m₁).0 m₂.state (rw same h) in
        let m₂' : Machine (Kept O) = record m₂ { state = (job.run (read_time m₁).0 m₂.state).1 } in
        let h₃ : Reached (read_time m₂').1.state.db = rw (read_time-state m₂') ran in
        step _ _
          (records_run job.name (read_time m).0 (read_time m₂').0
            (safe_run (job.run (read_time m₁).0 m₂.state).0))
          h₃

    rounds-Reached :
        (job : Job (Kept O))
        → ((t : Time) (w : Kept O) → Reached w.db → Reached (job.run t w).1.db)
        → (events : List Event) (m : Machine (Kept O)) → Reached m.state.db
        → Reached (rounds (some db_recorder) job events m).1.state.db
    unfolding rounds
    rounds-Reached job keeps [] m h = h
    rounds-Reached job keeps (cancelled ∷ events) m h = h
    rounds-Reached job keeps (ticked ∷ events) m h =
        rounds-Reached job keeps events (run_once (some db_recorder) job m)
          (run_once-Reached job keeps m h)

    pub loop-Reached :
        (job : Job (Kept O))
        → ((t : Time) (w : Kept O) → Reached w.db → Reached (job.run t w).1.db)
        → (events : List Event) (m : Machine (Kept O)) → Reached m.state.db
        → Reached (loop (some db_recorder) job events m).1.state.db
    unfolding loop
    loop-Reached job keeps events m h =
        rounds-Reached job keeps events (run_once (some db_recorder) job m)
          (run_once-Reached job keeps m h)

  -- each of the jobs
  pub jobs-Reached :
      {O : Type 0} (files : Storage O) (anon_ttl owned_ttl : Duration)
      → All
          (λ (job : Job (Kept O)).
            (t : Time) (w : Kept O) → Reached w.db → Reached (job.run t w).1.db)
          (jobs files anon_ttl owned_ttl)
  jobs-Reached files anon_ttl owned_ttl = (
    λ t w. purge_expired_shares-Reached t w.db,
    (λ t w. purge_expired_uploads-Reached files anon_ttl owned_ttl t w, tt),
  )
