-- ===== src/Handlers/Issue.antt =====
-- `CreateShare` of internal/handlers/share.go from end to end: its reply and what the store then has.
use lapis_archive_file_servi.Prelude.{
  [], Bytes, ◌||◌, ◌⊎◌, ltb, length, Option, none, some, All, ◌≡◌, refl, sym, subst, arith,
  Bool-cases, inl, inr,
}
use lapis_archive_file_servi.Prelude.Int.{◌≤ℤ◌}
use lapis_archive_file_servi.Result.{
  Error, Result-cases, ok, err, expired, wrong_code, invalid_slug, not_found, share_limit,
  object_not_found, no_such_upload, failed,
}
use lapis_archive_file_servi.Time.{to_micros, Time, Duration, hour, times}
use lapis_archive_file_servi.Storagekey.{split}
use lapis_archive_file_servi.Domain.{Share, User, new_share, verify}
use lapis_archive_file_servi.Domain.Codes.{Spells}
use lapis_archive_file_servi.Domain.Shares.{IsByte, new_share-IsIssued, new_share-rest}
use lapis_archive_file_servi.Domain.Opens.{IsIssued-Opens, verify-Opens}
use lapis_archive_file_servi.Store.Shares
use lapis_archive_file_servi.Handlers.World.{
  World, success, UploadLookup, Storage, db_shares, on_db, on_objects, on_entropy, read_clock,
}
use lapis_archive_file_servi.Handlers.Keys.{valid_key}
use lapis_archive_file_servi.Handlers.Reshare.{
  max_email_length, CreateShare, Created, owner_of, share_new, share_file, create_share,
}
use lapis_archive_file_servi.Handlers.Delivered.{
  rotate_share-Delivers, store_new-Delivers, read_clock-entropy, Delivers,
}

module _ {O : Type 0} (sha256 : Bytes → Bytes) (uploads : Option UploadLookup)
    (anon_ttl owned_ttl : Duration) (files : Storage O) where
  share_new-Delivers :
      (user : Option User) (req : CreateShare) (w : World O)
      → All IsByte w.entropy
      → Delivers sha256 (share_new db_shares uploads anon_ttl owned_ttl sha256 files user req w)
  unfolding share_new
  share_new-Delivers user req w bytes =
      let w₁ = (on_objects (files.get_file_size req.storage_key) w).1 in
      let (t, w₂) = read_clock w₁ in
      let bytes₂ : All IsByte w₂.entropy = subst (All IsByte) (sym (read_clock-entropy w₁)) bytes in
      let (id, email) = owner_of user req.owner_email in
      let name = (split req.storage_key).1 in
      let ttl = times req.ttl_hours hour in
      elim (Result-cases (files.get_file_size req.storage_key w.objects).0) [
        | inr (x, fails) ↦ rw (share_new, fails) (λ c e calm. ground arith)
        | inl (size, sized) ↦
            let draw =
              new_share sha256 req.storage_key name size id email req.recipient_email ttl t in
            elim (Result-cases (draw w₂.entropy).0) [
              | inr (x, fails) ↦ rw (share_new, sized, fails) (λ c e calm. cc)
              | inl ((s, code), drawn) ↦
                  let issued =
                    new_share-IsIssued sha256 req.storage_key name size id email req.recipient_email
                      ttl t w₂.entropy bytes₂ drawn in
                  rw (share_new, sized, drawn)
                    (store_new-Delivers sha256 uploads anon_ttl owned_ttl files user req s code
                      (on_entropy draw w₂).1
                      (new_share-rest sha256 req.storage_key name size id email req.recipient_email
                        ttl t w₂.entropy bytes₂)
                      (IsIssued-Opens sha256 t ttl s code issued.0))
            ]
      ]

  -- what `CreateShare` does when the lookup fails, and after its checks
  share_file-miss :
      (user : Option User) (req : CreateShare) (w : World O) (x : Error)
      → (Shares.get_by_storage_key req.storage_key w.db).0 ≡ err x
      → (share_file db_shares uploads anon_ttl owned_ttl sha256 files user req w
          ≡ share_new db_shares uploads anon_ttl owned_ttl sha256 files user req
              (on_db (Shares.get_by_storage_key req.storage_key) w).1)
        ⊎ ((c : Created)
            → ¬ (
                (share_file db_shares uploads anon_ttl owned_ttl sha256 files user req w).0
                ≡ success c))
  unfolding share_file
  share_file-miss user req w not_found e = inl (rw (share_file, e) refl)
  share_file-miss user req w expired e = inr (rw (share_file, e) λ c h. cc)
  share_file-miss user req w wrong_code e = inr (rw (share_file, e) λ c h. cc)
  share_file-miss user req w invalid_slug e = inr (rw (share_file, e) λ c h. cc)
  share_file-miss user req w share_limit e = inr (rw (share_file, e) λ c h. cc)
  share_file-miss user req w object_not_found e = inr (rw (share_file, e) λ c h. cc)
  share_file-miss user req w no_such_upload e = inr (rw (share_file, e) λ c h. cc)
  share_file-miss user req w (failed message) e = inr (rw (share_file, e) λ c h. cc)

  share_file-Delivers :
      (user : Option User) (req : CreateShare) (w : World O)
      → All IsByte w.entropy
      → Delivers sha256 (share_file db_shares uploads anon_ttl owned_ttl sha256 files user req w)
  unfolding share_file
  share_file-Delivers user req w bytes =
      let w₁ = (on_db (Shares.get_by_storage_key req.storage_key) w).1 in
      elim (Result-cases (Shares.get_by_storage_key req.storage_key w.db).0) [
        | inl (s, got) ↦
            rw (share_file, got)
              (rotate_share-Delivers sha256 uploads anon_ttl owned_ttl files user s req w₁ bytes)
        | inr (x, missed) ↦ elim (share_file-miss user req w x missed) [
          | inl same ↦ subst (Delivers sha256) (sym same) (share_new-Delivers user req w₁ bytes)
          | inr fails ↦ λ c e calm. absurd (fails c e)
        ]
      ]

  create_share-cases :
      (user : Option User) (req : CreateShare) (w : World O)
      → (create_share db_shares uploads anon_ttl owned_ttl sha256 files user (some req) w
          ≡ share_file db_shares uploads anon_ttl owned_ttl sha256 files user req w)
        ⊎ ((c : Created)
            → ¬ (
                (create_share db_shares uploads anon_ttl owned_ttl sha256 files user (some req) w).0
                ≡ success c))
  unfolding create_share
  create_share-cases user req w = elim (Bool-cases (valid_key req.storage_key)) [
    | inr invalid ↦ inr (rw (create_share, invalid) λ c h. cc)
    | inl valid ↦
        elim (Bool-cases (
          ltb max_email_length (length req.recipient_email)
          || ltb max_email_length (length req.owner_email))) [
            | inl long ↦ inr (rw (create_share, valid, long) λ c h. cc)
            | inr short ↦ inl (rw (create_share, valid, short) refl)
          ]
  ]

  create_share-Delivers :
      (user : Option User) (body : Option CreateShare) (w : World O)
      → All IsByte w.entropy
      → Delivers sha256 (create_share db_shares uploads anon_ttl owned_ttl sha256 files user body w)
  unfolding create_share
  create_share-Delivers user none w bytes = λ c e calm. cc
  create_share-Delivers user (some req) w bytes = elim (create_share-cases user req w) [
    | inl same ↦ subst (Delivers sha256) (sym same) (share_file-Delivers user req w bytes)
    | inr fails ↦ λ c e calm. absurd (fails c e)
  ]

-- The code that POST /shares replies with opens the share: over a connection that holds after the
-- reply, the store has a share of this slug, whose expiry is that of the reply rounded down to the
-- microsecond, and until this stored expiry it opens for whatever spells the code; for a new share,
-- a rotation, and a lost race alike. It takes that the random source yields bytes.
pub create_share-success :
    {O : Type 0} (sha256 : Bytes → Bytes) (uploads : Option UploadLookup)
    (anon_ttl owned_ttl : Duration) (files : Storage O) (user : Option User)
    (body : Option CreateShare) (w : World O) {c : Created} (typed : Bytes) (t : Time)
    → let after = create_share db_shares uploads anon_ttl owned_ttl sha256 files user body w in
      All IsByte w.entropy
      → after.0 ≡ success c
      → after.1.db.fates ≡ []
      → (s : Share) × ((Shares.get_by_slug c.slug after.1.db).0 ≡ ok s)
        × (s.expires_at ≡ to_micros c.expires_at)
        × (t ≤ℤ s.expires_at → Spells c.code typed → verify sha256 s t typed ≡ ok tt)
create_share-success sha256 uploads anon_ttl owned_ttl files user body w {c} typed t bytes e calm =
    let d =
      create_share-Delivers sha256 uploads anon_ttl owned_ttl files user body w bytes c e calm in
    (
      d.share,
      d.stored,
      d.lasts,
      λ live spelled. verify-Opens sha256 d.share c.code typed t d.opens live spelled,
    )
