-- ===== src/Handlers/Delivered.antt =====
-- What the replies of `CreateShare` of internal/handlers/share.go speak of, step by step.
use lapis_archive_file_servi.Prelude.{
  [], Bytes, true, false, Option, none, some, All, ◌≡◌, refl, sym, subst, arith, Bool-cases, inl,
  inr,
}
use lapis_archive_file_servi.Prelude.Int.{ℤ}
use lapis_archive_file_servi.Result.{Result-cases, ok}
use lapis_archive_file_servi.Time.{to_micros, Duration, hour, times}
use lapis_archive_file_servi.Domain.{Share, User, rotate}
use lapis_archive_file_servi.Domain.Shares.{IsByte, rotate-IsIssued}
use lapis_archive_file_servi.Domain.Opens.{Opens, IsIssued-Opens, Opens-same}
use lapis_archive_file_servi.Store.{Db}
use lapis_archive_file_servi.Store.Shares
use lapis_archive_file_servi.Store.Reads.{
  as_stored, get_by_slug-create, renewed, get_by_slug-rotated,
}
use lapis_archive_file_servi.Handlers.World.{
  World, Reply, success, UploadLookup, Storage, db_shares, on_db, on_objects, on_entropy,
  read_clock,
}
use lapis_archive_file_servi.Handlers.Reshare.{
  CreateShare, Created, created_of, may_rotate, cap, cap_to, cap_to_retention, store_rotated,
  rotate_stored, rotate_share, lost_race, store_new,
}

pub read_clock-entropy : {O : Type 0} (w : World O) → (read_clock w).1.entropy ≡ w.entropy
unfolding read_clock
read_clock-entropy w = ground arith

module _ (sha256 : Bytes → Bytes) where
  -- The share that a reply speaks of is in the store, and opens with the code of the reply.
  pub record Delivered (c : Created) (db : Db) : Type 0 where
    pub share : Share
    pub stored : (Shares.get_by_slug c.slug db).0 ≡ ok share
    pub opens : Opens sha256 share c.code
    pub lasts : share.expires_at ≡ to_micros c.expires_at

  -- A call delivers if a reply of success, over a connection that then holds, is kept.
  abbrev pub Delivers : {O : Type 0} → Reply Created × World O → Type 0
  Delivers r = (c : Created) → r.0 ≡ success c → r.1.db.fates ≡ [] → Delivered c r.1.db

module _ {O : Type 0} (sha256 : Bytes → Bytes) (uploads : Option UploadLookup)
    (anon_ttl owned_ttl : Duration) (files : Storage O) where
  cap_to-Opens :
      (found : Option UploadLookup) (key : Bytes) (s : Share) (code : Bytes) (w : World O)
      → Opens sha256 s code
      → Opens sha256 (cap_to db_shares uploads anon_ttl owned_ttl found key s w).0 code
  unfolding cap_to cap
  cap_to-Opens none key s code w h = h
  cap_to-Opens (some lookup) key s code w h =
      Opens-same sha256 s _ code (ground arith) (ground arith) h

  -- a reply of success, once its share is found
  found-Delivers :
      (made : Created) (w : World O)
      → ((w.db.fates ≡ []) → Delivered sha256 made w.db)
      → Delivers sha256 (success made, w)
  found-Delivers made w h c e calm = subst (λ d. Delivered sha256 d w.db) (ground arith) (h calm)

  rotated-Delivers :
      (s : Share) (code : Bytes) (w : World O)
      → Opens sha256 s code
      → (Shares.rotate_code s w.db).0 ≡ ok tt
      → Delivers sha256 (success (created_of s code true), (on_db (Shares.rotate_code s) w).1)
  rotated-Delivers s code w h kept =
      found-Delivers (created_of s code true) (on_db (Shares.rotate_code s) w).1 λ calm.
        let (old, there, same) = get_by_slug-rotated s w.db kept calm in
        record {
          share = renewed s old;
          stored = there;
          opens = Opens-same sha256 s (renewed s old) code (ground arith) (ground arith) h;
          lasts = ground arith;
        }

  created-Delivers :
      (s : Share) (code : Bytes) (w : World O)
      → Opens sha256 s code
      → (Shares.create s w.db).0 ≡ ok tt
      → Delivers sha256 (success (created_of s code false), (on_db (Shares.create s) w).1)
  created-Delivers s code w h kept =
      found-Delivers (created_of s code false) (on_db (Shares.create s) w).1 λ calm. record {
        share = as_stored s;
        stored = get_by_slug-create s w.db kept calm;
        opens = Opens-same sha256 s (as_stored s) code refl refl h;
        lasts = refl;
      }

  cap_to-entropy :
      (found : Option UploadLookup) (key : Bytes) (s : Share) (w : World O)
      → (cap_to db_shares uploads anon_ttl owned_ttl found key s w).1.entropy ≡ w.entropy
  unfolding cap_to
  cap_to-entropy none key s w = refl
  cap_to-entropy (some lookup) key s w = ground arith

  store_rotated-Delivers :
      (s : Share) (code : Bytes) (w : World O)
      → Opens sha256 s code
      → Delivers sha256 (store_rotated db_shares uploads anon_ttl owned_ttl sha256 files s code w)
  unfolding store_rotated cap_to_retention
  store_rotated-Delivers s code w h =
      let (capped, w₁) = cap_to db_shares uploads anon_ttl owned_ttl uploads s.storage_key s w in
      let h₁ = cap_to-Opens uploads s.storage_key s code w h in
      elim (Result-cases (Shares.rotate_code capped w₁.db).0) [
        | inr (x, fails) ↦ rw (store_rotated, fails) (λ c e calm. cc)
        | inl (done, kept) ↦ rw (store_rotated, kept) (rotated-Delivers capped code w₁ h₁ kept)
      ]

  rotate_stored-Delivers :
      (s : Share) (ttl_hours : ℤ) (w : World O)
      → All IsByte w.entropy
      → Delivers sha256
          (rotate_stored db_shares uploads anon_ttl owned_ttl sha256 files s ttl_hours w)
  unfolding rotate_stored
  rotate_stored-Delivers s ttl_hours w bytes =
      let w₁ = (on_objects (files.get_file_size s.storage_key) w).1 in
      let (t, w₂) = read_clock w₁ in
      let bytes₂ : All IsByte w₂.entropy = subst (All IsByte) (sym (read_clock-entropy w₁)) bytes in
      let draw = rotate sha256 s (times ttl_hours hour) t in
      elim (Result-cases (files.get_file_size s.storage_key w.objects).0) [
        | inr (x, fails) ↦ rw (rotate_stored, fails) (λ c e calm. ground arith)
        | inl (size, sized) ↦ elim (Result-cases (draw w₂.entropy).0) [
          | inr (x, fails) ↦ rw (rotate_stored, sized, fails) (λ c e calm. ground arith)
          | inl ((s', code), rotated) ↦
              let issued =
                rotate-IsIssued sha256 s (times ttl_hours hour) t w₂.entropy bytes₂ rotated in
              rw (rotate_stored, sized, rotated)
                (store_rotated-Delivers s' code (on_entropy draw w₂).1
                  (IsIssued-Opens sha256 t (times ttl_hours hour) s' code issued.0))
        ]
      ]

  pub rotate_share-Delivers :
      (user : Option User) (s : Share) (req : CreateShare) (w : World O)
      → All IsByte w.entropy
      → Delivers sha256
          (rotate_share db_shares uploads anon_ttl owned_ttl sha256 files user s req w)
  unfolding rotate_share
  rotate_share-Delivers user s req w bytes = elim (Bool-cases (may_rotate user s.owner_id)) [
    | inl may ↦
        rw (rotate_share, may)
          (rotate_stored-Delivers (record s { recipient_email = req.recipient_email }) req.ttl_hours
            w bytes)
    | inr may_not ↦ rw (rotate_share, may_not) (λ c e calm. cc)
  ]

  lost_race-Delivers :
      (user : Option User) (req : CreateShare) (w : World O)
      → All IsByte w.entropy
      → Delivers sha256 (lost_race db_shares uploads anon_ttl owned_ttl sha256 files user req w)
  unfolding lost_race
  lost_race-Delivers user req w bytes =
      let w₁ = (on_db (Shares.get_by_storage_key req.storage_key) w).1 in
      elim (Result-cases (Shares.get_by_storage_key req.storage_key w.db).0) [
        | inr (x, fails) ↦ rw (lost_race, fails) (λ c e calm. cc)
        | inl (s, got) ↦ rw (lost_race, got) (rotate_share-Delivers user s req w₁ bytes)
      ]

  pub store_new-Delivers :
      (user : Option User) (req : CreateShare) (s : Share) (code : Bytes) (w : World O)
      → All IsByte w.entropy
      → Opens sha256 s code
      → Delivers sha256
          (store_new db_shares uploads anon_ttl owned_ttl sha256 files user req s code w)
  unfolding store_new cap_to_retention
  store_new-Delivers user req s code w bytes h =
      let (capped, w₁) = cap_to db_shares uploads anon_ttl owned_ttl uploads req.storage_key s w in
      let h₁ = cap_to-Opens uploads req.storage_key s code w h in
      let bytes₁ : All IsByte w₁.entropy =
        subst (All IsByte) (sym (cap_to-entropy uploads req.storage_key s w)) bytes in
      elim (Result-cases (Shares.create capped w₁.db).0) [
        | inr (x, fails) ↦
            rw (store_new, fails)
              (lost_race-Delivers user req (on_db (Shares.create capped) w₁).1 bytes₁)
        | inl (done, kept) ↦ rw (store_new, kept) (created-Delivers capped code w₁ h₁ kept)
      ]
