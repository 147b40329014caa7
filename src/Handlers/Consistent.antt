-- ===== src/Handlers/Consistent.antt =====
-- `CreateShare` of internal/handlers/share.go and the consistency of the tables, handler by handler,
-- over any share store with the laws that the handlers rely on.
use lapis_archive_file_servi.Prelude.{
  ℕ, Bytes, Option, none, some, ◌≡◌, sym, subst, arith, inl, inr,
}
use lapis_archive_file_servi.Prelude.Int.{ℤ}
use lapis_archive_file_servi.Result.{Result-cases, ok}
use lapis_archive_file_servi.Time.{Time, Duration, hour, times}
use lapis_archive_file_servi.Storagekey.{split}
use lapis_archive_file_servi.Domain.{Share, Upload, User, Tape, new_share, rotate}
use lapis_archive_file_servi.Domain.Shares.{rotate-inverse, new_share-inverse, drawn-IsSlug}
use lapis_archive_file_servi.Store.Invariant.{SoundShare, IsConsistent}
use lapis_archive_file_servi.Handlers.World.{
  World, ShareStore, UploadLookup, Storage, on_db, on_objects, on_entropy, read_clock,
}
use lapis_archive_file_servi.Handlers.Laws.{IsStore, IsLookup}
use lapis_archive_file_servi.Handlers.Reshare.{
  CreateShare, owner_of, window_of, cap, cap_to, cap_to_retention, store_rotated, rotate_stored,
  rotate_share, lost_race, store_new, share_new, share_file, create_share,
}
use lapis_archive_file_servi.Handlers.ReadOnly.{read_clock-db}

abbrev pub Consistent : {O : Type 0} → World O → Type 0
Consistent w = IsConsistent w.db.tables

abbrev pub IsLookups : Option UploadLookup → Type 0
IsLookups none = Unit
IsLookups (some lookup) = IsLookup lookup

rotate-SoundShare :
    (sha256 : Bytes → Bytes) (s : Share) (ttl : Duration) (now : Time) (tape : Tape) {s' : Share}
    {code : Bytes}
    → SoundShare s
    → (rotate sha256 s ttl now tape).0 ≡ ok (s', code)
    → SoundShare s'
rotate-SoundShare sha256 s ttl now tape {s'} {code} good e =
    let (salt, room, drawn, made) = rotate-inverse sha256 s ttl now tape e in
    subst SoundShare (sym made) (good.0, omega arith, omega (arith, room))

new_share-SoundShare :
    (sha256 : Bytes → Bytes) (key name : Bytes) (size : ℕ) (owner email to : Bytes) (ttl : Duration)
    (now : Time) (tape : Tape) {s : Share} {code : Bytes}
    → (new_share sha256 key name size owner email to ttl now tape).0 ≡ ok (s, code)
    → SoundShare s
new_share-SoundShare sha256 key name size owner email to ttl now tape e =
    let (slug, salt, picked, drawn, made) =
      new_share-inverse sha256 key name size owner email to ttl now tape e in
    subst SoundShare (sym made) (drawn-IsSlug tape picked, omega arith, omega arith)

cap-SoundShare :
    (window : Duration) (up : Upload) (s : Share) → SoundShare s → SoundShare (cap window up s)
unfolding cap
cap-SoundShare window up s good = ground arith

module _ {O : Type 0} (store : ShareStore) (uploads : Option UploadLookup)
    (anon_ttl owned_ttl : Duration) (laws : IsStore store) (lookups : IsLookups uploads) where
  cap_to_sound :
      (found : Option UploadLookup) (key : Bytes) (s : Share) (w : World O)
      → IsLookups found
      → SoundShare s
      → Consistent w
      → SoundShare (cap_to store uploads anon_ttl owned_ttl found key s w).0
        × Consistent (cap_to store uploads anon_ttl owned_ttl found key s w).1
  unfolding cap_to
  cap_to_sound none key s w l good h = (good, h)
  cap_to_sound (some lookup) key s w l good h = elim (Result-cases (lookup key w.db).0) [
    | inl (up, got) ↦
        rw (cap_to, got)
          (cap-SoundShare (window_of anon_ttl owned_ttl up.owner_id) up s good, l key w.db h)
    | inr (x, failed) ↦ rw (cap_to, failed) (good, l key w.db h)
  ]

  cap_to_retention_sound :
      (key : Bytes) (s : Share) (w : World O)
      → SoundShare s
      → Consistent w
      → SoundShare (cap_to_retention store uploads anon_ttl owned_ttl key s w).0
        × Consistent (cap_to_retention store uploads anon_ttl owned_ttl key s w).1
  unfolding cap_to_retention
  cap_to_retention_sound key s w = cap_to_sound uploads key s w lookups

  module _ (sha256 : Bytes → Bytes) (files : Storage O) where
    abbrev Keeps : {A : Type 0} → (World O → A × World O) → Type 0
    Keeps m = (w : World O) → Consistent w → Consistent (m w).1

    store_rotated-Keeps :
        (s : Share) (code : Bytes)
        → SoundShare s
        → Keeps (store_rotated store uploads anon_ttl owned_ttl sha256 files s code)
    unfolding store_rotated
    store_rotated-Keeps s code good w h =
        let (capped, w₁) = cap_to_retention store uploads anon_ttl owned_ttl s.storage_key s w in
        let (sound, h₁) = cap_to_retention_sound s.storage_key s w good h in
        ground (arith, laws.rotates capped sound w₁.db h₁)

    rotate_stored-Keeps :
        (s : Share) (ttl_hours : ℤ)
        → SoundShare s
        → Keeps (rotate_stored store uploads anon_ttl owned_ttl sha256 files s ttl_hours)
    unfolding rotate_stored
    rotate_stored-Keeps s ttl_hours good w h =
        let w₁ = (on_objects (files.get_file_size s.storage_key) w).1 in
        let (t, w₂) = read_clock w₁ in
        let h₂ : Consistent w₂ = subst (λ db. IsConsistent db.tables) (sym (read_clock-db w₁)) h in
        elim (Result-cases (files.get_file_size s.storage_key w.objects).0) [
          | inr (x, failed) ↦ rw (rotate_stored, failed) h
          | inl (bytes, sized) ↦
              elim (Result-cases (rotate sha256 s (times ttl_hours hour) t w₂.entropy).0) [
                | inr (x, failed) ↦ rw (rotate_stored, sized, failed) h₂
                | inl ((s', code), rotated) ↦
                    rw (rotate_stored, sized, rotated)
                      (store_rotated-Keeps s' code
                        (rotate-SoundShare sha256 s (times ttl_hours hour) t w₂.entropy good
                          rotated)
                        (on_entropy (rotate sha256 s (times ttl_hours hour) t) w₂).1 h₂)
              ]
        ]

    rotate_share-Keeps :
        (user : Option User) (s : Share) (req : CreateShare)
        → SoundShare s
        → Keeps (rotate_share store uploads anon_ttl owned_ttl sha256 files user s req)
    unfolding rotate_share
    rotate_share-Keeps user s req good w h = ground (
      arith,
      rotate_stored-Keeps (record s { recipient_email = req.recipient_email }) req.ttl_hours good w
          h,
    )

    lost_race-Keeps :
        (user : Option User) (req : CreateShare)
        → Keeps (lost_race store uploads anon_ttl owned_ttl sha256 files user req)
    unfolding lost_race
    lost_race-Keeps user req w h =
        let w₁ = (on_db (store.get_by_storage_key req.storage_key) w).1 in
        let h₁ : Consistent w₁ = laws.gets req.storage_key w.db h in
        elim (Result-cases (store.get_by_storage_key req.storage_key w.db).0) [
          | inr (x, failed) ↦ rw (lost_race, failed) h₁
          | inl (s, got) ↦
              rw (lost_race, got)
                (rotate_share-Keeps user s req (laws.sound req.storage_key w.db {s = s} h got) w₁
                  h₁)
        ]

    store_new-Keeps :
        (user : Option User) (req : CreateShare) (s : Share) (code : Bytes)
        → SoundShare s
        → Keeps (store_new store uploads anon_ttl owned_ttl sha256 files user req s code)
    unfolding store_new
    store_new-Keeps user req s code good w h =
        let (capped, w₁) = cap_to_retention store uploads anon_ttl owned_ttl req.storage_key s w in
        let (sound, h₁) = cap_to_retention_sound req.storage_key s w good h in
        let w₂ = (on_db (store.create capped) w₁).1 in
        let h₂ : Consistent w₂ = laws.creates capped sound w₁.db h₁ in
        elim (Result-cases (store.create capped w₁.db).0) [
          | inr (x, failed) ↦ rw (store_new, failed) (lost_race-Keeps user req w₂ h₂)
          | inl (done, stored) ↦ rw (store_new, stored) h₂
        ]

    share_new-Keeps :
        (user : Option User) (req : CreateShare)
        → Keeps (share_new store uploads anon_ttl owned_ttl sha256 files user req)
    unfolding share_new
    share_new-Keeps user req w h =
        let w₁ = (on_objects (files.get_file_size req.storage_key) w).1 in
        let (t, w₂) = read_clock w₁ in
        let h₂ : Consistent w₂ = subst (λ db. IsConsistent db.tables) (sym (read_clock-db w₁)) h in
        let (id, email) = owner_of user req.owner_email in
        let name = (split req.storage_key).1 in
        elim (Result-cases (files.get_file_size req.storage_key w.objects).0) [
          | inr (x, failed) ↦ rw (share_new, failed) h
          | inl (bytes, sized) ↦
              let draw =
                new_share sha256 req.storage_key name bytes id email req.recipient_email
                  (times req.ttl_hours hour) t in
              elim (Result-cases (draw w₂.entropy).0) [
                | inr (x, failed) ↦ rw (share_new, sized, failed) h₂
                | inl ((s, code), drawn) ↦
                    rw (share_new, sized, drawn)
                      (store_new-Keeps user req s code
                        (new_share-SoundShare sha256 req.storage_key name bytes id email
                          req.recipient_email (times req.ttl_hours hour) t w₂.entropy drawn)
                        (on_entropy draw w₂).1 h₂)
              ]
        ]

    share_file-Keeps :
        (user : Option User) (req : CreateShare)
        → Keeps (share_file store uploads anon_ttl owned_ttl sha256 files user req)
    unfolding share_file
    share_file-Keeps user req w h =
        let w₁ = (on_db (store.get_by_storage_key req.storage_key) w).1 in
        let h₁ : Consistent w₁ = laws.gets req.storage_key w.db h in
        elim (Result-cases (store.get_by_storage_key req.storage_key w.db).0) [
          | inr (x, failed) ↦ ground (arith, share_new-Keeps user req w₁ h₁)
          | inl (s, got) ↦
              rw (share_file, got)
                (rotate_share-Keeps user s req (laws.sound req.storage_key w.db {s = s} h got) w₁
                  h₁)
        ]

    -- For a share store and an upload lookup with their laws: whatever the request, whoever sends
    -- it, and however the database, the bucket and the random source behave, `POST /shares` leaves
    -- the tables consistent if they were.
    pub create_share-Keeps :
        (user : Option User) (body : Option CreateShare) (w : World O)
        → Consistent w
        → Consistent (create_share store uploads anon_ttl owned_ttl sha256 files user body w).1
    unfolding create_share
    create_share-Keeps user none w h = h
    create_share-Keeps user (some req) w h = ground (arith, share_file-Keeps user req w h)
