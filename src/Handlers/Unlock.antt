-- ===== src/Handlers/Unlock.antt =====
-- `UnlockShare` of internal/handlers/share.go: who gets a URL.
use lapis_archive_file_servi.Prelude.{
  Bytes, Bool, true, Option, none, some, ◌≡◌, refl, arith, Bool-cases, inl, inr,
}
use lapis_archive_file_servi.Result.{Error, Result-cases, ok}
use lapis_archive_file_servi.Domain.{Share, validate_slug, verify}
use lapis_archive_file_servi.Domain.Slugs.{IsSlug, validate_slug-IsSlug}
use lapis_archive_file_servi.Handlers.World.{World, success, ShareStore, Storage, on_db, read_clock}
use lapis_archive_file_servi.Handlers.Share.{
  Unlock, Unlocked, load_failure, Loaded-cases, loaded, replied, load_share, open_share, try_code,
  unlock_admitted, allow_unlock, unlock_share,
}

load_failure-success : {A : Type 0} (x : Error) {a : A} → ¬ (load_failure x ≡ success a)
load_failure-success x {a} e = ground arith

module _ {O : Type 0} (store : ShareStore) (sha256 : Bytes → Bytes) (files : Storage O) where
  -- What stands behind a URL that was given out: in the state that the limiters left, the store had
  -- the share, the code was verified at an instant of the clock, and the URL was signed for its file.
  pub record Opened (slug : Bytes) (req : Unlock) (w : World O) (u : Unlocked) : Type 0 where
    pub share : Share
    pub stored : (store.get_by_slug slug w.db).0 ≡ ok share
    pub verified :
        verify sha256 share (read_clock (on_db (store.get_by_slug slug) w).1).0 req.code ≡ ok tt
    pub signed :
        (files.get_presigned_url share.storage_key req.download
          (read_clock (on_db (store.get_by_slug slug) w).1).1.objects).0
        ≡ ok u.url
    pub named : (u.file_name ≡ share.file_name) × (u.file_size ≡ share.file_size)

  open_share-success :
      (s : Share) (download : Bool) (w : World O) {u : Unlocked}
      → (open_share store sha256 files s download w).0 ≡ success u
      → ((files.get_presigned_url s.storage_key download w.objects).0 ≡ ok u.url)
        × (u.file_name ≡ s.file_name)
        × (u.file_size ≡ s.file_size)
  unfolding open_share
  open_share-success s download w {u} e =
      elim (Result-cases (files.get_presigned_url s.storage_key download w.objects).0) [
        | inl (url, got) ↦ ground arith
        | inr (x, failed) ↦ ground arith
      ]

  try_code-success :
      (s : Share) (req : Unlock) (w : World O) {u : Unlocked}
      → (try_code store sha256 files s req w).0 ≡ success u
      → (verify sha256 s (read_clock w).0 req.code ≡ ok tt)
        × ((files.get_presigned_url s.storage_key req.download (read_clock w).1.objects).0
            ≡ ok u.url)
        × (u.file_name ≡ s.file_name)
        × (u.file_size ≡ s.file_size)
  unfolding try_code
  try_code-success s req w {u} e = elim (Result-cases (verify sha256 s (read_clock w).0 req.code)) [
    | inl (right, verified) ↦
        ground (arith, open_share-success s req.download (read_clock w).1 {u = u})
    | inr (x, wrong) ↦ ground arith
  ]

  load_share-loaded :
      {A : Type 0} (slug : Bytes) (w : World O) {s : Share}
      → (load_share store {A = A} slug w).0 ≡ loaded s
      → ((store.get_by_slug slug w.db).0 ≡ ok s)
        × ((load_share store {A = A} slug w).1 ≡ (on_db (store.get_by_slug slug) w).1)
  unfolding load_share
  load_share-loaded slug w {s} e = elim (Result-cases (validate_slug slug)) [
    | inr (x, fails) ↦ ground arith
    | inl (valid, passes) ↦ elim (Result-cases (store.get_by_slug slug w.db).0) [
      | inl (s', got) ↦ (ground arith, ground arith)
      | inr (x, failed) ↦ ground arith
    ]
  ]

  load_share-replied :
      {A : Type 0} (slug : Bytes) (w : World O) {a : A}
      → ¬ ((load_share store {A = A} slug w).0 ≡ replied (success a))
  unfolding load_share
  load_share-replied slug w {a} e = elim (Result-cases (validate_slug slug)) [
    | inr (x, fails) ↦ ground arith
    | inl (valid, passes) ↦ elim (Result-cases (store.get_by_slug slug w.db).0) [
      | inl (s', got) ↦ ground arith
      | inr (x, failed) ↦ load_failure-success x {a = a} (ground arith)
    ]
  ]

  unlock_admitted-success :
      (slug : Bytes) (body : Option Unlock) (w : World O) {u : Unlocked}
      → (unlock_admitted store sha256 files slug body w).0 ≡ success u
      → (req : Unlock) × (body ≡ some req) × Opened slug req w u
  unfolding unlock_admitted
  unlock_admitted-success slug none w e = cc
  unlock_admitted-success slug (some req) w {u} e =
      elim (Loaded-cases (load_share store {A = Unlocked} slug w).0) [
        | inl (s, got) ↦
            let (stored, after) = load_share-loaded slug w got in
            let (verified, signed, named, sized) =
              try_code-success s req (on_db (store.get_by_slug slug) w).1 {u = u} (ground arith) in
            (
              req,
              refl,
              record {
                share = s;
                stored = stored;
                verified = verified;
                signed = signed;
                named = (named, sized);
              },
            )
        | inr (reply, failed) ↦ absurd (load_share-replied slug w {a = u} (ground arith))
      ]

  -- A URL is given out only to a request with a valid slug and a body that both limiters admitted,
  -- for the file of the share that the store has under this slug, and after the code was verified
  -- against this share at the instant that the clock then showed.
  pub unlock_share-success :
      (client slug : Bytes) (body : Option Unlock) (w : World O) {u : Unlocked}
      → (unlock_share store sha256 files client slug body w).0 ≡ success u
      → IsSlug slug
        × ((allow_unlock slug client w).0 ≡ true)
        × ((req : Unlock) × (body ≡ some req) × Opened slug req (allow_unlock slug client w).1 u)
  unfolding unlock_share unlock_admitted
  unlock_share-success client slug body w {u} e = elim (Result-cases (validate_slug slug)) [
    | inl (valid, passes) ↦ elim (Bool-cases (allow_unlock slug client w).0) [
      | inl admitted ↦ (
        (validate_slug-IsSlug slug).0 (ground arith),
        admitted,
        unlock_admitted-success slug body (allow_unlock slug client w).1 {u = u} (ground arith),
      )
      | inr refused ↦ ground arith
    ]
    | inr (x, fails) ↦ ground arith
  ]
