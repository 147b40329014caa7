-- ===== src/Handlers/Race.antt =====
-- Two requests to `CreateShare` of internal/handlers/share.go that share one file again, with their
-- statements one between the other's: both have read the share before either stores its rotation.
use lapis_archive_file_servi.Prelude.{
  ≟_iff, ℕ, ◌+◌, [], ◌∷◌, Bytes, true, Bool, List, find_if, Option, some, any_of, ◌≡◌, sym, ap, ◌∙◌,
  subst, arith, Bool-cases, inl, inr,
}
use lapis_archive_file_servi.Prelude.Int.{ℤ}
use lapis_archive_file_servi.Result.{Result-cases, ok}
use lapis_archive_file_servi.Time.{Duration, hour, times}
use lapis_archive_file_servi.Domain.{Upload, Share, User, rotate, hash_code}
use lapis_archive_file_servi.Domain.Shares.{rotate-inverse}
use lapis_archive_file_servi.Store.{ShareRow, Db}
use lapis_archive_file_servi.Store.Shares
use lapis_archive_file_servi.Store.Uploads
use lapis_archive_file_servi.Store.Reads.{get_by_storage_key-ok}
use lapis_archive_file_servi.Store.Race.{stays_calm, second_stays}
use lapis_archive_file_servi.Store.Statements.{statement_calm}
use lapis_archive_file_servi.Handlers.World.{
  UploadLookup, World, success, Storage, db_shares, on_objects, on_entropy, read_clock,
}
use lapis_archive_file_servi.Handlers.ReadOnly.{read_clock-db}
use lapis_archive_file_servi.Handlers.Reshare.{
  CreateShare, Created, created_of, may_rotate, window_of, cap, cap_to, cap_to_retention,
  store_rotated, rotate_stored, rotate_share,
}

get_calm : (key : Bytes) (db : Db) → db.fates ≡ [] → (Uploads.get_by_storage_key key db).1 ≡ db
unfolding Uploads.get_by_storage_key
get_calm key db calm =
    ground (arith, statement_calm (Uploads.select_one (Uploads.has_key key)) db calm)

-- A share as it is but for what a rotation changes, with `count` codes, of which the last is `code`.
pub record Rotated (sha256 : Bytes → Bytes) (s : Share) (count : ℕ) (code : Bytes) (s' : Share)
    : Type 0 where
  pub slug : s'.slug ≡ s.slug
  pub counted : s'.share_count ≡ count
  pub salt : Bytes
  pub hashed : s'.code_hash ≡ hash_code sha256 salt code

cap-Rotated :
    {sha256 : Bytes → Bytes} (window : Duration) (up : Upload) (s old : Share) (count : ℕ)
    (code : Bytes)
    → Rotated sha256 old count code s
    → Rotated sha256 old count code (cap window up s)
unfolding cap
cap-Rotated window up s old count code r = record {
  slug = ground (arith, r.slug);
  counted = ground (arith, r.counted);
  salt = r.salt;
  hashed = ground (arith, r.hashed);
}

any_of-found :
    (p : ShareRow → Bool) (slug : Bytes) (rows : List ShareRow) (row : ShareRow)
    → find_if p rows ≡ some row
    → row.slug ≡ slug
    → any_of (Shares.has_slug slug) rows ≡ true
unfolding any_of find_if
any_of-found p slug [] row found is = let clash : ⊥ = ground arith in absurd clash
any_of-found p slug (x ∷ rows) row found is = elim (Bool-cases (p x)) [
  | inl e ↦ ground (arith, ≟_iff x.slug slug)
  | inr e ↦ ground (arith, any_of-found p slug rows row)
]

abbrev pub lookup : Option UploadLookup
lookup = some Uploads.get_by_storage_key

module _ {O : Type 0} (sha256 : Bytes → Bytes) (anon_ttl owned_ttl : Duration)
    (files : Storage O) where
  -- What a reply of success has stored.
  record Stores (s : Share) (db after : Db) (c : Created) : Type 0 where
    pub share : Share
    pub rotated : Rotated sha256 s (s.share_count + 1) c.code share
    pub replied : c.share_count ≡ s.share_count + 1
    pub written : after ≡ (Shares.rotate_code share db).1
    pub kept : (Shares.rotate_code share db).0 ≡ ok tt

  cap_to_retention-Rotated :
      (key : Bytes) (s old : Share) (count : ℕ) (code : Bytes) (w : World O)
      → w.db.fates ≡ []
      → Rotated sha256 old count code s
      → Rotated sha256 old count code
          (cap_to_retention db_shares lookup anon_ttl owned_ttl key s w).0
        × ((cap_to_retention db_shares lookup anon_ttl owned_ttl key s w).1.db ≡ w.db)
  unfolding cap_to_retention cap_to
  cap_to_retention-Rotated key s old count code w calm r =
      elim (Result-cases (Uploads.get_by_storage_key key w.db).0) [
        | inl (up, got) ↦ (
          rw (cap_to_retention, cap_to, got)
              (cap-Rotated (window_of anon_ttl owned_ttl up.owner_id) up s old count code r),
          ground (arith, get_calm key w.db calm),
        )
        | inr (x, failed) ↦
            (rw (cap_to_retention, cap_to, failed) r, ground (arith, get_calm key w.db calm))
      ]

  store_rotated-Stores :
      (s old : Share) (code : Bytes) (w : World O) {c : Created}
      → w.db.fates ≡ []
      → Rotated sha256 old (old.share_count + 1) code s
      → (store_rotated db_shares lookup anon_ttl owned_ttl sha256 files s code w).0 ≡ success c
      → Stores old w.db
          (store_rotated db_shares lookup anon_ttl owned_ttl sha256 files s code w).1.db
          c
  unfolding store_rotated
  store_rotated-Stores s old code w {c} calm r e =
      let (capped, w₁) = cap_to_retention db_shares lookup anon_ttl owned_ttl s.storage_key s w in
      let (r₁, same) =
        cap_to_retention-Rotated s.storage_key s old (old.share_count + 1) code w calm r in
      elim (Result-cases (Shares.rotate_code capped w₁.db).0) [
        | inr (x, fails) ↦ let clash : ⊥ = ground arith in absurd clash
        | inl (tt, kept) ↦
            let made : created_of capped code true ≡ c = ground arith in
            record {
              share = capped;
              rotated =
                  subst (λ k. Rotated sha256 old (old.share_count + 1) k capped)
                    (ap (λ (x : Created). x.code) made) r₁;
              replied = ap (λ (x : Created). x.share_count) (sym made) ∙ r₁.counted;
              written = ground (arith, same);
              kept = subst (λ db. (Shares.rotate_code capped db).0 ≡ ok tt) same kept;
            }
      ]

  rotate_stored-Stores :
      (s : Share) (ttl_hours : ℤ) (w : World O) {c : Created}
      → w.db.fates ≡ []
      → (rotate_stored db_shares lookup anon_ttl owned_ttl sha256 files s ttl_hours w).0 ≡ success c
      → Stores s w.db
          (rotate_stored db_shares lookup anon_ttl owned_ttl sha256 files s ttl_hours w).1.db
          c
  unfolding rotate_stored
  rotate_stored-Stores s ttl_hours w {c} calm e =
      let w₁ = (on_objects (files.get_file_size s.storage_key) w).1 in
      let (t, w₂) = read_clock w₁ in
      elim (Result-cases (files.get_file_size s.storage_key w.objects).0) [
        | inr (x, failed) ↦ let clash : ⊥ = ground arith in absurd clash
        | inl (bytes, sized) ↦
            elim (Result-cases (rotate sha256 s (times ttl_hours hour) t w₂.entropy).0) [
              | inr (x, failed) ↦ let clash : ⊥ = ground arith in absurd clash
              | inl ((s', code), rotated) ↦
                  let w₃ = (on_entropy (rotate sha256 s (times ttl_hours hour) t) w₂).1 in
                  let same : w₃.db ≡ w.db = read_clock-db w₁ in
                  let (salt, room, drawn, made) =
                    rotate-inverse sha256 s (times ttl_hours hour) t w₂.entropy rotated in
                  let r : Rotated sha256 s (s.share_count + 1) code s' = record {
                    slug = ap (λ (x : Share). x.slug) made;
                    counted = ap (λ (x : Share). x.share_count) made;
                    salt = salt;
                    hashed = ap (λ (x : Share). x.code_hash) made;
                  } in
                  rw (rotate_stored, sized, rotated)
                    (subst
                      (λ db.
                        Stores s db
                          (store_rotated db_shares lookup anon_ttl owned_ttl sha256 files s' code
                            w₃).1.db
                          c)
                      same
                      (store_rotated-Stores s' s code w₃ (ap (λ (x : Db). x.fates) same ∙ calm) r
                        (ground arith)))
            ]
      ]

  rotate_share-Stores :
      (user : Option User) (s : Share) (req : CreateShare) (w : World O) {c : Created}
      → w.db.fates ≡ []
      → (rotate_share db_shares lookup anon_ttl owned_ttl sha256 files user s req w).0 ≡ success c
      → Stores s w.db
          (rotate_share db_shares lookup anon_ttl owned_ttl sha256 files user s req w).1.db
          c
  unfolding rotate_share
  rotate_share-Stores user s req w {c} calm e = elim (Bool-cases (may_rotate user s.owner_id)) [
    | inr other ↦ let clash : ⊥ = ground arith in absurd clash
    | inl may ↦
        let sent : Share = record s { recipient_email = req.recipient_email } in
        let made = rotate_stored-Stores sent req.ttl_hours w {c = c} calm (ground arith) in
        rw (rotate_share, may)
          (record {
            share = made.share;
            rotated = record {
              slug = made.rotated.slug;
              counted = made.rotated.counted;
              salt = made.rotated.salt;
              hashed = made.rotated.hashed;
            };
            replied = made.replied;
            written = made.written;
            kept = made.kept;
          })
  ]

  -- Two requests have read the share of one file before either has stored its rotation, and both are
  -- then answered with success, the second after the first, over a connection that holds: each reply
  -- counts one code more than was read, and so does the share that is stored in the end, although two
  -- codes were given out. The hash that is stored is that of the second reply's code.
  pub two_requests_count_one :
      (key : Bytes) (db : Db) (s : Share) (user₁ user₂ : Option User) (req₁ req₂ : CreateShare)
      (w₁ w₂ : World O) {c₁ c₂ : Created}
      → db.fates ≡ []
      → (Shares.get_by_storage_key key db).0 ≡ ok s
      → w₁.db ≡ db
      → (rotate_share db_shares lookup anon_ttl owned_ttl sha256 files user₁ s req₁ w₁).0
        ≡ success c₁
      → w₂.db ≡ (rotate_share db_shares lookup anon_ttl owned_ttl sha256 files user₁ s req₁ w₁).1.db
      → (rotate_share db_shares lookup anon_ttl owned_ttl sha256 files user₂ s req₂ w₂).0
        ≡ success c₂
      → (c₁.share_count ≡ s.share_count + 1)
        × (c₂.share_count ≡ s.share_count + 1)
        × ((kept : Share) × ((Shares.get_by_slug s.slug
                (rotate_share db_shares lookup anon_ttl owned_ttl sha256 files user₂ s req₂
                  w₂).1.db).0
              ≡ ok kept)
            × Rotated sha256 s (s.share_count + 1) c₂.code kept)
  unfolding Shares.scan_share
  two_requests_count_one key db s user₁ user₂ req₁ req₂ w₁ w₂ {c₁} {c₂} calm read from₁ e₁ from₂
        e₂ =
      let made₁ = rotate_share-Stores user₁ s req₁ w₁ (ap (λ (x : Db). x.fates) from₁ ∙ calm) e₁ in
      let (row, found, is) = get_by_storage_key-ok key db read in
      let hit : any_of (Shares.has_slug s.slug) db.tables.shares ≡ true =
        any_of-found (Shares.has_key key) s.slug db.tables.shares row found
          (ap (λ (x : Share). x.slug) (sym is)) in
      let between = (Shares.rotate_code made₁.share db).1 in
      let now : w₂.db ≡ between =
        from₂ ∙ made₁.written ∙ ap (λ d. (Shares.rotate_code made₁.share d).1) from₁ in
      let hit₁ : any_of (Shares.has_slug made₁.share.slug) db.tables.shares ≡ true =
        ap (λ k. any_of (Shares.has_slug k) db.tables.shares) made₁.rotated.slug ∙ hit in
      let calm₂ : w₂.db.fates ≡ [] =
        ap (λ (x : Db). x.fates) now ∙ stays_calm made₁.share db calm hit₁ in
      let made₂ = rotate_share-Stores user₂ s req₂ w₂ calm₂ e₂ in
      let same : made₁.share.slug ≡ made₂.share.slug =
        made₁.rotated.slug ∙ sym made₂.rotated.slug in
      let (kept, there, slug, count, hash) =
        second_stays made₁.share made₂.share db calm hit₁ same in
      let after =
        (rotate_share db_shares lookup anon_ttl owned_ttl sha256 files user₂ s req₂ w₂).1 in
      (
        made₁.replied,
        made₂.replied,
        (
          kept,
          ap (λ k. (Shares.get_by_slug k after.db).0) (sym made₂.rotated.slug)
              ∙ (ap (λ d. (Shares.get_by_slug made₂.share.slug d).0)
                    (made₂.written ∙ ap (λ d. (Shares.rotate_code made₂.share d).1) now)
                  ∙ there),
          record {
            slug = slug ∙ made₂.rotated.slug;
            counted = count ∙ made₂.rotated.counted;
            salt = made₂.rotated.salt;
            hashed = hash ∙ made₂.rotated.hashed;
          },
        ),
      )
