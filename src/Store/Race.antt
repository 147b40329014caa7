-- ===== src/Store/Race.antt =====
-- Two requests that rotate the same share, with their statements one between the other:
-- `rotateShare` of internal/handlers/share.go reads the share, and `RotateCode` writes it later.
use lapis_archive_file_servi.Prelude.{
  List, [], ◌∷◌, Bytes, true, map, any_of, ≟_sound, ◌≡◌, refl, ap, ◌∙◌, subst, arith,
}
use lapis_archive_file_servi.Result.{Result, ok}
use lapis_archive_file_servi.Domain.{Share}
use lapis_archive_file_servi.Store.{ShareRow, Db}
use lapis_archive_file_servi.Store.Shares.{
  has_slug, rotated_row, update_code, rotate_code, get_by_slug,
}
use lapis_archive_file_servi.Store.Statements.{statement_calm}
use lapis_archive_file_servi.Store.Reads.{renewed, get_by_slug-rotated}

-- A rotation of a slug that is there is stored, if the connection holds.
rotate_code_calm :
    (sh : Share) (db : Db)
    → db.fates ≡ []
    → any_of (has_slug sh.slug) db.tables.shares ≡ true
    → rotate_code sh db ≡ (ok tt, record { tables = (update_code sh db.tables).1; fates = [] })
unfolding rotate_code update_code
rotate_code_calm sh db calm there = ground (arith, statement_calm (update_code sh) db calm)

still_there :
    (sh : Share) (slug : Bytes) (rows : List ShareRow)
    → any_of (has_slug slug) (map (rotated_row sh) rows) ≡ any_of (has_slug slug) rows
unfolding any_of
still_there sh slug [] = refl
still_there sh slug (row ∷ rows) = ground (arith, still_there sh slug rows)

both_stored :
    (s₁ s₂ : Share) (db : Db)
    → db.fates ≡ []
    → any_of (has_slug s₁.slug) db.tables.shares ≡ true
    → s₁.slug ≡ s₂.slug
    → let between = (rotate_code s₁ db).1 in
      ((rotate_code s₁ db).0 ≡ ok tt)
      × ((rotate_code s₂ between).0 ≡ ok tt)
      × ((rotate_code s₂ between).1.fates ≡ [])
unfolding update_code
both_stored s₁ s₂ db calm hit same =
    let ran₁ = rotate_code_calm s₁ db calm hit in
    let after : Db = record { tables = (update_code s₁ db.tables).1; fates = [] } in
    let hit₂ : any_of (has_slug s₁.slug) after.tables.shares ≡ true =
      still_there s₁ s₁.slug db.tables.shares ∙ hit in
    let ran₂ =
      rotate_code_calm s₂ after refl
        (subst (λ k. any_of (has_slug k) after.tables.shares ≡ true) same hit₂) in
    rw ran₁ (
      refl,
      ap (λ (x : Result (Unit {0}) × Db). x.0) ran₂,
      ap (λ (x : Result (Unit {0}) × Db). x.1.fates) ran₂,
    )

-- Of two rotations of one slug that are stored one after the other, the second is read.
pub second_stays :
    (s₁ s₂ : Share) (db : Db)
    → db.fates ≡ []
    → any_of (has_slug s₁.slug) db.tables.shares ≡ true
    → s₁.slug ≡ s₂.slug
    → (s : Share) × ((get_by_slug s₂.slug (rotate_code s₂ (rotate_code s₁ db).1).1).0 ≡ ok s)
      × (s.slug ≡ s₂.slug)
      × (s.share_count ≡ s₂.share_count)
      × (s.code_hash ≡ s₂.code_hash)
second_stays s₁ s₂ db calm hit same =
    let (kept₁, kept₂, calm₂) = both_stored s₁ s₂ db calm hit same in
    let (was, now_there, own) = get_by_slug-rotated s₂ (rotate_code s₁ db).1 kept₂ calm₂ in
    (
      renewed s₂ was,
      now_there,
      ground (arith, ≟_sound was.slug s₂.slug own),
      ground arith,
      ground arith,
    )

-- A rotation that is stored leaves a connection that holds.
pub stays_calm :
    (sh : Share) (db : Db)
    → db.fates ≡ []
    → any_of (has_slug sh.slug) db.tables.shares ≡ true
    → (rotate_code sh db).1.fates ≡ []
stays_calm sh db calm there =
    ap (λ (x : Result (Unit {0}) × Db). x.1.fates) (rotate_code_calm sh db calm there)
