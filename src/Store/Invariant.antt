-- ===== src/Store/Invariant.antt =====
-- When the tables of internal/store are consistent: the unique indexes of db/migrations, and what a
-- row of a share looks like.
use lapis_archive_file_servi.Prelude.{
  ℕ, ◌≤◌, [], ◌∷◌, List, Bytes, Bool, not, ◌||◌, ≟_iff, map, any_of, All, All-keep_if, arith,
  Bool-cases, inl, inr,
}
use lapis_archive_file_servi.Result.{Result}
use lapis_archive_file_servi.Act.{Preserves}
use lapis_archive_file_servi.Domain.{Share, max_share_count}
use lapis_archive_file_servi.Domain.Slugs.{IsSlug}
use lapis_archive_file_servi.Store.{
  ShareRow, UploadRow, Tables, Fate, answered, lost, unacknowledged, Db, run_fated, statement,
}
use lapis_archive_file_servi.Store.Distinct.{
  IsDistinct, append_one-IsDistinct, keep_if-IsDistinct, map-IsDistinct, All-append_one, any_of-or,
}
use lapis_archive_file_servi.Store.Shares

-- A row of `shares`: a slug of the right form and one to three codes.
abbrev pub IsSound : Bytes → ℕ → Type 0
IsSound slug count = IsSlug slug × (1 ≤ count) × (count ≤ max_share_count)

abbrev pub SoundRow : ShareRow → Type 0
SoundRow row = IsSound row.slug row.share_count

abbrev pub SoundShare : Share → Type 0
SoundShare sh = IsSound sh.slug sh.share_count

-- No two shares have the same slug or the same file, no two uploads the same key.
pub record IsConsistent (t : Tables) : Type 0 where
  pub slugs : IsDistinct (λ (row : ShareRow). row.slug) t.shares
  pub keys : IsDistinct (λ (row : ShareRow). row.storage_key) t.shares
  pub sound : All SoundRow t.shares
  pub upload_keys : IsDistinct (λ (row : UploadRow). row.storage_key) t.uploads

abbrev pub Holds : (Tables → Type 0) → Db → Type 0
Holds P db = P db.tables

-- A property of the tables that the query keeps is kept by the statement, lost or not.
pub statement-Preserves :
    {A : Type 0} (P : Tables → Type 0) (q : Tables → Result A × Tables)
    → ((t : Tables) → P t → P (q t).1)
    → Preserves (Holds P) (statement q)
unfolding statement
statement-Preserves P q keep db h = by_fate db.fates
  where
    by_fate : (fates : List Fate) → P (run_fated q db.tables fates).1.tables
    by_fate [] = keep db.tables h
    by_fate (answered ∷ fates) = keep db.tables h
    by_fate (lost e ∷ fates) = h
    by_fate (unacknowledged e ∷ fates) = keep db.tables h

pub insert_share-IsConsistent :
    (sh : Share) (t : Tables)
    → SoundShare sh
    → IsConsistent t
    → IsConsistent (Shares.insert_share (Shares.share_row sh) t).1
unfolding Shares.insert_share Shares.share_row
insert_share-IsConsistent sh t good h =
    let row = Shares.share_row sh in
    elim (Bool-cases
      (any_of (λ r. Shares.has_slug sh.slug r || Shares.has_key sh.storage_key r) t.shares)) [
        | inl taken ↦ rw taken h
        | inr new ↦
            let (no_slug, no_key) =
              any_of-or (Shares.has_slug sh.slug) (Shares.has_key sh.storage_key) t.shares new in
            rw new (record {
              slugs = append_one-IsDistinct _ t.shares row no_slug h.slugs;
              keys = append_one-IsDistinct _ t.shares row no_key h.keys;
              sound = All-append_one (λ (r : ShareRow). r.slug) SoundRow t.shares row h.sound good;
              upload_keys = h.upload_keys;
            })
      ]

rotated_row-All :
    (sh : Share) (rows : List ShareRow)
    → SoundShare sh
    → All SoundRow rows
    → All SoundRow (map (Shares.rotated_row sh) rows)
rotated_row-All sh [] good h = tt
rotated_row-All sh (r ∷ rows) good h =
    let rest = rotated_row-All sh rows good h.1 in ground (arith, ≟_iff r.slug sh.slug)

pub update_code-IsConsistent :
    (sh : Share) (t : Tables)
    → SoundShare sh
    → IsConsistent t
    → IsConsistent (Shares.update_code sh t).1
unfolding Shares.update_code
update_code-IsConsistent sh t good h = record {
  slugs = map-IsDistinct _ (Shares.rotated_row sh) (λ r. ground arith) t.shares h.slugs;
  keys = map-IsDistinct _ (Shares.rotated_row sh) (λ r. ground arith) t.shares h.keys;
  sound = rotated_row-All sh t.shares good h.sound;
  upload_keys = h.upload_keys;
}

pub delete_shares-IsConsistent :
    (p : ShareRow → Bool) (t : Tables) → IsConsistent t → IsConsistent (Shares.delete_shares p t)
delete_shares-IsConsistent p t h = record {
  slugs = keep_if-IsDistinct _ (λ r. not (p r)) t.shares h.slugs;
  keys = keep_if-IsDistinct _ (λ r. not (p r)) t.shares h.keys;
  sound = All-keep_if SoundRow (λ r. not (p r)) t.shares h.sound;
  upload_keys = h.upload_keys;
}
