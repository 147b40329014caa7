-- ===== src/Worker/Purge/Sweep.antt =====
-- A run of internal/worker/purge.go over a connection that holds: which shares it leaves.
use lapis_archive_file_servi.Prelude.{
  ℕ, suc, zero, ◌≤◌, [], ◌∷◌, List, Bytes, codes, All, All-imp, All-keep_if, keep_if, take, any_of,
  length, Bool, true, false, not, ≟_refl, ◌||◌, ◌≡◌, refl, sym, ap, ◌∙◌, subst, arith, Bool-cases,
  inl, inr, map,
}
use lapis_archive_file_servi.Time.{Time}
use lapis_archive_file_servi.Sort.{insert_by, sort_by}
use lapis_archive_file_servi.Domain.{Share}
use lapis_archive_file_servi.Store.{ShareRow, Detail, Db}
use lapis_archive_file_servi.Store.Shares
use lapis_archive_file_servi.Store.Distinct.{IsDistinct}
use lapis_archive_file_servi.Store.Statements.{statement_calm}
use lapis_archive_file_servi.Audit.{record_action, insert_audit}
use lapis_archive_file_servi.Worker.Purge.{
  sweep_batch_size, share_snapshot, purge_share, purge_shares, purge_expired_shares,
}
use lapis_archive_file_servi.Worker.Purge.Live.{is_past, live, purge_expired_shares-live}

module _ {A : Type 0} (p : A → Bool) where
  any_of-insert_by :
      (before : A → A → Bool) (a : A) (l : List A)
      → any_of p (insert_by before a l) ≡ p a || any_of p l
  unfolding any_of insert_by
  any_of-insert_by before a [] = ground arith
  any_of-insert_by before a (b ∷ l) = ground (arith, any_of-insert_by before a l)

  any_of-sort_by : (before : A → A → Bool) (l : List A) → any_of p (sort_by before l) ≡ any_of p l
  unfolding any_of sort_by
  any_of-sort_by before [] = refl
  any_of-sort_by before (a ∷ l) =
      ground (arith, any_of-insert_by before a (sort_by before l), any_of-sort_by before l)

  any_of-map : {B : Type 0} (f : B → A) (l : List B) → any_of p (map f l) ≡ any_of (λ b. p (f b)) l
  unfolding any_of
  any_of-map f [] = refl
  any_of-map f (b ∷ l) = ground (arith, any_of-map f l)

module _ {A : Type 0} where
  length-insert_by :
      (before : A → A → Bool) (a : A) (l : List A) → length (insert_by before a l) ≡ suc (length l)
  unfolding insert_by
  length-insert_by before a [] = refl
  length-insert_by before a (b ∷ l) = ground (arith, length-insert_by before a l)

  length-sort_by : (before : A → A → Bool) (l : List A) → length (sort_by before l) ≡ length l
  unfolding sort_by
  length-sort_by before [] = refl
  length-sort_by before (a ∷ l) =
      length-insert_by before a (sort_by before l) ∙ ap suc (length-sort_by before l)

  take_all : (n : ℕ) (l : List A) → length l ≤ n → take n l ≡ l
  take_all zero [] h = refl
  take_all zero (a ∷ l) h = let clash : ⊥ = omega (arith, h) in absurd clash
  take_all (suc n) [] h = refl
  take_all (suc n) (a ∷ l) h = ap (λ t. a ∷ t) (take_all n l (omega (arith, h)))

  keep_if_all : (p : A → Bool) (l : List A) → All (λ a. p a ≡ true) l → keep_if p l ≡ l
  unfolding keep_if
  keep_if_all p [] h = refl
  keep_if_all p (a ∷ l) h = ground (arith, h.0, keep_if_all p l h.1)

-- among the rows that `p` keeps is one with the slug of each of them
kept-found :
    (p : ShareRow → Bool) (rows : List ShareRow)
    → All
        (λ (row : ShareRow).
          p row ≡ true
          → any_of (λ (r : ShareRow). Shares.has_slug r.slug row) (keep_if p rows) ≡ true)
        rows
unfolding keep_if any_of
kept-found p [] = tt
kept-found p (x ∷ rows) = (
  λ e. ground (arith, ≟_refl x.slug),
  All-imp
      (λ (row : ShareRow).
        p row ≡ true
        → any_of (λ (r : ShareRow). Shares.has_slug r.slug row) (keep_if p rows) ≡ true)
      (λ (row : ShareRow).
        p row ≡ true
        → any_of (λ (r : ShareRow). Shares.has_slug r.slug row) (keep_if p (x ∷ rows)) ≡ true)
      (λ row h e. ground (arith, h e)) rows (kept-found p rows),
)

-- the share of this row is on the list
abbrev on : List Share → ShareRow → Bool
on list row = any_of (λ (s : Share). Shares.has_slug s.slug row) list

listed-on :
    (now : Time) (rows : List ShareRow)
    → length (keep_if (is_past now) rows) ≤ sweep_batch_size
    → All
        (λ (row : ShareRow).
          is_past now row ≡ true
          → on (map Shares.scan_share (Shares.expired_rows now sweep_batch_size rows)) row ≡ true)
        rows
unfolding Shares.scan_share
listed-on now rows fits =
    let kept = keep_if (is_past now) rows in
    let whole : Shares.expired_rows now sweep_batch_size rows ≡ sort_by Shares.sooner kept =
      take_all sweep_batch_size (sort_by Shares.sooner kept)
        (omega (arith, length-sort_by Shares.sooner kept, fits)) in
    All-imp
      (λ (row : ShareRow).
        is_past now row ≡ true → any_of (λ (r : ShareRow). Shares.has_slug r.slug row) kept ≡ true)
      (λ (row : ShareRow).
        is_past now row ≡ true
        → on (map Shares.scan_share (Shares.expired_rows now sweep_batch_size rows)) row ≡ true)
      (λ row h e.
        subst (λ (l : List ShareRow). on (map Shares.scan_share l) row ≡ true) (sym whole)
          (any_of-map (λ (s : Share). Shares.has_slug s.slug row) Shares.scan_share
              (sort_by Shares.sooner kept)
            ∙ (any_of-sort_by (λ (r : ShareRow). Shares.has_slug r.slug row) Shares.sooner kept
                ∙ h e)))
      rows (kept-found (is_past now) rows)

record_action_calm :
    (action subject : Bytes) (detail : Detail) (db : Db)
    → db.fates ≡ []
    → ((record_action action subject detail db).1.tables.shares ≡ db.tables.shares)
      × ((record_action action subject detail db).1.fates ≡ [])
unfolding record_action
record_action_calm action subject detail db calm = ground (
  arith,
  statement_calm (insert_audit (record { action = action; subject = subject; detail = detail })) db
      calm,
)

purge_share_calm :
    (s : Share) (db : Db)
    → db.fates ≡ []
    → ((purge_share s db).tables.shares
        ≡ keep_if (λ row. not (Shares.has_slug s.slug row)) db.tables.shares)
      × ((purge_share s db).fates ≡ [])
unfolding purge_share Shares.delete_by_slug
purge_share_calm s db calm =
    let (shares, still) =
      record_action_calm (codes "purge_share") s.slug (share_snapshot s)
        (Shares.delete_by_slug s.slug db).1
        (ground (arith, statement_calm (Shares.delete_all (Shares.has_slug s.slug)) db calm)) in
    ground (arith, statement_calm (Shares.delete_all (Shares.has_slug s.slug)) db calm)

keep_if-false :
    {A : Type 0} (p : A → Bool) (l : List A) → All (λ a. p a ≡ false) (keep_if (λ a. not (p a)) l)
unfolding keep_if
keep_if-false p [] = tt
keep_if-false p (a ∷ l) = ground (arith, keep_if-false p l)

All-both_of :
    {A : Type 0} (P Q R : A → Type 0)
    → ((a : A) → P a → Q a → R a)
    → (l : List A) → All P l
    → All Q l
    → All R l
All-both_of P Q R f [] h k = tt
All-both_of P Q R f (a ∷ l) h k = (f a h.0 k.0, All-both_of P Q R f l h.1 k.1)

-- After the rounds, no row is on the list, and what held of all rows still does.
purge_shares_calm :
    (Q : ShareRow → Type 0) (list : List Share) (db : Db)
    → db.fates ≡ []
    → All Q db.tables.shares
    → All (λ row. Q row × (on list row ≡ false)) (purge_shares list db).tables.shares
unfolding purge_shares any_of
purge_shares_calm Q [] db calm h =
    All-imp Q (λ row. Q row × (false ≡ false)) (λ row q. (q, refl)) db.tables.shares h
purge_shares_calm Q (s ∷ list) db calm h =
    let (shares, still) = purge_share_calm s db calm in
    let Gone = λ (row : ShareRow). Shares.has_slug s.slug row ≡ false in
    let kept : All (λ row. Q row × Gone row) (purge_share s db).tables.shares =
      subst (All (λ row. Q row × Gone row)) (sym shares) (
        All-both_of Q Gone (λ row. Q row × Gone row) (λ row q g. (q, g)) _
          (All-keep_if Q (λ row. not (Shares.has_slug s.slug row)) db.tables.shares h)
          (keep_if-false (Shares.has_slug s.slug) db.tables.shares)) in
    All-imp (λ row. (Q row × Gone row) × (on list row ≡ false))
      (λ row. Q row × (on (s ∷ list) row ≡ false)) (λ row q. (q.0.0, ground (arith, q.0.1, q.1))) _
      (purge_shares_calm (λ row. Q row × Gone row) list (purge_share s db) still kept)

-- A purge over a connection that holds leaves exactly the shares that have not expired, in their
-- order, if the slugs are distinct and at most 200 shares have expired.
pub purge_expired_shares-live_only :
    (now : Time) (db : Db)
    → db.fates ≡ []
    → IsDistinct (λ (row : ShareRow). row.slug) db.tables.shares
    → length (keep_if (is_past now) db.tables.shares) ≤ sweep_batch_size
    → (purge_expired_shares now db).1.tables.shares ≡ live now db.tables.shares
unfolding purge_expired_shares Shares.list_expired
purge_expired_shares-live_only now db calm distinct fits =
    let q = Shares.select_rows (Shares.expired_rows now sweep_batch_size) in
    let list = map Shares.scan_share (Shares.expired_rows now sweep_batch_size db.tables.shares) in
    let ran = statement_calm q db calm in
    let left =
      purge_shares_calm (λ row. is_past now row ≡ true → on list row ≡ true) list
        (record { tables = db.tables; fates = [] }) refl (listed-on now db.tables.shares fits) in
    let A = (purge_shares list (record { tables = db.tables; fates = [] })).tables.shares in
    let swept : (purge_expired_shares now db).1.tables.shares ≡ A = ground (arith, ran) in
    let all_live : All (λ row. not (is_past now row) ≡ true) A =
      All-imp (λ row. (is_past now row ≡ true → on list row ≡ true) × (on list row ≡ false))
        (λ row. not (is_past now row) ≡ true)
        (λ row h. elim (Bool-cases (is_past now row)) [
          | inl past ↦ let clash : ⊥ = ground (arith, h.0 past, h.1) in absurd clash
          | inr e ↦ ap not e
        ])
        A left in
    let same : live now A ≡ A = keep_if_all (λ row. not (is_past now row)) A all_live in
    swept ∙ (sym same ∙ (ap (live now) (sym swept) ∙ (purge_expired_shares-live now db distinct).0))
