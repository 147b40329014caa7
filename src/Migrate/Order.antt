-- ===== src/Migrate/Order.antt =====
-- The order in which internal/migrate/migrate.go applies its files.
use lapis_archive_file_servi.Prelude.{
  [], ◌∷◌, ◌++◌, List, Bytes, Bool, true, false, not, keep_if, All, All-keep_if, ◌≡◌, refl, subst,
  arith, inl, inr,
}
use lapis_archive_file_servi.Result.{Result, Result-cases}
use lapis_archive_file_servi.Sort.{IsSortedBy, IsStrictWeak, sort_by, sort_by-IsSortedBy}
use lapis_archive_file_servi.Migrate.{
  Embedded, Conn, is_applied, less, names_of, migration_files, run,
}
use lapis_archive_file_servi.Migrate.Transaction.{view}
use lapis_archive_file_servi.Migrate.Progress.{Progress, due, run-Progress}

less_asym : (a b : Bytes) → less a b ≡ true → less b a ≡ false
unfolding less
less_asym a [] h = cc
less_asym [] (d ∷ t) h = refl
less_asym (c ∷ s) (d ∷ t) h = ground (arith, less_asym s t)

less_cotrans : (a b c : Bytes) → less a b ≡ false → less b c ≡ false → less a c ≡ false
unfolding less
less_cotrans a b [] h k = refl
less_cotrans a [] (e ∷ u) h k = cc
less_cotrans [] (d ∷ t) (e ∷ u) h k = cc
less_cotrans (c ∷ s) (d ∷ t) (e ∷ u) h k = ground (arith, less_cotrans s t u)

less-IsStrictWeak : IsStrictWeak less
less-IsStrictWeak = record { asym = less_asym; cotrans = less_cotrans }

All-prefix : {A : Type 0} (P : A → Type 0) (l m : List A) → All P (l ++ m) → All P l
All-prefix P [] m h = tt
All-prefix P (a ∷ l) m h = (h.0, All-prefix P l m h.1)

module _ {A : Type 0} (before : A → A → Bool) where
  keep_if-IsSortedBy :
      (p : A → Bool) (l : List A) → IsSortedBy before l → IsSortedBy before (keep_if p l)
  unfolding keep_if
  keep_if-IsSortedBy p [] h = tt
  keep_if-IsSortedBy p (a ∷ l) h =
      ground (arith, keep_if-IsSortedBy p l h.1, All-keep_if (λ b. before b a ≡ false) p l h.0)

  prefix-IsSortedBy : (l m : List A) → IsSortedBy before (l ++ m) → IsSortedBy before l
  prefix-IsSortedBy [] m h = tt
  prefix-IsSortedBy (a ∷ l) m h =
      (All-prefix (λ b. before b a ≡ false) l m h.0, prefix-IsSortedBy l m h.1)

module _ {S : Type 0} (fs : Embedded) (exec : Bytes → S → Result S) where
  due-IsSortedBy : (recorded : List Bytes) → IsSortedBy less (due fs exec recorded)
  unfolding due migration_files
  due-IsSortedBy recorded = elim (Result-cases fs.read_dir) [
    | inl (entries, e) ↦ rw e (
        keep_if-IsSortedBy less (λ name. not (is_applied recorded name))
          (sort_by less (names_of entries))
          (sort_by-IsSortedBy less-IsStrictWeak (names_of entries)))
    | inr (x, e) ↦ rw e tt
  ]

  -- Whatever statement of a run of the migrations fails or loses its answer, the run has applied a
  -- beginning of the files that were not recorded, in ascending order of their names, each
  -- executed and recorded as one, and it has applied them all if it succeeded.
  pub run_in_order :
      (conn : Conn S)
      → (p : Progress fs exec
          (due fs exec (view conn.catalog).1)
          (view conn.catalog)
          (view (run fs exec conn).1.catalog)
          (run fs exec conn).0)
        × IsSortedBy less p.done
  run_in_order conn =
      let p = run-Progress fs exec conn in
      (
        p,
        prefix-IsSortedBy less p.done p.rest
            (subst (IsSortedBy less) p.split (due-IsSortedBy (view conn.catalog).1)),
      )
