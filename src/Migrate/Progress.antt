-- ===== src/Migrate/Progress.antt =====
-- How far a run of internal/migrate/migrate.go gets: every file it applies is applied and recorded as
-- one, in order, and the files after a failure are not.
use lapis_archive_file_servi.Prelude.{
  [], ◌∷◌, ◌++◌, List, Bytes, codes, true, false, not, keep_if, ◌≡◌, ◌∙◌, refl, sym, ap, subst, inl,
  inr, arith, Bool-cases,
}
use lapis_archive_file_servi.Result.{Error, Result, Result-cases, ok, err}
use lapis_archive_file_servi.Act.{Act, wrap, ◌>>=◌, ◌>>◌, >>=-cases, wrap-eq-ok, wrap-state}
use lapis_archive_file_servi.Migrate.{
  Embedded, Catalog, Conn, versions_of, send, ask, is_applied, apply_one, apply_pending,
  migration_files, run_locked, run, ensure_versions, select_versions, set_locked, unlocking,
}
use lapis_archive_file_servi.Migrate.Statements.{send-either, send-ok}
use lapis_archive_file_servi.Migrate.Transaction.{view, Applied, Applies, apply_one-Ends}

-- the files that are not recorded
abbrev pub pending : List Bytes → List Bytes → List Bytes
pending applied = keep_if (λ name. not (is_applied applied name))

pub pending_old :
    (applied files : List Bytes) (name : Bytes)
    → is_applied applied name ≡ true
    → pending applied (name ∷ files) ≡ pending applied files
unfolding keep_if
pending_old applied files name e = ground arith

pub pending_new :
    (applied files : List Bytes) (name : Bytes)
    → is_applied applied name ≡ false
    → pending applied (name ∷ files) ≡ name ∷ pending applied files
unfolding keep_if
pending_new applied files name e = ground arith

module _ {S : Type 0} (fs : Embedded) (exec : Bytes → S → Result S) where
  -- How far a run got with these files: to their end, if it succeeded.
  pub record Progress (files : List Bytes) (v v' : S × List Bytes) (r : Result (Unit {0}))
      : Type 0 where
    pub done : List Bytes
    pub rest : List Bytes
    pub split : files ≡ done ++ rest
    pub applies : Applies fs exec done v v'
    pub finished : r ≡ ok tt → rest ≡ []

  not_started : (files : List Bytes) (v : S × List Bytes) (e : Error) → Progress files v v (err e)
  not_started files v e = record {
    done = [];
    rest = files;
    split = refl;
    applies = refl;
    finished = λ h. cc;
  }

  first_file :
      {name : Bytes} {files : List Bytes} {v u v' : S × List Bytes} {r : Result (Unit {0})}
      → Applied fs exec name v u
      → Progress files u v' r
      → Progress (name ∷ files) v v' r
  first_file {name} {u = u} a p = record {
    done = name ∷ p.done;
    rest = p.rest;
    split = ap (λ (l : List Bytes). name ∷ l) p.split;
    applies = (u, a, p.applies);
    finished = p.finished;
  }

  apply_pending_old :
      (applied files : List Bytes) (name : Bytes) (conn : Conn S)
      → is_applied applied name ≡ true
      → apply_pending fs exec applied (name ∷ files) conn ≡ apply_pending fs exec applied files conn
  unfolding apply_pending
  apply_pending_old applied files name conn e = rw e refl

  apply_pending_new :
      (applied files : List Bytes) (name : Bytes) (conn : Conn S)
      → is_applied applied name ≡ false
      → apply_pending fs exec applied (name ∷ files) conn
        ≡ ◌>>=◌ (apply_one fs exec name) (λ done. apply_pending fs exec applied files) conn
  unfolding apply_pending
  apply_pending_new applied files name conn e = rw e refl

  apply_pending-Progress :
      (applied files : List Bytes) (conn : Conn S)
      → let after = apply_pending fs exec applied files conn in
        Progress (pending applied files) (view conn.catalog) (view after.1.catalog) after.0
  apply_pending-Progress applied [] conn =
      unfold apply_pending keep_if in
      record { done = []; rest = []; split = refl; applies = refl; finished = λ h. refl }
  apply_pending-Progress applied (name ∷ files) conn = elim (Bool-cases (is_applied applied name)) [
    | inl old ↦
        rw (pending_old applied files name old, apply_pending_old applied files name conn old)
          (apply_pending-Progress applied files conn)
    | inr new ↦
        let m = apply_one fs exec name in
        let later = apply_pending-Progress applied files (m conn).1 in
        rw (pending_new applied files name new, apply_pending_new applied files name conn new)
          (elim (>>=-cases m (λ done. apply_pending fs exec applied files) conn) [
            | inl (e, eq) ↦ rw eq (elim (apply_one-Ends fs exec name conn) [
              | inl did ↦
                  first_file did (not_started (pending applied files) (view (m conn).1.catalog) e)
              | inr (x, failed, same) ↦
                  rw same (not_started (name ∷ pending applied files) (view conn.catalog) e)
            ])
            | inr (done, got, eq) ↦ rw eq (elim (apply_one-Ends fs exec name conn) [
              | inl did ↦ first_file did later
              | inr (x, failed, same) ↦ let clash : ⊥ = cc in absurd clash
            ])
          ])
  ]

  abbrev Gets : List Bytes → S × List Bytes → Result (Unit {0}) × Conn S → Type 0
  Gets files v r = Progress files v (view r.1.catalog) r.0

  -- a first step that the view does not depend on, and what comes after it
  after_view :
      {A : Type 0} (files : List Bytes) (m : Act (Conn S) A) (f : A → Act (Conn S) (Unit {0}))
      (conn : Conn S)
      → view (m conn).1.catalog ≡ view conn.catalog
      → ((a : A) → (m conn).0 ≡ ok a → Gets files (view (m conn).1.catalog) (f a (m conn).1))
      → Gets files (view conn.catalog) (◌>>=◌ m f conn)
  after_view files m f conn same next = elim (>>=-cases m f conn) [
    | inl (e, eq) ↦ rw (eq, same) (not_started files (view conn.catalog) e)
    | inr (a, got, eq) ↦
        rw eq (subst (λ (v : S × List Bytes). Gets files v (f a (m conn).1)) same (next a got))
  ]

  send-view :
      {A : Type 0} (q : Catalog S → Result A × Catalog S) (context : Bytes) (conn : Conn S)
      → ((c : Catalog S) → view (q c).1 ≡ view c)
      → view (wrap context (send q) conn).1.catalog ≡ view conn.catalog
  send-view q context conn same =
      ap (λ (c : Conn S). view c.catalog) (wrap-state context (send q) conn)
      ∙ elim (send-either q conn) [
        | inl ran ↦ ap view ran ∙ same conn.catalog
        | inr kept ↦ ap view kept
      ]

  ok-inj : {A : Type 0} {a b : A} → ok a ≡ ok b → a ≡ b
  ok-inj e = cc

  -- The embedded files that a run has to apply: none, if the directory cannot be read.
  unfoldable pub due : List Bytes → List Bytes
  due recorded = elim (migration_files fs) [ ok files ↦ pending recorded files | err e ↦ [] ]

  run_files-Gets :
      (recorded : List Bytes) (conn : Conn S)
      → Gets
          (due recorded)
          (view conn.catalog)
          (◌>>=◌ (λ c. (migration_files fs, c)) (apply_pending fs exec recorded) conn)
  unfolding due
  run_files-Gets recorded conn = elim (Result-cases (migration_files fs)) [
    | inl (files, e) ↦ rw (e, due) (apply_pending-Progress recorded files conn)
    | inr (x, e) ↦ rw (e, due) (not_started [] (view conn.catalog) x)
  ]

  run_locked-Gets :
      (conn : Conn S)
      → Gets (due (view conn.catalog).1) (view conn.catalog) (run_locked fs exec conn)
  unfolding run_locked
  run_locked-Gets conn =
      let recorded = (view conn.catalog).1 in
      let ensure = wrap (codes "ensure schema_migrations: ") (send (ensure_versions {S = S})) in
      let context = codes "read applied migrations: " in
      let select = wrap context (send (select_versions {S = S})) in
      let next = λ (applied : List Bytes).
        ◌>>=◌ (λ (c : Conn S). (migration_files fs, c)) (apply_pending fs exec applied) in
      let conn₁ = (ensure conn).1 in
      let same : view conn₁.catalog ≡ view conn.catalog =
        send-view ensure_versions (codes "ensure schema_migrations: ") conn (λ c. refl) in
      after_view (due recorded) ensure (λ done. select >>= next) conn same
        (λ done e.
          after_view (due recorded) select next conn₁
            (send-view select_versions context conn₁ (λ c. refl))
            (λ applied got.
              (let listed : versions_of conn₁.catalog.versions ≡ applied =
                  ok-inj
                    (send-ok select_versions conn₁
                      (wrap-eq-ok context (send select_versions) conn₁ got)).0 in
                let known : recorded ≡ applied =
                  sym (ap (λ (v : S × List Bytes). v.1) same) ∙ listed in
                subst
                  (λ (l : List Bytes).
                    Gets (due l) (view (select conn₁).1.catalog) (next applied (select conn₁).1))
                  (sym known) (run_files-Gets applied (select conn₁).1))))

  unlocking-Gets :
      (files : List Bytes) (v : S × List Bytes) (m : Act (Conn S) (Unit {0})) (conn : Conn S)
      → Gets files v (m conn)
      → Gets files v (unlocking m conn)
  unlocking-Gets files v m conn h = elim (send-either (set_locked false) (m conn).1) [
    | inl ran ↦ rw ran h
    | inr kept ↦ rw kept h
  ]

  pub run-Progress :
      (conn : Conn S) → Gets (due (view conn.catalog).1) (view conn.catalog) (run fs exec conn)
  unfolding run
  run-Progress conn =
      let acquire = wrap (codes "acquire connection: ") (ask {S = S}) in
      let context = codes "acquire migration lock: " in
      let lock = wrap context (send (set_locked {S = S} true)) in
      let locked = unlocking (run_locked fs exec) in
      let files = due (view conn.catalog).1 in
      let conn₁ = (acquire conn).1 in
      let same : view conn₁.catalog ≡ view conn.catalog =
        send-view (λ c. (ok tt, c)) (codes "acquire connection: ") conn (λ c. refl) in
      after_view files acquire (λ done. lock >> locked) conn same
        (λ done e.
          after_view files lock (λ done. locked) conn₁
            (send-view (set_locked true) context conn₁ (λ c. refl))
            (λ done e.
              let conn₂ = (lock conn₁).1 in
              let held : view conn₂.catalog ≡ view conn.catalog =
                send-view (set_locked true) context conn₁ (λ c. refl) ∙ same in
              unlocking-Gets files (view conn₂.catalog) (run_locked fs exec) conn₂ (
                subst
                  (λ (v : S × List Bytes).
                    Gets (due v.1) (view conn₂.catalog) (run_locked fs exec conn₂))
                  held (run_locked-Gets conn₂))))
