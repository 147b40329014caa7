-- ===== src/Migrate/Again.antt =====
-- internal/migrate/migrate.go run again.
use lapis_archive_file_servi.Prelude.{
  [], ◌∷◌, ◌++◌, List, Bytes, true, any_of, keep_if, ≟_refl, if◌then◌else◌, All, All-imp, ◌≡◌, ◌∙◌,
  refl, sym, ap, subst, arith, append_assoc, append-nil, inl, inr, Bool-cases,
}
use lapis_archive_file_servi.Result.{Result, Result-cases, ok}
use lapis_archive_file_servi.Migrate.{Embedded, Conn, is_applied, migration_files, run}
use lapis_archive_file_servi.Migrate.Transaction.{view, Applies}
use lapis_archive_file_servi.Migrate.Progress.{pending, pending_old, pending_new, due, run-Progress}

is_applied-append :
    (a b : List Bytes) (name : Bytes)
    → is_applied (a ++ b) name ≡ (if is_applied a name then true else is_applied b name)
unfolding any_of
is_applied-append [] b name = refl
is_applied-append (v ∷ a) b name = ground (arith, is_applied-append a b name)

All-applied : (names : List Bytes) → All (λ name. is_applied names name ≡ true) names
unfolding any_of
All-applied [] = tt
All-applied (v ∷ names) = (
  ground (arith, ≟_refl v),
  All-imp (λ name. is_applied names name ≡ true) (λ name. is_applied (v ∷ names) name ≡ true)
      (λ name h. ground (arith, h)) names (All-applied names),
)

none_pending :
    (recorded extra files : List Bytes)
    → All (λ name. is_applied extra name ≡ true) (pending recorded files)
    → pending (recorded ++ extra) files ≡ []
none_pending recorded extra [] h = unfold keep_if in refl
none_pending recorded extra (name ∷ files) h = elim (Bool-cases (is_applied recorded name)) [
  | inl old ↦
      let h' =
        subst (All (λ name. is_applied extra name ≡ true)) (pending_old recorded files name old)
          h in
      pending_old (recorded ++ extra) files name
        (rw (is_applied-append recorded extra name, old) refl)
      ∙ none_pending recorded extra files h'
  | inr new ↦
      let h' =
        subst (All (λ name. is_applied extra name ≡ true)) (pending_new recorded files name new)
          h in
      pending_old (recorded ++ extra) files name
        (rw (is_applied-append recorded extra name, new) h'.0)
      ∙ none_pending recorded extra files h'.1
]

module _ {S : Type 0} (fs : Embedded) (exec : Bytes → S → Result S) where
  Applies-listed :
      (names : List Bytes) (v v' : S × List Bytes)
      → Applies fs exec names v v'
      → v'.1 ≡ v.1 ++ names
  Applies-listed [] v v' h = ap (λ (x : S × List Bytes). x.1) h ∙ sym (append-nil v.1)
  Applies-listed (name ∷ names) v v' h =
      let (u, first, rest) = h in
      Applies-listed names u v' rest
      ∙ (ap (λ (l : List Bytes). l ++ names) first.listed ∙ append_assoc v.1 (name ∷ []) names)

  due_files :
      (recorded files : List Bytes)
      → migration_files fs ≡ ok files
      → due fs exec recorded ≡ pending recorded files
  unfolding due
  due_files recorded files e = rw (e, due) refl

  due-append : (recorded : List Bytes) → due fs exec (recorded ++ due fs exec recorded) ≡ []
  due-append recorded = elim (Result-cases (migration_files fs)) [
    | inl (files, e) ↦
        let all = due_files recorded files e in
        due_files (recorded ++ due fs exec recorded) files e
        ∙ (ap (λ (l : List Bytes). pending (recorded ++ l) files) all
            ∙ none_pending recorded (pending recorded files) files
                (All-applied (pending recorded files)))
    | inr (x, e) ↦ unfold due in rw (e, due) refl
  ]

  Applies-none :
      (names rest : List Bytes) (v v' : S × List Bytes)
      → names ++ rest ≡ []
      → Applies fs exec names v v'
      → v' ≡ v
  Applies-none [] rest v v' e h = h
  Applies-none (name ∷ names) rest v v' e h = cc

  -- Once a run has succeeded, whatever later run finds what it left changes nothing.
  pub run_again :
      (conn later : Conn S)
      → (run fs exec conn).0 ≡ ok tt
      → view later.catalog ≡ view (run fs exec conn).1.catalog
      → view (run fs exec later).1.catalog ≡ view later.catalog
  run_again conn later e same =
      let p = run-Progress fs exec conn in
      let q = run-Progress fs exec later in
      let recorded = (view conn.catalog).1 in
      let all : due fs exec recorded ≡ p.done =
        p.split ∙ (ap (λ (l : List Bytes). p.done ++ l) (p.finished e) ∙ append-nil p.done) in
      let listed : (view later.catalog).1 ≡ recorded ++ due fs exec recorded =
        ap (λ (v : S × List Bytes). v.1) same
        ∙ (Applies-listed p.done _ _ p.applies
            ∙ ap (λ (l : List Bytes). recorded ++ l) (sym all)) in
      let nothing : due fs exec (view later.catalog).1 ≡ [] =
        ap (due fs exec) listed ∙ due-append recorded in
      Applies-none q.done q.rest _ _ (sym q.split ∙ nothing) q.applies
