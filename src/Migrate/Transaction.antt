-- ===== src/Migrate/Transaction.antt =====
-- The transaction of one file in internal/migrate/migrate.go: the file is applied and recorded as one.
use lapis_archive_file_servi.Prelude.{
  [], ◌∷◌, ◌++◌, List, Bytes, codes, ◌≡◌, ◌∙◌, refl, ap, subst, ◌⊎◌, inl, inr, arith,
}
use lapis_archive_file_servi.Result.{Error, Result, Result-cases, ok, err, wrapped}
use lapis_archive_file_servi.Act.{Act, wrap, ◌>>=◌, >>=-cases, wrap-eq-ok, wrap-state}
use lapis_archive_file_servi.Migrate.{
  finish, transact, Embedded, Catalog, Conn, versions_of, send, ask, or_rollback, exec_file,
  check_version, commit, apply_one,
}
use lapis_archive_file_servi.Migrate.Statements.{
  Quiet, send-either, send-ok, send-Quiet, ask-Quiet, or_rollback-Quiet, or_rollback-ok, wrap-Quiet,
}

-- What a run is about: the schema, and the recorded files; not the lock, nor whether the table of the
-- records is there.
abbrev pub view : {S : Type 0} → Catalog S → S × List Bytes
view c = (c.schema, versions_of c.versions)

module _ {S : Type 0} (fs : Embedded) (exec : Bytes → S → Result S) where
  -- The file is executed and recorded.
  pub record Applied (name : Bytes) (v v' : S × List Bytes) : Type 0 where
    pub sql : Bytes
    pub read : fs.read_file name ≡ ok sql
    pub executed : exec sql v.0 ≡ ok v'.0
    pub listed : v'.1 ≡ v.1 ++ name ∷ []

  -- Files are applied one after the other, each as a whole.
  abbrev pub Applies : List Bytes → S × List Bytes → S × List Bytes → Type 0
  Applies [] v v' = v' ≡ v
  Applies (name ∷ names) v v' = (u : S × List Bytes) × Applied name v u × Applies names u v'

  check_version-same : (name : Bytes) (c : Catalog S) → (check_version name c).1 ≡ c
  check_version-same name c = ground arith

  -- A file is applied, or the run ends with an error and the catalog is as it was.
  abbrev pub Ends : Bytes → Catalog S → Result (Unit {0}) × Conn S → Type 0
  Ends name c r =
      Applied name (view c) (view r.1.catalog) ⊎ ((e : Error) × (r.0 ≡ err e) × (r.1.catalog ≡ c))

  -- a first step that leaves the catalog, and what comes after it
  after-Quiet :
      {A : Type 0} (name : Bytes) (m : Act (Conn S) A) (f : A → Act (Conn S) (Unit {0}))
      (conn : Conn S)
      → Quiet m
      → ((a : A) → (m conn).0 ≡ ok a → Ends name (m conn).1.catalog (f a (m conn).1))
      → Ends name conn.catalog (◌>>=◌ m f conn)
  after-Quiet name m f conn quiet next = elim (>>=-cases m f conn) [
    | inl (e, eq) ↦ rw eq (inr (e, refl, quiet conn))
    | inr (a, got, eq) ↦
        rw eq (subst (λ (c : Catalog S). Ends name c (f a (m conn).1)) (quiet conn) (next a got))
  ]

  -- One statement that writes: the commit.
  commit-Ends :
      (name sql : Bytes) (schema : S) (context : Bytes) (conn : Conn S)
      → fs.read_file name ≡ ok sql
      → exec sql conn.catalog.schema ≡ ok schema
      → Ends name conn.catalog (wrap context (send (commit schema name)) conn)
  commit-Ends name sql schema context conn read executed =
      let q = commit schema name in
      let state = ap (λ (c : Conn S). c.catalog) (wrap-state context (send q) conn) in
      let ran : (wrap context (send q) conn).1.catalog ≡ (q conn.catalog).1
          → Applied name (view conn.catalog) (view (wrap context (send q) conn).1.catalog) =
        λ same. rw same (record { sql = sql; read = read; executed = executed; listed = refl }) in
      elim (Result-cases (wrap context (send q) conn).0) [
        | inl (done, e) ↦
            inl (ran (state ∙ (send-ok q conn (wrap-eq-ok context (send q) conn e)).1))
        | inr (x, e) ↦ elim (send-either q conn) [
          | inl written ↦ inl (ran (state ∙ written))
          | inr kept ↦ inr (x, e, state ∙ kept)
        ]
      ]

  finish-Ends :
      (name sql : Bytes) (schema : S) (conn : Conn S)
      → fs.read_file name ≡ ok sql
      → exec sql conn.catalog.schema ≡ ok schema
      → Ends name conn.catalog (finish name schema conn)
  unfolding finish
  finish-Ends name sql schema conn read executed =
      let check = or_rollback (send (check_version {S = S} name)) in
      let context = codes "record " ++ (name ++ codes ": ") in
      let quiet : Quiet (wrap context check) = wrap-Quiet check context (
        or_rollback-Quiet (send (check_version name))
          (send-Quiet (check_version name) (check_version-same name))) in
      after-Quiet name (wrap context check)
        (λ done. wrap (codes "commit " ++ (name ++ codes ": ")) (send (commit schema name))) conn
        quiet
        (λ done e.
          commit-Ends name sql schema (codes "commit " ++ (name ++ codes ": "))
            (wrap context check conn).1 read
            (ap (exec sql) (ap (λ (c : Catalog S). c.schema) (quiet conn)) ∙ executed))

  transact-Ends :
      (name sql : Bytes) (conn : Conn S)
      → fs.read_file name ≡ ok sql
      → Ends name conn.catalog (transact fs exec name sql conn)
  unfolding transact
  transact-Ends name sql conn read =
      let begin = codes "begin " ++ (name ++ codes ": ") in
      let apply = codes "apply " ++ (name ++ codes ": ") in
      let file = exec_file fs exec sql in
      let executing = or_rollback (send file) in
      let quiet =
        wrap-Quiet executing apply (or_rollback-Quiet (send file) (send-Quiet file (λ c. refl))) in
      let conn₁ = (wrap begin (ask {S = S}) conn).1 in
      after-Quiet name (wrap begin (ask {S = S})) (λ done. wrap apply executing >>= finish name)
        conn (wrap-Quiet (ask {S = S}) begin ask-Quiet)
        (λ done e. after-Quiet name (wrap apply executing) (finish name) conn₁ quiet (λ schema got.
          finish-Ends name sql schema (wrap apply executing conn₁).1 read (
            ap (exec sql) (ap (λ (c : Catalog S). c.schema) (quiet conn₁))
            ∙ (send-ok file conn₁
                (or_rollback-ok (send file) conn₁ (wrap-eq-ok apply executing conn₁ got))).0)))

  pub apply_one-Ends :
      (name : Bytes) (conn : Conn S) → Ends name conn.catalog (apply_one fs exec name conn)
  unfolding apply_one
  apply_one-Ends name conn = elim (Result-cases (fs.read_file name)) [
    | inl (sql, e) ↦ rw (apply_one, e) (transact-Ends name sql conn e)
    | inr (x, e) ↦
        rw (apply_one, e) (inr (wrapped (codes "read " ++ (name ++ codes ": ")) x, refl, refl))
  ]
