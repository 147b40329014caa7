-- ===== src/Migrate/Statements.antt =====
-- What a statement of internal/migrate/migrate.go does to the catalog, whatever becomes of it.
use lapis_archive_file_servi.Prelude.{
  [], ◌∷◌, List, Bytes, ◌≡◌, ◌∙◌, refl, ap, ◌⊎◌, inl, inr, arith,
}
use lapis_archive_file_servi.Result.{Result, Result-cases, ok}
use lapis_archive_file_servi.Act.{Act, wrap, wrap-state}
use lapis_archive_file_servi.Store.{Fate, answered, lost, unacknowledged}
use lapis_archive_file_servi.Migrate.{Catalog, Conn, send_fated, send, ask, or_rollback}

-- `m` leaves the catalog as it is.
abbrev pub Quiet : {S A : Type 0} → Act (Conn S) A → Type 0
Quiet {S} m = (conn : Conn S) → (m conn).1.catalog ≡ conn.catalog

module _ {S A : Type 0} (q : Catalog S → Result A × Catalog S) where
  pub send-either :
      (conn : Conn S)
      → ((send q conn).1.catalog ≡ (q conn.catalog).1) ⊎ ((send q conn).1.catalog ≡ conn.catalog)
  unfolding send
  send-either conn = by_fate conn.fates
    where
      by_fate :
          (fates : List Fate)
          → ((send_fated q conn.catalog fates).1.catalog ≡ (q conn.catalog).1)
            ⊎ ((send_fated q conn.catalog fates).1.catalog ≡ conn.catalog)
      by_fate [] = inl refl
      by_fate (answered ∷ fates) = inl refl
      by_fate (lost e ∷ fates) = inr refl
      by_fate (unacknowledged e ∷ fates) = inl refl

  pub send-ok :
      (conn : Conn S) {a : A}
      → (send q conn).0 ≡ ok a
      → ((q conn.catalog).0 ≡ ok a) × ((send q conn).1.catalog ≡ (q conn.catalog).1)
  unfolding send
  send-ok conn {a} e = by_fate conn.fates e
    where
      by_fate :
          (fates : List Fate)
          → (send_fated q conn.catalog fates).0 ≡ ok a
          → ((q conn.catalog).0 ≡ ok a)
            × ((send_fated q conn.catalog fates).1.catalog ≡ (q conn.catalog).1)
      by_fate [] e = (e, refl)
      by_fate (answered ∷ fates) e = (e, refl)
      by_fate (lost x ∷ fates) e = cc
      by_fate (unacknowledged x ∷ fates) e = cc

  pub send-Quiet : ((c : Catalog S) → (q c).1 ≡ c) → Quiet (send q)
  send-Quiet same conn = elim (send-either conn) [
    | inl ran ↦ ran ∙ same conn.catalog
    | inr kept ↦ kept
  ]

pub ask-Quiet : {S : Type 0} (conn : Conn S) → (ask conn).1.catalog ≡ conn.catalog
ask-Quiet conn = send-Quiet (λ c. (ok tt, c)) (λ c. refl) conn

module _ {S A : Type 0} (m : Act (Conn S) A) where
  pub or_rollback-Quiet : Quiet m → Quiet (or_rollback m)
  unfolding or_rollback
  or_rollback-Quiet quiet conn = elim (Result-cases (m conn).0) [
    | inl (a, e) ↦ rw (or_rollback, e) (quiet conn)
    | inr (x, e) ↦ rw (or_rollback, e) (ask-Quiet (m conn).1 ∙ quiet conn)
  ]

  pub or_rollback-ok : (conn : Conn S) {a : A} → (or_rollback m conn).0 ≡ ok a → (m conn).0 ≡ ok a
  unfolding or_rollback
  or_rollback-ok conn h = ground arith

  pub wrap-Quiet : (context : Bytes) → Quiet m → Quiet (wrap context m)
  wrap-Quiet context quiet conn =
      ap (λ (c : Conn S). c.catalog) (wrap-state context m conn) ∙ quiet conn
