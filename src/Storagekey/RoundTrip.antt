-- ===== src/Storagekey/RoundTrip.antt =====
-- `Build` and `Split` of internal/storagekey/storagekey.go, one after the other.
use lapis_archive_file_servi.Prelude.{
  ℕ, [], ◌∷◌, ◌++◌, Bytes, none, some, ◌≡◌, ◌≢◌, refl, arith, All, ◌⊎◌, inl, inr, Option-cases,
}
use lapis_archive_file_servi.Storagekey.{cut, build, split}

abbrev pub Lacks : ℕ → Bytes → Type 0
Lacks b = All (λ c. c ≢ b)

pub cut-append : (sep : ℕ) (a b : Bytes) → Lacks sep a → cut (a ++ sep ∷ b) sep ≡ some (a, b)
unfolding cut
cut-append sep [] b h = ground arith
cut-append sep (c ∷ a) b h = ground (arith, cut-append sep a b h.1)

pub cut-none : (sep : ℕ) (s : Bytes) → Lacks sep s → cut s sep ≡ none
unfolding cut
cut-none sep [] h = refl
cut-none sep (c ∷ s) h = ground (arith, cut-none sep s h.1)

pub cut_found :
    (sep : ℕ) (s : Bytes) {a b : Bytes} → cut s sep ≡ some (a, b) → (a ++ sep ∷ b ≡ s) × Lacks sep a
unfolding cut
cut_found sep [] h = cc
cut_found sep (c ∷ s) h = elim (Option-cases (cut s sep)) [
  | inl lost ↦ ground arith
  | inr (p, found) ↦ ground (arith, cut_found sep s found)
]

pub cut_lost : (sep : ℕ) (s : Bytes) → cut s sep ≡ none → Lacks sep s
unfolding cut
cut_lost sep [] h = tt
cut_lost sep (c ∷ s) h = ground (arith, cut_lost sep s)

-- Splitting a key that was built gives the file id and the name back, if the id has no underscore
-- (the name may have any).
pub split-build : (id name : Bytes) → Lacks b'_' id → split (build id name) ≡ (id, name)
unfolding split build
split-build id name h = ground (arith, cut-append b'_' id name h)

-- A key that has an underscore is built again from its parts; one that has none is all name.
pub build-split :
    (key : Bytes)
    → (build (split key).0 (split key).1 ≡ key) ⊎ (Lacks b'_' key × (split key ≡ ([], key)))
unfolding split build
build-split key = elim (Option-cases (cut key b'_')) [
  | inl lost ↦ inr (cut_lost b'_' key lost, ground arith)
  | inr (p, found) ↦ inl (ground (arith, (cut_found b'_' key found).0))
]
