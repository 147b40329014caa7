-- ===== src/Domain/Verify.antt =====
-- `Verify` of internal/domain/share.go, for a share whose code was issued and for what may be typed.
use lapis_archive_file_servi.Prelude.{
  ◌++◌, Bytes, ◌≡◌, sym, ap, ◌∙◌, ◌⊎◌, inl, inr, arith, All, ≟_sound, ≟_refl,
}
use lapis_archive_file_servi.Prelude.Int.{◌+ℤ◌, ◌≤ℤ◌, ◌<ℤ◌}
use lapis_archive_file_servi.Result.{ok, err, expired, wrong_code}
use lapis_archive_file_servi.Time.{Time, Duration}
use lapis_archive_file_servi.Hex
use lapis_archive_file_servi.Domain.{Share, bound_ttl, verify, hash_code, normalize_code}
use lapis_archive_file_servi.Domain.Codes.{Spells, normalize_code-Spells}
use lapis_archive_file_servi.Domain.Shares.{IsByte, IsIssued}

module _ (sha256 : Bytes → Bytes) where
  -- An expired share is refused as such, whatever is typed.
  pub verify_expired :
      (s : Share) (t : Time) (typed : Bytes)
      → (s.expires_at <ℤ t)
      → verify sha256 s t typed ≡ err expired
  unfolding verify
  verify_expired s t typed h = ground arith

  pub verify_salted :
      (s : Share) (salt typed : Bytes) (t : Time)
      → All IsByte salt
      → s.code_salt ≡ Hex.encode salt
      → t ≤ℤ s.expires_at
      → ((s.code_hash ≡ hash_code sha256 salt (normalize_code typed))
          × (verify sha256 s t typed ≡ ok tt))
        ⊎ (¬ (s.code_hash ≡ hash_code sha256 salt (normalize_code typed))
            × (verify sha256 s t typed ≡ err wrong_code))
  unfolding verify
  verify_salted s salt typed t bytes salted live = ground (
    arith,
    Hex.decode-encode salt bytes,
    ≟_sound s.code_hash (hash_code sha256 salt (normalize_code typed)),
    ≟_refl s.code_hash,
  )

-- Hexadecimal text determines the bytes.
encode_injective : (a b : Bytes) → All IsByte a → All IsByte b → Hex.encode a ≡ Hex.encode b → a ≡ b
encode_injective a b ha hb e = cc (Hex.decode-encode a ha, Hex.decode-encode b hb, ap Hex.decode e)

-- A share whose code was issued at an instant for a lifetime answers every attempt: after its
-- expiry with `expired`; until then it opens for what spells the code, and anything else is a wrong
-- code. This takes that SHA-256 yields bytes and that what was typed does not collide with the code.
pub verify-IsIssued :
    (sha256 : Bytes → Bytes) (now : Time) (ttl : Duration) (s : Share) (code typed : Bytes)
    (t : Time)
    → ((a : Bytes) → All IsByte (sha256 a))
    → ((salt : Bytes)
        → sha256 (salt ++ normalize_code typed) ≡ sha256 (salt ++ code)
        → normalize_code typed ≡ code)
    → IsIssued sha256 now ttl s code
    → (now +ℤ bound_ttl ttl <ℤ t → verify sha256 s t typed ≡ err expired)
      × (t ≤ℤ now +ℤ bound_ttl ttl → Spells code typed → verify sha256 s t typed ≡ ok tt)
      × (t ≤ℤ now +ℤ bound_ttl ttl → ¬ Spells code typed → verify sha256 s t typed ≡ err wrong_code)
unfolding hash_code
verify-IsIssued sha256 now ttl s code typed t digest no_collision h =
    let spells = normalize_code-Spells code typed h.well_formed.1 in
    let settled = verify_salted sha256 s h.salt typed t h.salt_bytes h.salted in
    (
      λ late. verify_expired sha256 s t typed (rw h.granted late),
      λ live spelled. elim (settled (rw h.granted live)) [
        | inl (e, passes) ↦ passes
        | inr (ne, fails) ↦
            absurd (ne (h.hashed ∙ ap (hash_code sha256 h.salt) (sym (spells.1 spelled))))
      ],
      λ live misspelled. elim (settled (rw h.granted live)) [
        | inl (e, passes) ↦ absurd (
            misspelled (
              spells.0 (
                no_collision h.salt (
                  same_digest (h.salt ++ normalize_code typed) (h.salt ++ code)
                    (sym e ∙ h.hashed)))))
        | inr (ne, fails) ↦ fails
      ],
    )
  where
    same_digest :
        (a b : Bytes) → Hex.encode (sha256 a) ≡ Hex.encode (sha256 b) → sha256 a ≡ sha256 b
    same_digest a b e = encode_injective (sha256 a) (sha256 b) (digest a) (digest b) e
