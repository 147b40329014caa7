-- ===== src/Domain/Opens.antt =====
-- The code that belongs to a share by its salt and its hash, as `Verify` of internal/domain/share.go
-- reads them.
use lapis_archive_file_servi.Prelude.{Bytes, All, ◌≡◌, sym, ap, ◌∙◌, inl, inr}
use lapis_archive_file_servi.Prelude.Int.{◌≤ℤ◌}
use lapis_archive_file_servi.Time.{Time, Duration}
use lapis_archive_file_servi.Hex
use lapis_archive_file_servi.Result.{ok}
use lapis_archive_file_servi.Domain.{Share, hash_code, verify}
use lapis_archive_file_servi.Domain.Codes.{Spells, normalize_code-Spells}
use lapis_archive_file_servi.Domain.Shares.{IsByte, IsCode, IsIssued}
use lapis_archive_file_servi.Domain.Verify.{verify_salted}

pub record Opens (sha256 : Bytes → Bytes) (s : Share) (code : Bytes) : Type 0 where
  pub well_formed : IsCode code
  pub salt : Bytes
  pub salt_bytes : All IsByte salt
  pub salted : s.code_salt ≡ Hex.encode salt
  pub hashed : s.code_hash ≡ hash_code sha256 salt code

pub IsIssued-Opens :
    (sha256 : Bytes → Bytes) (now : Time) (ttl : Duration) (s : Share) (code : Bytes)
    → IsIssued sha256 now ttl s code
    → Opens sha256 s code
IsIssued-Opens sha256 now ttl s code h = record {
  well_formed = h.well_formed;
  salt = h.salt;
  salt_bytes = h.salt_bytes;
  salted = h.salted;
  hashed = h.hashed;
}

-- The code depends on the salt and the hash alone.
pub Opens-same :
    (sha256 : Bytes → Bytes) (s s' : Share) (code : Bytes)
    → s'.code_salt ≡ s.code_salt
    → s'.code_hash ≡ s.code_hash
    → Opens sha256 s code
    → Opens sha256 s' code
Opens-same sha256 s s' code salts hashes h = record {
  well_formed = h.well_formed;
  salt = h.salt;
  salt_bytes = h.salt_bytes;
  salted = salts ∙ h.salted;
  hashed = hashes ∙ h.hashed;
}

-- Until the expiry, the share opens for whatever spells its code.
pub verify-Opens :
    (sha256 : Bytes → Bytes) (s : Share) (code typed : Bytes) (t : Time)
    → Opens sha256 s code
    → t ≤ℤ s.expires_at
    → Spells code typed
    → verify sha256 s t typed ≡ ok tt
verify-Opens sha256 s code typed t h live spelled =
    let spells = normalize_code-Spells code typed h.well_formed.1 in
    elim (verify_salted sha256 s h.salt typed t h.salt_bytes h.salted live) [
      | inl (e, passes) ↦ passes
      | inr (ne, fails) ↦
          absurd (ne (h.hashed ∙ ap (hash_code sha256 h.salt) (sym (spells.1 spelled))))
    ]
