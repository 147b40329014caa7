-- ===== src/Handlers/Retention.antt =====
-- `capToRetention` of internal/handlers/share.go.
use lapis_archive_file_servi.Prelude.{Bytes, some, ◌≡◌, arith, [], ◌≢◌, inl, inr}
use lapis_archive_file_servi.Prelude.Int.{pos, ◌+ℤ◌, ◌≤ℤ◌, ◌<ℤ◌}
use lapis_archive_file_servi.Result.{Result-cases, ok}
use lapis_archive_file_servi.Time.{Duration}
use lapis_archive_file_servi.Domain.{Share, Upload}
use lapis_archive_file_servi.Handlers.World.{World, ShareStore, UploadLookup}
use lapis_archive_file_servi.Handlers.Reshare.{window_of, cap, cap_to, cap_to_retention}

cap-bounds :
    (window : Duration) (up : Upload) (s : Share)
    → ((cap window up s).expires_at ≤ℤ s.expires_at)
      × (pos 0 <ℤ window → (cap window up s).expires_at ≤ℤ up.created_at +ℤ window)
      × (cap window up s ≡ record s { expires_at = (cap window up s).expires_at })
unfolding cap
cap-bounds window up s = ground arith

-- Capping a share changes its expiry alone, and never to a later one; if the upload is read and the
-- window of its kind is positive, the share expires no later than the file is due, by the window for
-- anonymous uploads exactly if the upload has no owner.
pub cap_to_retention-bounds :
    {O : Type 0} (store : ShareStore) (lookup : UploadLookup) (anon_ttl owned_ttl : Duration)
    (key : Bytes) (s : Share) (w : World O) (up : Upload)
    → let capped = (cap_to_retention store (some lookup) anon_ttl owned_ttl key s w).0 in
      (capped ≡ record s { expires_at = capped.expires_at })
      × (capped.expires_at ≤ℤ s.expires_at)
      × ((lookup key w.db).0 ≡ ok up
          → (up.owner_id ≡ [] → pos 0 <ℤ anon_ttl → capped.expires_at ≤ℤ up.created_at +ℤ anon_ttl)
            × (up.owner_id ≢ []
                → pos 0 <ℤ owned_ttl
                → capped.expires_at ≤ℤ up.created_at +ℤ owned_ttl))
unfolding cap_to_retention cap_to
cap_to_retention-bounds store lookup anon_ttl owned_ttl key s w up =
    elim (Result-cases (lookup key w.db).0) [
      | inl (u, got) ↦ ground (arith, cap-bounds (window_of anon_ttl owned_ttl u.owner_id) u s)
      | inr (x, failed) ↦ ground arith
    ]
