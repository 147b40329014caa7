-- ===== src/Handlers/Health.antt =====
-- internal/handlers/health.go, with `HealthResponse` of internal/transport/rest/response.go.
use lapis_archive_file_servi.Prelude.{◌/◌, Bytes, codes}
use lapis_archive_file_servi.Prelude.Int.{ℤ, pos, negsuc}
use lapis_archive_file_servi.Act.{Step}
use lapis_archive_file_servi.Time.{Time}
use lapis_archive_file_servi.Handlers.World.{World, Reply, success, read_clock}

pub record HealthResponse : Type 0 where
  pub status : Bytes
  pub timestamp : ℤ
  pub service : Bytes

-- `Unix()`: the seconds, rounded down, also before 1970
unfoldable pub unix : Time → ℤ
unix (pos n) = pos (n / 1000000000)
unix (negsuc n) = negsuc (n / 1000000000)

-- `HealthHandler`
unfoldable pub health_handler : {O : Type 0} → Step (World O) (Reply HealthResponse)
health_handler w =
    let (t, w₁) = read_clock w in
    (
      success (record {
        status = codes "ok";
        timestamp = unix t;
        service = codes "lapis-archive-file-service";
      }),
      w₁,
    )
