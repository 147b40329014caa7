-- ===== src/Handlers/RateLimit/Bounds.antt =====
-- The size of the limiter's table.
use lapis_archive_file_servi.Prelude.{
  ◌≤◌, ◌<◌, [], ◌∷◌, ◌++◌, Bytes, length, keep_if, ◌≡◌, refl, arith,
}
use lapis_archive_file_servi.Prelude.Int.{◌-ℤ◌}
use lapis_archive_file_servi.Time.{Time}
use lapis_archive_file_servi.Dict.{
  delete_where, length-put, length-delete_where-le, IsDict, put-IsDict, delete_where-IsDict,
}
use lapis_archive_file_servi.Handlers.RateLimit.{RateLimiter, events_of, is_stale, recent, allow}

recent_nil : (cutoff : Time) → recent cutoff [] ≡ []
unfolding keep_if
recent_nil cutoff = refl

-- The table stays a table, and never holds more keys than its bound.
pub record IsBounded (r : RateLimiter) : Type 0 where
  pub keyed : IsDict r.events
  pub bounded : length r.events ≤ r.max_keys
  pub limits : 0 < r.limit

-- No request, allowed or refused, makes the table outgrow its bound. (It takes that the limit is
-- not zero: at a limit of zero every new key would be stored.)
pub allow-IsBounded :
    (r : RateLimiter) (key : Bytes) (now : Time) → IsBounded r → IsBounded (allow r key now).1
unfolding allow events_of
allow-IsBounded r key now h =
    let cutoff = now -ℤ r.window in
    let kept = recent cutoff (events_of key r.events) in
    let swept = delete_where (is_stale cutoff) r.events in
    ground (
      arith,
      recent_nil cutoff,
      put-IsDict key kept r.events h.keyed,
      put-IsDict key (kept ++ now ∷ []) r.events h.keyed,
      put-IsDict key (kept ++ now ∷ []) swept
          (delete_where-IsDict (is_stale cutoff) r.events h.keyed),
      delete_where-IsDict (is_stale cutoff) r.events h.keyed,
      length-put key kept r.events,
      length-put key (kept ++ now ∷ []) r.events,
      length-put key (kept ++ now ∷ []) swept,
      length-delete_where-le (is_stale cutoff) r.events,
    )
