-- ===== src/Handlers/RateLimit.antt =====
-- internal/handlers/ratelimit.go: a sliding window for each key. The mutex makes each call of
-- `Allow` one step; `time.Now()` is an argument.
pub mod Recent
pub mod Bounds
pub mod Follows
pub mod History
use lapis_archive_file_servi.Prelude.{
  ℕ, [], ◌∷◌, ◌++◌, List, Bytes, Bool, true, false, not, ◌&&◌, none, some, leb, if◌then◌else◌,
  length, keep_if,
}
use lapis_archive_file_servi.Prelude.Int.{◌-ℤ◌}
use lapis_archive_file_servi.Time.{Time, Duration, after}
use lapis_archive_file_servi.Dict.{Dict, lookup, put, delete_where, has}

pub record RateLimiter : Type 0 where
  pub events : Dict (List Time)
  pub limit : ℕ
  pub window : Duration
  pub max_keys : ℕ

abbrev pub new_rate_limiter : ℕ → Duration → RateLimiter
new_rate_limiter limit window = record {
  events = [];
  limit = limit;
  window = window;
  max_keys = 10000;
}

-- `r.events[key]`: nil for a key that is not there
unfoldable pub events_of : Bytes → Dict (List Time) → List Time
events_of key events = elim (lookup key events) [ none ↦ [] | some times ↦ times ]

-- `len(times) == 0 || !times[len(times)-1].After(cutoff)`
unfoldable pub is_stale : Time → List Time → Bool
is_stale cutoff [] = true
is_stale cutoff (t ∷ []) = not (after t cutoff)
is_stale cutoff (t ∷ u ∷ times) = is_stale cutoff (u ∷ times)

unfoldable pub evict_stale : Time → RateLimiter → RateLimiter
evict_stale cutoff r = record r { events = delete_where (is_stale cutoff) r.events }

abbrev pub recent : Time → List Time → List Time
recent cutoff = keep_if (λ t. after t cutoff)

-- the write at the end of `Allow`
abbrev pub admit : Bytes → List Time → RateLimiter → Bool × RateLimiter
admit key times r = (true, record r { events = put key times r.events })

unfoldable pub allow : RateLimiter → Bytes → Time → Bool × RateLimiter
unfolding evict_stale
allow r key now =
    let cutoff = now -ℤ r.window in
    let kept = recent cutoff (events_of key r.events) in
    let swept = evict_stale cutoff r in
    if leb r.limit (length kept)
    then (false, record r { events = put key kept r.events })
    else if not (has key r.events) && leb r.max_keys (length r.events)
    then (if leb r.max_keys (length swept.events)
        then (false, swept)
        else admit key (kept ++ now ∷ []) swept)
    else admit key (kept ++ now ∷ []) r
