-- ===== src/Time.antt =====
-- Package `time`: instants and durations are signed numbers of nanoseconds. A duration is an
-- int64, so a product of durations wraps around.
use lapis_archive_file_servi.Prelude.{ℕ, ◌+◌, ◌-◌, ◌*◌, ◌/◌, ◌%◌, ◌^◌, ltb, if◌then◌else◌, Bool}
use lapis_archive_file_servi.Prelude.Int.{ℤ, pos, negsuc, ◌*ℤ◌, ltb_ℤ}

-- Nanoseconds since the Unix epoch, in UTC.
abbrev pub Time : Type 0
Time = ℤ

abbrev pub Duration : Type 0
Duration = ℤ

abbrev pub hour : Duration
hour = pos 3600000000000

abbrev pub minute : Duration
minute = pos 60000000000

abbrev pub second : Duration
second = pos 1000000000

-- The int64 with the same low 64 bits.
unfoldable pub signed : ℕ → ℤ
signed u = if ltb u (2 ^ 63) then pos u else negsuc (2 ^ 64 - 1 - u)

unfoldable pub wrap_int64 : ℤ → ℤ
unfolding signed
wrap_int64 (pos n) = signed (n % 2 ^ 64)
wrap_int64 (negsuc n) = signed (2 ^ 64 - 1 - n % 2 ^ 64)

-- `time.Duration(n) * d`
unfoldable pub times : ℤ → Duration → Duration
unfolding wrap_int64 ◌*ℤ◌
times n d = wrap_int64 (n *ℤ d)

-- What a column of type timestamptz keeps of an instant: its microseconds, rounded down.
unfoldable pub to_micros : Time → Time
to_micros (pos n) = pos (n / 1000 * 1000)
to_micros (negsuc n) = negsuc ((n / 1000 + 1) * 1000 - 1)

-- `t.After(u)`
abbrev pub after : Time → Time → Bool
after t u = ltb_ℤ u t
