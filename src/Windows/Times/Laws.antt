-- ===== src/Windows/Times/Laws.antt =====
-- src/windows_times.rs: the two conversions against each other.
use shell_canvas_drive_bridg.Base.{ℕ, ◌+◌, ◌*◌, ◌≤◌, ◌<◌, ◌≡◌, ◌≢◌, Option, none, some, ok, arith}
use shell_canvas_drive_bridg.Windows.Times.{
  epoch, ticks_per_second, max_filetime, filetime, unix_seconds,
}

-- A file time is 0, for unavailable, or that of the given second, and it always fits an i64.
pub filetime_exact :
    (o : Option ℕ)
    → filetime o ≢ 0
    → (s : ℕ) × (o ≡ some s)
      × (filetime o ≡ s * ticks_per_second + epoch)
      × (filetime o ≤ max_filetime)
unfolding filetime
filetime_exact none h = absurd (h (ground arith))
filetime_exact (some s) h = (s, ground arith, ground arith, ground arith)

-- Seconds come back unchanged from their file time, also when less than a second has been added to
-- it, if the sum fits an i64.
pub unix_seconds-filetime :
    (s d : ℕ)
    → d < ticks_per_second
    → s * ticks_per_second + epoch + d ≤ max_filetime
    → unix_seconds (filetime (some s) + d) ≡ ok (some s)
unfolding filetime unix_seconds
unix_seconds-filetime s d small fits = ground arith

-- The other way round: an accepted file time is rounded down to the second.
pub unix_seconds_floor :
    (t s : ℕ)
    → unix_seconds t ≡ ok (some s)
    → (filetime (some s) ≤ t) × (t < filetime (some s) + ticks_per_second) × (t ≤ max_filetime)
unfolding filetime unix_seconds
unix_seconds_floor t s h = ground arith
