-- ===== src/Tests/Unmount.antt =====
-- Runs of the unmount helper.
use shell_canvas_drive_bridg.Base.{
  ℕ, ◌≤◌, ◌+◌, refl, true, some, none, ok, arith, leb, if◌then◌else◌,
}
use shell_canvas_drive_bridg.Fuse.Lifecycle.Unmount.{
  System, ExitStatus, ordinary_unmount, find_helper, start_helper, await,
}
use shell_canvas_drive_bridg.Fuse.Lifecycle.Unmount.Deadline.{
  Ticks, Ends, Confirms, ordinary_unmount_ok, ordinary_unmount-Ends,
}

abbrev success : ExitStatus
success = record { success = true; text = "exit status: 0" }

-- A helper that ends at 0.1 s on the clock; the world is the clock.
abbrev prompt_helper : System
prompt_helper = record {
  World = ℕ;
  Child = Unit;
  is_file = λ p w. true;
  spawn = λ p args w. (ok tt, w);
  try_wait = λ c w. (ok (if leb 100 w then some success else none), w);
  kill = λ c w. w;
  reap = λ c w. w;
  now = λ w. w;
  sleep = λ n w. w + n;
}

clock_steady :
    (c : Unit {0}) (w : ℕ) → prompt_helper.now w ≤ prompt_helper.now (prompt_helper.try_wait c w).1
clock_steady c w = omega arith

clock_slept : (n w : ℕ) → prompt_helper.now w + n ≤ prompt_helper.now (prompt_helper.sleep n w)
clock_slept n w = omega arith

abbrev clock : Ticks prompt_helper
clock = record { steady = clock_steady; slept = clock_slept }

ordinary_unmount-Ends_example : Ends prompt_helper (ordinary_unmount prompt_helper 301 "/mnt" 0)
ordinary_unmount-Ends_example = ordinary_unmount-Ends prompt_helper clock "/mnt" 0

ordinary_unmount_ok_example : Confirms prompt_helper 100
unfolding ordinary_unmount find_helper start_helper await
ordinary_unmount_ok_example = ordinary_unmount_ok prompt_helper 301 "/mnt" 0 100 refl
