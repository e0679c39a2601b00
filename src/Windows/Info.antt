-- ===== src/Windows/Info.antt =====
-- src/windows.rs, `fill`: the information on a file that the kernel is given.
use shell_canvas_drive_bridg.Base.{ℕ, ◌+◌, ◌*◌, ◌/◌, ◌-◌, ◌^◌, min}
use shell_canvas_drive_bridg.Sdk.{FsMetadata}
use shell_canvas_drive_bridg.Windows.Attributes.{attributes}
use shell_canvas_drive_bridg.Windows.Times.{filetime}

-- The fields that the source sets; every other keeps its default, zero.
pub record FileInfo : Type 0 where
  pub file_attributes : ℕ
  pub file_size : ℕ
  pub allocation_size : ℕ
  pub last_write_time : ℕ
  pub last_access_time : ℕ

-- `size.div_ceil(4096).saturating_mul(4096)`
unfoldable pub allocation : ℕ → ℕ
allocation size = min ((size + 4095) / 4096 * 4096) (2 ^ 64 - 1)

unfoldable pub fill : FsMetadata → FileInfo
fill m = record {
  file_attributes = attributes m;
  file_size = m.size;
  allocation_size = allocation m.size;
  last_write_time = filetime m.modified;
  last_access_time = filetime m.accessed;
}
