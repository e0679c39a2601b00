-- ===== src/Tests/Disk.antt =====
-- The provider of Tests.Memory with metadata, handles and a directive to detach; and a reply buffer
-- for two names.
use shell_canvas_drive_bridg.Base.{
  ℕ, ◌≡◌, refl, true, false, none, some, List, [], ◌∷◌, ◌++◌, String, ok, leb, if◌then◌else◌,
  length,
}
use shell_canvas_drive_bridg.Sdk.{
  Sdk, IsLawful, FsResult, FsKind, FsMetadata, FsCapabilities, Operation, Value, BridgeDirective,
}
use shell_canvas_drive_bridg.Sdk.Listings.{Lists}
use shell_canvas_drive_bridg.Sdk.Scripted.{append_name, scripted-IsLawful}
use shell_canvas_drive_bridg.Transfer.Reading.{Serves}
use shell_canvas_drive_bridg.Transfer.Writing.{Stores}
use shell_canvas_drive_bridg.Tests.Memory.{
  Drive, respond, memory-Serves, memory-Stores, memory-Lists, file_named,
}
use shell_canvas_drive_bridg.Windows.Data.Writing.{Tells}
use shell_canvas_drive_bridg.Windows.Listing.{DirBuffer}
use shell_canvas_drive_bridg.Windows.Volume.{WinFsp, Volume, Step, Reach, started, accept}
use shell_canvas_drive_bridg.Windows.Opening.{open_entry}

abbrev pub file_of_size : ℕ → FsMetadata
file_of_size n = record {
  kind = FsKind.file;
  size = n;
  accessed = none;
  modified = none;
  permissions = none;
}

abbrev pub serve : Operation → Drive → FsResult Value × Drive
serve Operation.poll r = (ok (Value.directive BridgeDirective.detach), r)
serve (Operation.metadata p) r = (ok (Value.metadata (file_of_size (length r.content))), r)
serve (Operation.file_metadata h) r = (ok (Value.metadata (file_of_size (length r.content))), r)
serve (Operation.open_file p o) r = (ok (Value.handle 5), r)
serve op r = respond op r

abbrev pub disk : Sdk
disk = record { Remote = Drive; call = serve; child = append_name }

pub disk-IsLawful : IsLawful disk
disk-IsLawful = record {
  child_appends = scripted-IsLawful.child_appends;
  child_uniform = scripted-IsLawful.child_uniform;
}

pub disk-Serves : (xs : List ℕ) → Serves serve 5 xs (λ r. r.content ≡ xs)
disk-Serves xs = record {
  part = (memory-Serves 5 xs).part;
  rest = (memory-Serves 5 xs).rest;
  replies = (memory-Serves 5 xs).replies;
  splits = (memory-Serves 5 xs).splits;
  short = (memory-Serves 5 xs).short;
  ends = (memory-Serves 5 xs).ends;
  stays = (memory-Serves 5 xs).stays;
}

pub disk-Stores : Stores serve 5 (λ r. r.content)
disk-Stores = record {
  reply = (memory-Stores 5).reply;
  replies = (memory-Stores 5).replies;
  stores = (memory-Stores 5).stores;
}

pub disk-Tells : Tells disk 5 (λ r. r.content)
disk-Tells = record {
  meta = λ r. file_of_size (length r.content);
  replies = λ r. refl;
  sized = λ r. refl;
  keeps = λ r. refl;
}

pub disk-Lists : Lists disk 7 (λ es r. r.listing ≡ es)
disk-Lists = record {
  page = (memory-Lists 7).page;
  rest = (memory-Lists 7).rest;
  replies = (memory-Lists 7).replies;
  splits = (memory-Lists 7).splits;
  ends = (memory-Lists 7).ends;
  stays = (memory-Lists 7).stays;
}

abbrev pub two_names : DirBuffer
two_names = record {
  Buffer = List String;
  Info = String;
  dir_info = λ info name. ok name;
  append_to_buffer = λ name b. if leb 2 (length b) then (false, b) else (true, b ++ (name ∷ []));
  finalize_buffer = λ b. b ++ ("" ∷ []);
}

abbrev pub winfsp : WinFsp
winfsp = record { buffer = two_names; status_text = λ e. "error"; gate_text = λ e. "busy" }

abbrev pub writable : FsCapabilities
writable = record { writable = true; atomic_replace = true; durable_flush = true }

abbrev pub three_files : Drive
three_files = record {
  content = 10 ∷ 11 ∷ 12 ∷ 13 ∷ 14 ∷ [];
  listing = file_named "p" ∷ file_named "q" ∷ file_named "r" ∷ [];
}

abbrev pub fresh : Volume disk
fresh = started disk three_files writable

-- `\a`, opened for writing.
abbrev pub one_open : Volume disk
one_open = accept disk [] (open_entry disk (some "\\a") 0 3 fresh.fs)

abbrev pub to_one_open : Reach disk winfsp fresh one_open
to_one_open = Reach.next {t = fresh} Reach.here (Step.open_entry (some "\\a") 0 3)
