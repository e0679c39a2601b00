-- ===== src/Tests/Held.antt =====
-- A history of the WinFsp volume with the provider of Tests.Server: the root and the file `\a` are
-- opened, `\b` is created and abandoned, and the root is listed.
use shell_canvas_drive_bridg.Base.{
  ◌≡◌, refl, true, false, none, some, [], ◌∷◌, ok, nat_eq, string_eq, list_eq,
}
use shell_canvas_drive_bridg.Base.Dict
use shell_canvas_drive_bridg.Sdk.Paths.{children}
use shell_canvas_drive_bridg.Tests.Server.{server, server-Handles, idle, none_open}
use shell_canvas_drive_bridg.Tests.Disk.{winfsp, writable, two_names}
use shell_canvas_drive_bridg.Windows.Names.{path, non_empty, split, trim_start}
use shell_canvas_drive_bridg.Windows.Gate.{enter, drop_guard}
use shell_canvas_drive_bridg.Windows.Handles.{blocks_detach, register}
use shell_canvas_drive_bridg.Windows.Contexts
use shell_canvas_drive_bridg.Windows.Contexts.{
  Context, Fs, enter_gate, release_on_error, path_metadata, call, open_context, open_handle,
  needs_no_handle, open_options, track, unread, metadata, metadata_reply, drop_context,
  close_remotes, close_quietly, warn,
}
use shell_canvas_drive_bridg.Windows.Attributes.{creation_attributes, validate_attributes}
use shell_canvas_drive_bridg.Windows.Opening.{
  open_entry, find_entry, create, make_entry, fill_new, initialize, abandon_on_error,
}
use shell_canvas_drive_bridg.Windows.Listing.{
  read_directory, position, reopen, close_stream, open_stream, list_loop, list_round, next_page,
  fetch_page, take_entry,
}
use shell_canvas_drive_bridg.Windows.Volume.{Volume, Step, Reach, started, accept}
use shell_canvas_drive_bridg.Windows.Held.Steps.{
  Among, file_handle, stream_handle, file-Among, stream-Among,
}

abbrev fresh : Volume server
fresh = started server idle writable

abbrev root_open : Volume server
root_open = accept server [] (open_entry server (some "\\") 1 1 fresh.fs)

abbrev both_open : Volume server
both_open = accept server root_open.contexts (open_entry server (some "\\a") 0 3 root_open.fs)

abbrev abandoned : Volume server
abandoned = accept server both_open.contexts (create server (some "\\b") 0 3 0x80 both_open.fs)

to_abandoned : Reach server winfsp fresh abandoned
to_abandoned =
    Reach.next {t = both_open}
      (Reach.next {t = root_open} (Reach.next Reach.here (Step.open_entry (some "\\") 1 1))
        (Step.open_entry (some "\\a") 0 3))
      (Step.create (some "\\b") 0 3 0x80)

abbrev root_context : Context
root_context = record { guard = false; tracked = 0; file = none; directory = unread; is_dir = true }

abbrev file_context : Context
file_context = record {
  guard = true;
  tracked = 1;
  file = some 1;
  directory = unread;
  is_dir = false;
}

abbrev ended : Contexts.Directory
ended = record { handle = some 3; pending = []; last = none; eof = true }

abbrev listed_fs : Fs server
listed_fs = record abandoned.fs { remote = record { next = 3; files = 1 ∷ []; streams = 3 ∷ [] } }

holds_two : abandoned.contexts ≡ file_context ∷ root_context ∷ []
unfolding open_entry enter_gate enter release_on_error find_entry path trim_start split non_empty
    children path_metadata call open_context open_handle needs_no_handle open_options track
    blocks_detach string_eq nat_eq drop_guard register create make_entry creation_attributes
    validate_attributes fill_new initialize abandon_on_error metadata metadata_reply drop_context
    close_remotes close_quietly warn Dict.lookup Dict.insert Dict.erase
holds_two = refl

file-Among_example : Among file_handle 1 (file_context ∷ root_context ∷ [])
unfolding open_entry enter_gate enter release_on_error find_entry path trim_start split non_empty
    children path_metadata call open_context open_handle needs_no_handle open_options track
    blocks_detach string_eq nat_eq drop_guard register create make_entry creation_attributes
    validate_attributes fill_new initialize abandon_on_error metadata metadata_reply drop_context
    close_remotes close_quietly warn Dict.lookup Dict.insert Dict.erase
file-Among_example =
    file-Among server-Handles winfsp idle writable none_open none_open abandoned to_abandoned 1 refl

lists :
    read_directory server two_names 2 root_context none [] abandoned.fs
    ≡ some (ok ("" ∷ []), (ended, listed_fs))
unfolding open_entry enter_gate enter release_on_error find_entry path trim_start split non_empty
    children path_metadata call open_context open_handle needs_no_handle open_options track
    blocks_detach string_eq nat_eq drop_guard register create make_entry creation_attributes
    validate_attributes fill_new initialize abandon_on_error metadata metadata_reply drop_context
    close_remotes close_quietly warn Dict.lookup Dict.insert Dict.erase read_directory position
    reopen close_stream open_stream list_loop list_round next_page fetch_page take_entry
lists = refl

abbrev listed : Volume server
listed = record {
  fs = listed_fs;
  contexts = file_context ∷ record root_context { directory = ended } ∷ [];
}

to_listed : Reach server winfsp fresh listed
to_listed = Reach.next to_abandoned (
    Step.read_directory (file_context ∷ []) [] root_context 2 none [] (ok ("" ∷ [])) holds_two
      lists)

stream-Among_example : Among stream_handle 3 listed.contexts
stream-Among_example =
    stream-Among server-Handles winfsp idle writable none_open none_open listed to_listed 3 refl
