-- ===== src/Lib.antt =====
-- ShellCanvas Drive Bridge: a process that shows a remote folder as a local drive. The kernel's
-- requests arrive at a backend, which turns them into operations on the provider at the other end
-- of a pipe. There are two backends: FUSE (src/fuse.rs) and WinFsp (src/windows.rs with
-- src/windows_handles.rs, src/windows_attributes.rs, src/windows_times.rs, src/mount_gate.rs).
--
-- Base: lists, dictionaries, results and bits that all parts share. A `HashMap` is an association
--   list (Base.Dict), and code with `?` that reads and writes a state is an `Action`: the state
--   comes back with the error too.
-- Sdk: the values that cross the pipe, and what the bridge calls of the SDK as the parameter `Sdk`:
--   `call` (`Client::call`) on the unknown other side `Remote`, and `child` (`MountPath::child`),
--   whose documented behaviour is the record `IsLawful`. Sdk.Handles is what the SDK's `Server`
--   (vendor/filesystem-sdk/src/wire.rs) promises of the handles that it holds open: an identity is
--   never handed out twice, and a close releases its handle whatever the reply. Sdk.Scripted is a
--   small instance.
-- Transfer: the loops of `read` and `write`, which both backends write out, over the backend's call
--   and its errors. The loop of `read` has `size` rounds of fuel, which is enough since each round
--   that goes on reads a byte or more.
-- Fuse: src/fuse.rs.
--   Attributes: `errno`, `kind`, `attr`, `options`, `seconds`. Times are whole seconds, and the
--     platform's flag constants are the parameter `Libc`. `attr` panics on a time beyond the greatest
--     i64, as a `SystemTime` does on Linux and macOS: that is the result `panicked`, which goes past
--     the close in `create`. The relation of Requests lets the session go on after a panic, which in
--     the program ends it.
--   Inodes: `struct State`. Lookups and opens are 64-bit counters that wrap on increment and stop
--     at zero on decrement, as in the release build.
--   Session: `struct Fs`. The lock is a flag `poisoned`; each handler runs to its end before the
--     next one starts.
--   Cursor: `struct Directory` and the loop of `readdir`. The loop has fuel, and `none` says that it
--     ran out. The kernel's reply buffer is the parameter `ReplyDirectory`.
--   Files, Names, Rename, Directories: the handlers.
--   Requests: a session as a step relation over all handlers; Sound: what every session keeps.
--   Handles: which handles of the provider stay open in a session.
--   Lifecycle: the polling loop of `run`, by number of turns; the mounted session of the fuser crate
--     is the parameter `Host`. Lifecycle.Start: `run` as a whole. Lifecycle.Unmount: the loop of
--     `ordinary_unmount` over the parameter `System` (the clock and the helper process), with 301
--     rounds of fuel, since a round sleeps 50 ms and the deadline is 15 s. After an error the
--     session is dropped, which the model leaves out.
-- Windows: src/windows.rs and its helpers.
--   Gate (`MountGate`), Handles (`OpenHandles`; an `Arc` is an entry of the dictionary `live`),
--     Attributes, Times, Status (`failure`), Names (`path`), Info (`fill`).
--   Contexts: `struct Fs` and `struct Context`. A context names its descriptor by a number, the
--     shared cell of its path stands in the registry, and `next` is the next such number. The host
--     runs one callback at a time, and no lock is poisoned.
--   Opening, Data, Metadata, Namespace, Listing: the callbacks. The buffer of a listing is the
--     parameter `DirBuffer`; its loop has fuel, and `none` says that it ran out.
--   Mount: the polling loop of `run`, by turns. Mount.Start: `run` before the loop, on the parameter
--     `Machine` (the registry, the drives and the WinFsp library). Volume: any history of callbacks
--     and turns; Steady: what the callbacks leave alone. The texts of errors are parameters
--     (`WinFsp`).
--   Sends: which operations the callbacks send. Held: which handles of the provider stay open in a
--     history. Drives (src/windows_drives.rs): the letters that are taken; what Windows answers is
--     the parameter `DriveTables`.
-- Probe: src/probe.rs, the transport test, up to the line that it prints; Phases: what its own entry
--   goes through.
-- Main: src/main.rs, the command line; the arguments are text and the backend is a parameter.
-- Tests: concrete runs.
--
-- Not modelled: `Fs::init`; the command that macOS unmounts with; what the host does when it is
-- stopped after the loop; build.rs; the SDK under vendor/filesystem-sdk. Cookies of directory entries
-- are not bounded by 64 bits, and no two handlers overlap in time.
pub mod Base
pub mod Sdk
pub mod Transfer
pub mod Fuse
pub mod Windows
pub mod Probe
pub mod Main
pub mod Tests
