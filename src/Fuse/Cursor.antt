-- ===== src/Fuse/Cursor.antt =====
-- src/fuse.rs, `struct Directory`: a directory stream that can be rewound, and the loop of
-- `readdir` that hands its entries to the kernel.
pub mod Listing
pub mod Rewind
pub mod Reply
use shell_canvas_drive_bridg.Base.{
  ℕ, zero, suc, ◌+◌, Bool, true, false, not, ◌&&◌, Option, none, some, List, [], ◌∷◌, ◌++◌, String,
  Result, ok, err, map_err, then_result, Action, leb, is_some, if◌then◌else◌,
}
use shell_canvas_drive_bridg.Sdk.Listings.{is_empty}
use shell_canvas_drive_bridg.Sdk.{Sdk, Operation, Value, FsDirectoryEntry}
use shell_canvas_drive_bridg.Fuse.Attributes.{Errno, errno, eio, ebadf, FileType, kind}
use shell_canvas_drive_bridg.Fuse.Inodes.{Directory}
use shell_canvas_drive_bridg.Fuse.Session.{as_handle}

abbrev pub as_entries : Value → Result Errno (List FsDirectoryEntry)
as_entries (Value.entries es) = ok es
as_entries _ = err eio

-- The kernel's reply buffer, of the fuser crate: `add` says whether it was full, and then the
-- entry is not in it.
pub record ReplyDirectory : Type 1 where
  pub Buffer : Type 0
  -- the cookie, the type and the name of an entry
  pub add : ℕ → FileType → String → Buffer → Buffer × Bool

-- Ownership is given up before the close is sent.
abbrev pub cleared : Directory → Directory
cleared d = record d { remote = none; offset = 0; pending = []; eof = false }

module _ (S : Sdk) where
  -- The directory together with the other side of the pipe.
  abbrev pub Stream : Type 0
  Stream = Directory × S.Remote

  abbrev pub remote_call : Operation → S.Remote → Result Errno Value × S.Remote
  remote_call op r = let (v, r') = S.call op r in (map_err errno v, r')

  abbrev pub close_stream : Option ℕ → S.Remote → Result Errno Value × S.Remote
  close_stream none r = (ok Value.unit, r)
  close_stream (some h) r = remote_call (Operation.close_directory h) r

  unfoldable pub open_stream : Action Stream Errno (Unit {0})
  open_stream (d, r) =
      let (v, r') = remote_call (Operation.open_directory d.path) r in
      elim (then_result v as_handle) [
        | err e ↦ (err e, (d, r'))
        | ok h ↦ (ok tt, (record d { remote = some h }, r'))
      ]

  unfoldable pub prepare : ℕ → Action Stream Errno (Unit {0})
  prepare offset (d, r) =
      if is_some d.remote && leb d.offset offset
      then (ok tt, (d, r))
      else let (v, r') = close_stream d.remote r in
        elim v [ err e ↦ (err e, (cleared d, r')) | ok _ ↦ open_stream (cleared d, r') ]

  -- The next page, if nothing is pending and the stream has not ended.
  unfoldable pub refill : Action Stream Errno (Unit {0})
  refill (d, r) =
      if is_empty d.pending && not d.eof
      then elim d.remote [
        | none ↦ (err ebadf, (d, r))
        | some h ↦
            let (v, r') = remote_call (Operation.read_directory h) r in
            elim (then_result v as_entries) [
              | err e ↦ (err e, (d, r'))
              | ok es ↦ (ok tt, (record d { eof = is_empty es; pending = d.pending ++ es }, r'))
            ]
      ]
      else (ok tt, (d, r))

  module _ (K : ReplyDirectory) where
    -- One entry: `false` when the buffer is full, and then the entry stays pending.
    abbrev pub offer : ℕ → FsDirectoryEntry → Directory → K.Buffer → K.Buffer × Bool
    offer offset entry d b =
        if leb offset d.offset
        then K.add (d.offset + 1) (kind entry.metadata.kind) entry.name b
        else (b, false)

    -- The loop of `readdir`. `none` means that the fuel ran out.
    unfoldable pub fill :
        ℕ → ℕ → Stream → K.Buffer → Option (Result Errno (Unit {0}) × Stream × K.Buffer)
    fill zero offset t b = none
    fill (suc fuel) offset t b =
        let (v, (d, r)) = refill t in
        elim v [
          | err e ↦ some (err e, (d, r), b)
          | ok _ ↦ elim d.pending [
            | [] ↦ some (ok tt, (d, r), b)
            | entry ∷ rest ↦
                let (b', full) = offer offset entry d b in
                elim full [
                  | true ↦ some (ok tt, (d, r), b')
                  | false ↦
                      fill fuel offset (record d { pending = rest; offset = d.offset + 1 }, r) b'
                ]
          ]
        ]
