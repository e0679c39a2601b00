-- ===== src/Tests/Memory.antt =====
-- A provider with one file, whose replies are two bytes at most, and one directory, which it lists
-- one entry at a time; and a kernel buffer for two entries.
use shell_canvas_drive_bridg.Base.{
  ℕ, zero, suc, ◌<◌, ◌≡◌, refl, sym, ◌∙◌, min, true, false, none, List, [], ◌∷◌, ◌++◌, String, ok,
  arith, leb, if◌then◌else◌, length, take, drop, take-append-drop, length-take,
}
use shell_canvas_drive_bridg.Sdk.{Sdk, FsResult, FsKind, FsDirectoryEntry, Operation, Value}
use shell_canvas_drive_bridg.Sdk.Scripted.{append_name}
use shell_canvas_drive_bridg.Fuse.Cursor.{ReplyDirectory}
use shell_canvas_drive_bridg.Sdk.Listings.{Lists}
use shell_canvas_drive_bridg.Transfer.Reading.{Serves}
use shell_canvas_drive_bridg.Transfer.Writing.{Stores, overwrite}

pub record Drive : Type 0 where
  pub content : List ℕ
  pub listing : List FsDirectoryEntry

abbrev pub respond : Operation → Drive → FsResult Value × Drive
respond (Operation.read h at n) r = (ok (Value.bytes (take (min n 2) (drop at r.content))), r)
respond (Operation.write h at part) r =
    (ok Value.unit, record r { content = overwrite at part r.content })
respond (Operation.read_directory h) r =
    (ok (Value.entries (take 1 r.listing)), record r { listing = drop 1 r.listing })
respond (Operation.open_directory p) r = (ok (Value.handle 7), r)
respond op r = (ok Value.unit, r)

abbrev pub memory : Sdk
memory = record { Remote = Drive; call = respond; child = append_name }

taken_nothing : (n : ℕ) (xs : List ℕ) → 0 < n → take n xs ≡ [] → drop n xs ≡ []
taken_nothing zero xs p e = absurd (omega (arith, p))
taken_nothing (suc n) [] p e = refl
taken_nothing (suc n) (x ∷ xs) p e = cc

pub memory-Serves : (fh : ℕ) (xs : List ℕ) → Serves respond fh xs (λ r. r.content ≡ xs)
memory-Serves fh xs = record {
  part = λ r at n. take (min n 2) (drop at r.content);
  rest = λ r at n. drop (min n 2) (drop at r.content);
  replies = λ r at n i. refl;
  splits = λ r at n i. rw i (sym (take-append-drop (min n 2) (drop at xs)));
  short = λ r at n i. omega (arith, length-take (min n 2) (drop at r.content));
  ends = λ r at n i p e. taken_nothing (min n 2) (drop at r.content) (omega (arith, p)) e;
  stays = λ r at n i. i;
}

pub memory-Stores : (fh : ℕ) → Stores respond fh (λ r. r.content)
memory-Stores fh = record {
  reply = λ r at part. Value.unit;
  replies = λ r at part small. refl;
  stores = λ r at part small. refl;
}

entry_nothing : (es : List FsDirectoryEntry) → take 1 es ≡ [] → drop 1 es ≡ []
entry_nothing [] e = refl
entry_nothing (x ∷ es) e = cc

pub memory-Lists : (h : ℕ) → Lists memory h (λ es r. r.listing ≡ es)
memory-Lists h = record {
  page = λ r. take 1 r.listing;
  rest = λ r. drop 1 r.listing;
  replies = λ es r i. refl;
  splits = λ es r i. sym i ∙ sym (take-append-drop 1 r.listing);
  ends = λ es r i e. entry_nothing r.listing e;
  stays = λ es r i. refl;
}

abbrev pub buffer : ReplyDirectory
buffer = record {
  Buffer = List (ℕ × String);
  add = λ k t n b. if leb 2 (length b) then (b, true) else (b ++ ((k, n) ∷ []), false);
}

abbrev pub file_named : String → FsDirectoryEntry
file_named n = record {
  name = n;
  metadata = record {
    kind = FsKind.file;
    size = 0;
    accessed = none;
    modified = none;
    permissions = none;
  };
}
