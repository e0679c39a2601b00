-- ===== src/Windows/Data/Modes.antt =====
-- src/windows.rs, `write`: writes at the end of a file, and writes that do not extend it.
use shell_canvas_drive_bridg.Base.{
  ℕ, zero, suc, ◌+◌, ◌-◌, ◌^◌, ◌<◌, ◌≤◌, ◌≡◌, refl, sym, ap, ◌∙◌, Bool, true, false, some, List, [],
  ◌∷◌, ◌++◌, ok, arith, length, take, min, length-take, append-nil,
}
use shell_canvas_drive_bridg.Sdk.{Sdk, FsMetadata}
use shell_canvas_drive_bridg.Transfer.Reading.{take_all}
use shell_canvas_drive_bridg.Transfer.Writing.{Stores, overwrite}
use shell_canvas_drive_bridg.Windows.Info.{fill}
use shell_canvas_drive_bridg.Windows.Contexts.{Context, Fs}
use shell_canvas_drive_bridg.Windows.Data
use shell_canvas_drive_bridg.Windows.Data.{write_offset, write_length}
use shell_canvas_drive_bridg.Windows.Data.Writing.{Tells, write_context}

overwrite_end : (xs bs : List ℕ) → overwrite (length xs) bs xs ≡ xs ++ bs
overwrite_end xs [] = sym (append-nil xs)
overwrite_end [] (b ∷ bs) = refl
overwrite_end (x ∷ xs) (b ∷ bs) = ap (◌∷◌ x) (overwrite_end xs (b ∷ bs))

-- Bytes that replace others leave the length.
length-overwrite :
    (at : ℕ) (bs xs : List ℕ) → at + length bs ≤ length xs → length (overwrite at bs xs) ≡ length xs
length-overwrite at [] xs h = refl
length-overwrite zero (b ∷ bs) [] h = absurd (omega (arith, h))
length-overwrite zero (b ∷ bs) (x ∷ xs) h = ap suc (length-overwrite zero bs xs (omega (arith, h)))
length-overwrite (suc at) (b ∷ bs) [] h = absurd (omega (arith, h))
length-overwrite (suc at) (b ∷ bs) (x ∷ xs) h =
    ap suc (length-overwrite at (b ∷ bs) xs (omega (arith, h)))

overwrite_within :
    (at : ℕ) (bs xs : List ℕ) → length bs ≤ length xs - at → length (overwrite at bs xs) ≡ length xs
overwrite_within at [] xs h = refl
overwrite_within at (b ∷ bs) xs h = length-overwrite at (b ∷ bs) xs (omega (arith, h))

module _ (S : Sdk) (fh : ℕ) (contents : S.Remote → List ℕ) (V : Stores S.call fh contents)
    (T : Tells S fh contents) (context : Context) (file : context.file ≡ some fh) (buffer : List ℕ)
    (offset : ℕ) (fs : Fs S) (word : length buffer < 2 ^ 32) where
  -- A write at the end of the file appends the whole buffer.
  pub write_appends :
      length (contents fs.remote) + length buffer < 2 ^ 64
      → let (v, fs') = Data.write S context buffer offset true false fs in
        (contents fs'.remote ≡ contents fs.remote ++ buffer)
        × ((m : FsMetadata) × (v ≡ ok (length buffer, fill m)))
  write_appends room =
      let whole : take (length buffer) buffer ≡ buffer =
        take_all (length buffer) buffer (omega arith) in
      let (m, done, sized, stored) =
        write_context S fh contents V T context buffer offset true false fs file (rw whole room)
          (rw whole word) in
      (stored ∙ rw whole (overwrite_end (contents fs.remote) buffer), (m, done ∙ rw whole refl))

  -- Against a provider that keeps a file, takes writes of at most a chunk and tells its size, a
  -- constrained write of fewer than 2^32 bytes within the range of offsets succeeds and leaves the
  -- size of the file, wherever it starts.
  pub write_constrained :
      (eof : Bool)
      → let size = length (contents fs.remote) in
        write_offset S eof size offset + length buffer < 2 ^ 64
        → let (v, fs') = Data.write S context buffer offset eof true fs in
          (length (contents fs'.remote) ≡ length (contents fs.remote))
          × ((n : ℕ) × (m : FsMetadata) × (v ≡ ok (n, fill m))
              × (m.size ≡ length (contents fs.remote)))
  write_constrained eof room =
      let size = length (contents fs.remote) in
      let at = write_offset S eof size offset in
      let limit = min (length buffer) (size - at) in
      let bytes = take limit buffer in
      let short : length bytes ≤ size - at = omega (arith, length-take limit buffer) in
      let below : length bytes ≤ length buffer = omega (arith, length-take limit buffer) in
      let (m, done, sized, stored) =
        write_context S fh contents V T context buffer offset eof true fs file
          (omega (arith, room, below)) (omega (arith, word, below)) in
      let same = overwrite_within at bytes (contents fs.remote) short in
      (ap length stored ∙ same, (length bytes, m, done, sized ∙ same))
