-- ===== src/Transfer.antt =====
-- The loops of `read` and `write`, which src/fuse.rs and src/windows.rs both write out: requests of
-- at most a chunk, one after the other. The backend gives its call and its two errors.
pub mod Reading
pub mod Writing
use shell_canvas_drive_bridg.Base.{
  ℕ, zero, suc, ◌+◌, ◌-◌, ◌^◌, min, true, false, List, [], ◌∷◌, ◌++◌, Result, ok, err, Action, pure,
  lift, ◌>>=◌, ◌>>◌, ltb, leb, if◌then◌else◌, length, take, drop,
}
use shell_canvas_drive_bridg.Sdk.{Operation, Value, mount_io_chunk}

-- `slice::chunks`, with the length for fuel.
abbrev pub chunks_from : ℕ → ℕ → List ℕ → List (List ℕ)
chunks_from zero n xs = []
chunks_from (suc fuel) n [] = []
chunks_from (suc fuel) n (x ∷ xs) = take n (x ∷ xs) ∷ chunks_from fuel n (drop n (x ∷ xs))

unfoldable pub chunks : ℕ → List ℕ → List (List ℕ)
chunks n xs = chunks_from (length xs) n xs

module _ {W E : Type 0} (call : Operation → Action W E Value) (overflow bad : E) where
  -- `offset.checked_add(n)`
  abbrev pub checked_add : ℕ → ℕ → Result E ℕ
  checked_add a b = if ltb (a + b) (2 ^ 64) then ok (a + b) else err overflow

  -- A reply of at most `limit` bytes; any other is an error.
  abbrev pub as_bytes : ℕ → Value → Result E (List ℕ)
  as_bytes limit (Value.bytes part) = if leb (length part) limit then ok part else err bad
  as_bytes limit _ = err bad

  -- One round of the loop of `read`: at most a chunk, from where the bytes so far end.
  unfoldable pub read_part : ℕ → ℕ → ℕ → List ℕ → Action W E (List ℕ)
  read_part fh offset size got = do
    let wanted = min (size - length got) mount_io_chunk
    at ← lift (checked_add offset (length got))
    v ← call (Operation.read fh at wanted)
    lift (as_bytes wanted v)

  -- An empty part ends the loop; any other is appended.
  abbrev pub continue_read : List ℕ → (List ℕ → Action W E (List ℕ)) → List ℕ → Action W E (List ℕ)
  continue_read got go_on [] = pure got
  continue_read got go_on (b ∷ part) = go_on (got ++ (b ∷ part))

  -- Each round that goes on reads a byte or more, so `size` rounds are enough.
  unfoldable pub read_loop : ℕ → ℕ → ℕ → ℕ → List ℕ → Action W E (List ℕ)
  read_loop zero fh offset size got = pure got
  read_loop (suc fuel) fh offset size got = elim (ltb (length got) size) [
    | false ↦ pure got
    | true ↦ read_part fh offset size got >>= continue_read got (read_loop fuel fh offset size)
  ]

  unfoldable pub write_loop : ℕ → ℕ → ℕ → List (List ℕ) → Action W E ℕ
  write_loop fh offset written [] = pure written
  write_loop fh offset written (part ∷ parts) = do
    at ← lift (checked_add offset written)
    call (Operation.write fh at part)
    write_loop fh offset (written + length part) parts
