-- ===== src/Transfer/Writing.antt =====
-- The loop of `write`, against a file that a provider keeps.
use shell_canvas_drive_bridg.Base.{
  ℕ, zero, suc, ◌+◌, ◌^◌, ◌<◌, ◌≤◌, ◌≡◌, ◌≢◌, refl, sym, ap, ◌∙◌, List, [], ◌∷◌, ◌++◌, ok, arith,
  length, take, drop, length-append, length-take, length-drop, take-append-drop, append-nil, Action,
}
use shell_canvas_drive_bridg.Sdk.{Operation, Value, mount_io_chunk}
use shell_canvas_drive_bridg.Transfer.{chunks, chunks_from, write_loop}

-- A file with bytes replaced from an offset on; a gap before them is filled with zeros, and no
-- bytes leave it as it is.
abbrev pub overwrite : ℕ → List ℕ → List ℕ → List ℕ
overwrite at [] xs = xs
overwrite zero (b ∷ bs) [] = b ∷ bs
overwrite zero (b ∷ bs) (x ∷ xs) = b ∷ overwrite zero bs xs
overwrite (suc at) (b ∷ bs) [] = 0 ∷ overwrite at (b ∷ bs) []
overwrite (suc at) (b ∷ bs) (x ∷ xs) = x ∷ overwrite at (b ∷ bs) xs

-- Documented behaviour of a provider that keeps a file under a handle: a write of at most a chunk
-- succeeds and replaces the bytes at its offset.
pub record Stores {W E : Type 0} (call : Operation → Action W E Value) (fh : ℕ)
    (contents : W → List ℕ) : Type 0 where
  pub reply : W → ℕ → List ℕ → Value
  pub replies :
      (r : W) (at : ℕ) (part : List ℕ)
      → length part ≤ mount_io_chunk
      → (call (Operation.write fh at part) r).0 ≡ ok (reply r at part)
  pub stores :
      (r : W) (at : ℕ) (part : List ℕ)
      → length part ≤ mount_io_chunk
      → contents (call (Operation.write fh at part) r).1 ≡ overwrite at part (contents r)

-- A backend whose calls reach the provider stores what the provider stores.
module _ {R W E F : Type 0} (view : W → R) (call : Operation → Action R E Value)
    (send : Operation → Action W F Value)
    (answers : (op : Operation) (w : W) (v : Value)
      → (call op (view w)).0 ≡ ok v
      → (send op w).0 ≡ ok v)
    (moves : (op : Operation) (w : W) → view (send op w).1 ≡ (call op (view w)).1) where
  pub Stores-through :
      (fh : ℕ) (contents : R → List ℕ)
      → Stores call fh contents
      → Stores send fh (λ w. contents (view w))
  Stores-through fh contents V = record {
    reply = λ w at part. V.reply (view w) at part;
    replies = λ w at part small.
        answers (Operation.write fh at part) w _ (V.replies (view w) at part small);
    stores = λ w at part small.
        ap contents (moves (Operation.write fh at part) w) ∙ V.stores (view w) at part small;
  }

overwrite_empty : (bs : List ℕ) → overwrite 0 bs [] ≡ bs
overwrite_empty [] = refl
overwrite_empty (b ∷ bs) = refl

overwrite_step :
    (m n : ℕ) (bs : List ℕ) (x : ℕ) (xs : List ℕ)
    → m ≡ suc n
    → bs ≢ []
    → overwrite m bs (x ∷ xs) ≡ x ∷ overwrite n bs xs
overwrite_step m n [] x xs e h = absurd (h refl)
overwrite_step m n (b ∷ bs) x xs e h = rw e refl

cons-ne-nil : (b : ℕ) (bs : List ℕ) → (b ∷ bs) ≢ []
cons-ne-nil b bs h = cc

-- Two writes that meet are one.
overwrite-append :
    (at : ℕ) (a b xs : List ℕ)
    → overwrite (at + length a) b (overwrite at a xs) ≡ overwrite at (a ++ b) xs
overwrite-append at a [] xs = ap (λ c. overwrite at c xs) (sym (append-nil a))
overwrite-append at [] (b ∷ bs) xs =
    let same : at + 0 ≡ at = omega arith in ap (λ k. overwrite k (b ∷ bs) xs) same
overwrite-append zero (a ∷ more) (b ∷ bs) [] =
    overwrite_step (0 + suc (length more)) (0 + length more) (b ∷ bs) a more (omega arith)
      (cons-ne-nil b bs)
    ∙ ap (λ t. a ∷ t)
        (ap (overwrite (0 + length more) (b ∷ bs)) (sym (overwrite_empty more))
          ∙ overwrite-append zero more (b ∷ bs) []
          ∙ overwrite_empty (more ++ (b ∷ bs)))
overwrite-append zero (a ∷ more) (b ∷ bs) (x ∷ xs) =
    overwrite_step (0 + suc (length more)) (0 + length more) (b ∷ bs) a (overwrite 0 more xs)
      (omega arith) (cons-ne-nil b bs)
    ∙ ap (λ t. a ∷ t) (overwrite-append zero more (b ∷ bs) xs)
overwrite-append (suc at) (a ∷ more) (b ∷ bs) [] =
    overwrite_step (suc at + suc (length more)) (at + suc (length more)) (b ∷ bs) 0
      (overwrite at (a ∷ more) []) (omega arith) (cons-ne-nil b bs)
    ∙ ap (λ t. 0 ∷ t) (overwrite-append at (a ∷ more) (b ∷ bs) [])
overwrite-append (suc at) (a ∷ more) (b ∷ bs) (x ∷ xs) =
    overwrite_step (suc at + suc (length more)) (at + suc (length more)) (b ∷ bs) x
      (overwrite at (a ∷ more) xs) (omega arith) (cons-ne-nil b bs)
    ∙ ap (λ t. x ∷ t) (overwrite-append at (a ∷ more) (b ∷ bs) xs)

abbrev pub concat : List (List ℕ) → List ℕ
concat [] = []
concat (p ∷ ps) = p ++ concat ps

abbrev pub AreAtMost : ℕ → List (List ℕ) → Type 0
AreAtMost n [] = Unit {0}
AreAtMost n (p ∷ ps) = (length p ≤ n) × AreAtMost n ps

chunks_from-concat :
    (fuel n : ℕ) (xs : List ℕ) → length xs ≤ fuel → 0 < n → concat (chunks_from fuel n xs) ≡ xs
chunks_from-concat zero n [] h p = refl
chunks_from-concat zero n (x ∷ xs) h p = absurd (omega (arith, h))
chunks_from-concat (suc fuel) n [] h p = refl
chunks_from-concat (suc fuel) n (x ∷ xs) h p =
    ap (λ t. take n (x ∷ xs) ++ t)
      (chunks_from-concat fuel n (drop n (x ∷ xs)) (omega (arith, length-drop n (x ∷ xs), h, p)) p)
    ∙ take-append-drop n (x ∷ xs)

chunks_from-AreAtMost : (fuel n : ℕ) (xs : List ℕ) → AreAtMost n (chunks_from fuel n xs)
chunks_from-AreAtMost zero n xs = tt
chunks_from-AreAtMost (suc fuel) n [] = tt
chunks_from-AreAtMost (suc fuel) n (x ∷ xs) =
    (omega (arith, length-take n (x ∷ xs)), chunks_from-AreAtMost fuel n (drop n (x ∷ xs)))

module _ {W E : Type 0} (call : Operation → Action W E Value) (overflow bad : E) (fh : ℕ)
    (contents : W → List ℕ) (V : Stores call fh contents) (offset : ℕ) where
  -- One chunk, in range.
  write_part_lem :
      (part : List ℕ) (parts : List (List ℕ)) (written : ℕ) (w : W)
      → length part ≤ mount_io_chunk
      → offset + written < 2 ^ 64
      → let w' = (call (Operation.write fh (offset + written) part) w).1 in
        (write_loop call overflow bad fh offset written (part ∷ parts) w
          ≡ write_loop call overflow bad fh offset (written + length part) parts w')
        × (contents w' ≡ overwrite (offset + written) part (contents w))
  unfolding write_loop
  write_part_lem part parts written w small room = (
    ground (arith, V.replies w (offset + written) part small),
    V.stores w (offset + written) part small,
  )

  write_loop_lem :
      (parts : List (List ℕ)) (written : ℕ) (w : W)
      → AreAtMost mount_io_chunk parts
      → offset + written + length (concat parts) < 2 ^ 64
      → ((write_loop call overflow bad fh offset written parts w).0
          ≡ ok (written + length (concat parts)))
        × (contents (write_loop call overflow bad fh offset written parts w).1
            ≡ overwrite (offset + written) (concat parts) (contents w))
  unfolding write_loop
  write_loop_lem [] written w small room = (ap ok (omega arith), refl)
  write_loop_lem (part ∷ parts) written w small room =
      let w' = (call (Operation.write fh (offset + written) part) w).1 in
      let (step, stored) = write_part_lem part parts written w small.0 (omega (arith, room)) in
      let more =
        write_loop_lem parts (written + length part) w' small.1
          (omega (arith, room, length-append part (concat parts))) in
      let sum : written + length part + length (concat parts)
          ≡ written + length (part ++ concat parts) =
        omega (arith, length-append part (concat parts)) in
      let next : offset + (written + length part) ≡ offset + written + length part = omega arith in
      rw step (
        more.0 ∙ ap ok sum,
        more.1
            ∙ ap (λ k. overwrite k (concat parts) (contents w')) next
            ∙ ap (overwrite (offset + written + length part) (concat parts)) stored
            ∙ overwrite-append (offset + written) part (concat parts) (contents w),
      )

  -- The whole of it, for bytes in range.
  pub write_all :
      (bytes : List ℕ) (w : W)
      → offset + length bytes < 2 ^ 64
      → let (v, w') = write_loop call overflow bad fh offset 0 (chunks mount_io_chunk bytes) w in
        (v ≡ ok (length bytes)) × (contents w' ≡ overwrite offset bytes (contents w))
  unfolding chunks
  write_all bytes w room =
      let parts = chunks_from (length bytes) mount_io_chunk bytes in
      let whole : concat parts ≡ bytes =
        chunks_from-concat (length bytes) mount_io_chunk bytes (omega arith) (omega arith) in
      let sent =
        write_loop_lem parts 0 w (chunks_from-AreAtMost (length bytes) mount_io_chunk bytes)
          (rw whole (omega (arith, room))) in
      let count : 0 + length (concat parts) ≡ length bytes = rw whole (omega arith) in
      let start : offset + 0 ≡ offset = omega arith in
      (
        sent.0 ∙ ap ok count,
        sent.1
            ∙ ap (λ k. overwrite k (concat parts) (contents w)) start
            ∙ ap (λ b. overwrite offset b (contents w)) whole,
      )
