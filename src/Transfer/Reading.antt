-- ===== src/Transfer/Reading.antt =====
-- The loop of `read`, against a file that a provider serves.
use shell_canvas_drive_bridg.Base.{
  ℕ, zero, suc, ◌+◌, ◌-◌, ◌^◌, ◌<◌, ◌≤◌, ◌≡◌, refl, sym, ap, subst, ◌∙◌, min, List, [], ◌∷◌, ◌++◌,
  ok, arith, ltb, length, take, drop, length-append, drop-append, drop-add, append_assoc,
  append-nil, Action, Bool-cases, inl, inr, bind_ok, Result,
}
use shell_canvas_drive_bridg.Sdk.{Operation, Value, mount_io_chunk}
use shell_canvas_drive_bridg.Transfer.{read_part, continue_read, read_loop}

-- Documented behaviour of a provider that serves a file under a handle while `I` holds of it: a
-- reply may be short, and it is empty only at the end of the file or when nothing is asked for.
pub record Serves {W E : Type 0} (call : Operation → Action W E Value) (fh : ℕ) (content : List ℕ)
    (I : W → Type 0) : Type 0 where
  pub part : W → ℕ → ℕ → List ℕ
  pub rest : W → ℕ → ℕ → List ℕ
  pub replies :
      (r : W) (at n : ℕ)
      → I r
      → (call (Operation.read fh at n) r).0 ≡ ok (Value.bytes (part r at n))
  pub splits : (r : W) (at n : ℕ) → I r → drop at content ≡ part r at n ++ rest r at n
  pub short : (r : W) (at n : ℕ) → I r → length (part r at n) ≤ n
  pub ends : (r : W) (at n : ℕ) → I r → 0 < n → part r at n ≡ [] → rest r at n ≡ []
  pub stays : (r : W) (at n : ℕ) → I r → I (call (Operation.read fh at n) r).1

-- A backend whose calls reach the provider serves what the provider serves.
module _ {R W E F : Type 0} (view : W → R) (call : Operation → Action R E Value)
    (send : Operation → Action W F Value)
    (answers : (op : Operation) (w : W) (v : Value)
      → (call op (view w)).0 ≡ ok v
      → (send op w).0 ≡ ok v)
    (moves : (op : Operation) (w : W) → view (send op w).1 ≡ (call op (view w)).1) where
  pub Serves-through :
      (fh : ℕ) (content : List ℕ) (I : R → Type 0)
      → Serves call fh content I
      → Serves send fh content (λ w. I (view w))
  Serves-through fh content I V = record {
    part = λ w at n. V.part (view w) at n;
    rest = λ w at n. V.rest (view w) at n;
    replies = λ w at n i. answers (Operation.read fh at n) w _ (V.replies (view w) at n i);
    splits = λ w at n i. V.splits (view w) at n i;
    short = λ w at n i. V.short (view w) at n i;
    ends = λ w at n i p e. V.ends (view w) at n i p e;
    stays = λ w at n i. subst I (sym (moves (Operation.read fh at n) w)) (V.stays (view w) at n i);
  }

pub take_all : (n : ℕ) (xs : List ℕ) → length xs ≤ n → take n xs ≡ xs
take_all zero [] h = refl
take_all zero (x ∷ xs) h = absurd (omega (arith, h))
take_all (suc n) [] h = refl
take_all (suc n) (x ∷ xs) h = ap (◌∷◌ x) (take_all n xs (omega arith))

take-append : (xs ys : List ℕ) → take (length xs) (xs ++ ys) ≡ xs
take-append [] ys = refl
take-append (x ∷ xs) ys = ap (◌∷◌ x) (take-append xs ys)

-- Where a read continues, once `got` has been read.
drop-continued :
    (offset : ℕ) (xs got tail : List ℕ)
    → drop offset xs ≡ got ++ tail
    → drop (offset + length got) xs ≡ tail
drop-continued offset xs got tail e = drop-add offset (length got) xs ∙ rw e (drop-append got tail)

-- What `size` bytes are, when `got` is as long as that, or all there is.
take-got : (size : ℕ) (got tail : List ℕ) → size ≡ length got → take size (got ++ tail) ≡ got
take-got size got tail e = rw e (take-append got tail)

module _ {W E : Type 0} (call : Operation → Action W E Value) (overflow bad : E) (fh : ℕ)
    (content : List ℕ) (I : W → Type 0) (V : Serves call fh content I) (offset size : ℕ)
    (room : offset + size < 2 ^ 64) where
  -- One round, in range.
  read_part_lem :
      (got : List ℕ) (w : W)
      → I w
      → length got < size
      → let n = min (size - length got) mount_io_chunk in
        read_part call overflow bad fh offset size got w ≡ (
          ok (V.part w (offset + length got) n),
          (call (Operation.read fh (offset + length got) n) w).1,
        )
  unfolding read_part
  read_part_lem got w i more =
      let n = min (size - length got) mount_io_chunk in
      ground (arith, V.replies w (offset + length got) n i, V.short w (offset + length got) n i)

  -- The rest of the read, by the part that has come.
  abbrev pub Right : Result E (List ℕ) × W → Type 0
  Right o = (o.0 ≡ ok (take size (drop offset content))) × I o.1

  continued :
      (fuel : ℕ) (got p rest : List ℕ) (w : W)
      → I w
      → drop offset content ≡ got ++ (p ++ rest)
      → length got < size
      → length p ≤ size - length got
      → (p ≡ [] → rest ≡ [])
      → ((got' tail' : List ℕ)
          → drop offset content ≡ got' ++ tail'
          → length got' ≤ size
          → length got + 1 ≤ length got'
          → Right (read_loop call overflow bad fuel fh offset size got' w))
      → Right (
          continue_read call overflow bad got (read_loop call overflow bad fuel fh offset size) p w)
  continued fuel got [] rest w i split more short ends go_on = (
    ap ok (
        sym (
          rw split
            (rw (ends refl) (rw (append-nil got) (take_all size got (omega (arith, more))))))),
    i,
  )
  continued fuel got (b ∷ p) rest w i split more short ends go_on =
      go_on (got ++ (b ∷ p)) rest (split ∙ sym (append_assoc got (b ∷ p) rest))
        (omega (arith, length-append got (b ∷ p), short, more))
        (omega (arith, length-append got (b ∷ p)))

  kept : (at n : ℕ) (w : W) → I w → I (call (Operation.read fh at n) w).1
  kept at n w i = V.stays w at n i

  pub read_loop_lem :
      (fuel : ℕ) (got tail : List ℕ) (w : W)
      → I w
      → drop offset content ≡ got ++ tail
      → length got ≤ size
      → size ≤ length got + fuel
      → Right (read_loop call overflow bad fuel fh offset size got w)
  unfolding read_loop
  read_loop_lem zero got tail w i split low enough =
      (ap ok (sym (rw split (take-got size got tail (omega (arith, low, enough))))), i)
  read_loop_lem (suc fuel) got tail w i split low enough =
      elim (Bool-cases (ltb (length got) size)) [
        | inr done ↦
            rw (done, read_loop) (ap ok (sym (rw split (take-got size got tail (ground arith)))), i)
        | inl more ↦
            let n = min (size - length got) mount_io_chunk in
            let at = offset + length got in
            let w' = (call (Operation.read fh at n) w).1 in
            let below : length got < size = ground arith in
            rw (more, read_loop)
              (rw
                (bind_ok (read_part call overflow bad fh offset size got)
                  (continue_read call overflow bad got
                    (read_loop call overflow bad fuel fh offset size))
                  w (read_part_lem got w i below))
                (continued fuel got (V.part w at n) (V.rest w at n) w' (kept at n w i)
                  (split
                    ∙ ap (λ t. got ++ t)
                        (sym (drop-continued offset content got tail split) ∙ V.splits w at n i))
                  below (omega (arith, V.short w at n i)) (V.ends w at n i (omega (arith, below)))
                  (λ got' tail' split' low' longer.
                    read_loop_lem fuel got' tail' w' (kept at n w i) split' low'
                      (omega (arith, longer, enough)))))
      ]
