-- ===== src/Stdio/Buffer/Stream.antt =====
-- The output buffer of sdk/src/stdio.c loses, repeats and reorders nothing, and stays in its array.
use native.Mathlib.Numerals.{add-one}
use axiome_toolchain.Base.{
  ℕ, zero, suc, ◌+◌, ◌-◌, ◌≤◌, ◌<◌, ◌≡◌, refl, sym, ap, ◌∙◌, inl, inr, List, [], ◌∷◌, ◌++◌, arith,
  All, append-nil, append_assoc, length, replicate, ltb, leb, ◌==◌, if◌then◌else◌, false,
  Bool-cases, ==_iff,
}
use axiome_toolchain.Stdio.Buffer.{
  Out, outbuf_size, cells, flush, push_cell, emit, emit_str, emit_times,
}

abbrev pub concat : List (List ℕ) → List ℕ
concat [] = []
concat (x ∷ xs) = x ++ concat xs

-- All that was emitted: the blocks written, and the bytes that wait in the buffer.
abbrev pub stream : Out → List ℕ
stream o = concat o.written ++ cells o.outbuf 0 o.outlen

-- The next cell is in the array, and each block written has 1 to 255 bytes.
pub record IsOut (o : Out) : Type 0 where
  pub in_array : o.outlen < outbuf_size - 1
  pub blocks : All (λ b. (1 ≤ length b) × (length b < outbuf_size)) o.written

concat-append : (xs ys : List (List ℕ)) → concat (xs ++ ys) ≡ concat xs ++ concat ys
concat-append [] ys = refl
concat-append (x ∷ xs) ys = rw (concat-append xs ys) (sym (append_assoc x (concat xs) (concat ys)))

All-snoc :
    (P : List ℕ → Type 0) (xs : List (List ℕ)) (y : List ℕ) → All P xs → P y → All P (xs ++ y ∷ [])
All-snoc P [] y all p = (p, tt)
All-snoc P (x ∷ xs) y all p = (all.0, All-snoc P xs y all.1 p)

length-cells : (buf : ℕ → ℕ) (i n : ℕ) → length (cells buf i n) ≡ n
length-cells buf i zero = refl
length-cells buf i (suc n) = ap suc (length-cells buf (suc i) n)

cells_snoc :
    (buf : ℕ → ℕ) (c i n k : ℕ)
    → i + n ≡ k
    → cells (λ x. if x == k then c else buf x) i (suc n) ≡ cells buf i n ++ c ∷ []
cells_snoc buf c i zero k e = rw ((==_iff i k).1 (omega arith)) refl
cells_snoc buf c i (suc n) k e =
    let other : (i == k) ≡ false = ground arith in
    rw other (ap (◌∷◌ (buf i)) (cells_snoc buf c (suc i) n k (omega arith)))

flush-stream : (o : Out) → (stream (flush o) ≡ stream o) × ((flush o).outlen ≡ 0)
unfolding flush
flush-stream o = elim (Bool-cases (ltb 0 o.outlen)) [
  | inl e ↦ rw e (
    append-nil (concat (o.written ++ cells o.outbuf 0 o.outlen ∷ []))
        ∙ concat-append o.written (cells o.outbuf 0 o.outlen ∷ [])
        ∙ ap (◌++◌ (concat o.written)) (append-nil (cells o.outbuf 0 o.outlen)),
    refl,
  )
  | inr e ↦ rw e (refl, ground arith)
]

flush-blocks :
    (o : Out)
    → o.outlen < outbuf_size
    → All (λ b. (1 ≤ length b) × (length b < outbuf_size)) o.written
    → All (λ b. (1 ≤ length b) × (length b < outbuf_size)) (flush o).written
unfolding flush
flush-blocks o lt all = elim (Bool-cases (ltb 0 o.outlen)) [
  | inl e ↦ rw e (
      All-snoc (λ b. (1 ≤ length b) × (length b < outbuf_size)) o.written
        (cells o.outbuf 0 o.outlen) all (rw (length-cells o.outbuf 0 o.outlen) (ground arith, lt)))
  | inr e ↦ rw e all
]

push_cell-stream : (o : Out) (c : ℕ) → stream (push_cell o c) ≡ stream o ++ c ∷ []
push_cell-stream o c = rw add-one (
    ap (◌++◌ (concat o.written)) (cells_snoc o.outbuf c 0 o.outlen o.outlen (omega arith))
    ∙ sym (append_assoc (concat o.written) (cells o.outbuf 0 o.outlen) (c ∷ [])))

-- emit appends its character to the stream; it stores it inside the array, writes a block of at
-- most 255 bytes when the buffer is full, and leaves room for the next character.
pub emit-stream :
    (c : ℕ) (o : Out) → IsOut o → IsOut (emit c o) × (stream (emit c o) ≡ stream o ++ c ∷ [])
unfolding emit
emit-stream c o is =
    let o' = push_cell o c in
    let in_array = is.in_array in
    let (same, empty) = flush-stream o' in
    elim (Bool-cases (leb (outbuf_size - 1) o'.outlen)) [
      | inl e ↦ rw e (
        record { in_array = omega arith; blocks = flush-blocks o' (omega arith) is.blocks },
        same ∙ push_cell-stream o c,
      )
      | inr e ↦ rw e (record { in_array = ground arith; blocks = is.blocks }, push_cell-stream o c)
    ]

-- emit_str appends the bytes of its string to the stream.
pub emit_str-stream :
    (s : List ℕ) (o : Out)
    → IsOut o
    → IsOut (emit_str s o) × (stream (emit_str s o) ≡ stream o ++ s)
unfolding emit_str
emit_str-stream [] o is = (is, sym (append-nil (stream o)))
emit_str-stream (c ∷ s) o is =
    let (is', e) = emit-stream c o is in
    let (is'', e') = emit_str-stream s (emit c o) is' in
    (is'', e' ∙ ap (λ x. x ++ s) e ∙ append_assoc (stream o) (c ∷ []) s)

pub emit_times-stream :
    (n c : ℕ) (o : Out)
    → IsOut o
    → IsOut (emit_times n c o) × (stream (emit_times n c o) ≡ stream o ++ replicate n c)
unfolding emit_times
emit_times-stream zero c o is = (is, sym (append-nil (stream o)))
emit_times-stream (suc n) c o is =
    let (is', e) = emit-stream c o is in
    let (is'', e') = emit_times-stream n c (emit c o) is' in
    (is'', e' ∙ ap (λ x. x ++ replicate n c) e ∙ append_assoc (stream o) (c ∷ []) (replicate n c))

-- A flush leaves nothing in the buffer: all of the stream has been written.
pub flush-written :
    (o : Out)
    → IsOut o
    → IsOut (flush o) × (concat (flush o).written ≡ stream o) × ((flush o).outlen ≡ 0)
flush-written o is =
    let in_array = is.in_array in
    let (same, empty) = flush-stream o in
    (
      record { in_array = omega arith; blocks = flush-blocks o (omega arith) is.blocks },
      sym (drained (flush o) empty) ∙ same,
      empty,
    )
  where
    drained : (o : Out) → o.outlen ≡ 0 → stream o ≡ concat o.written
    drained o e = rw e (append-nil (concat o.written))
