-- ===== src/Filetest/Output.antt =====
-- What the program of examples/filetest.c delivers.
use axiome_toolchain.Base.{
  ℕ, ◌+◌, ◌^◌, ◌≤◌, ◌<◌, ◌≡◌, ◌≢◌, refl, sym, ap, ◌∙◌, ◌⊎◌, inl, inr, List, [], ◌∷◌, ◌++◌, some,
  codes, false, arith, length, ◌==◌, if◌then◌else◌, append_assoc, append-nil,
}
use axiome_toolchain.Memory.{null, CString, Apart}
use axiome_toolchain.World.{World}
use axiome_toolchain.Stdlib.Heap.{Heap, heap_size, malloc, free}
use axiome_toolchain.Stdlib.Heap.Chain.{Cell, IsHeap}
use axiome_toolchain.Stdlib.Heap.Merged.{Separated}
use axiome_toolchain.Stdlib.Heap.Loan.{Lends, malloc-Lends}
use axiome_toolchain.Strings.Scan.Place.{strlen-length}
use axiome_toolchain.Strings.Build.Result.{strcpy-CString}
use axiome_toolchain.System.Call.{Kernel}
use axiome_toolchain.System.Files.{write}
use axiome_toolchain.System.Terminal.{IsTerminal, write-After}
use axiome_toolchain.Stdio.Digits.{render, digit_loop}
use axiome_toolchain.Stdio.Format.Run.{done, Arg, word}
use axiome_toolchain.Stdio.Format.Loop.{walk}
use axiome_toolchain.Stdio.Format.Directive.{
  parse_directive, read_flags, read_width, skip_precision, skip_digits, read_lengths, read_spec,
}
use axiome_toolchain.Stdio.Printf.{printf}
use axiome_toolchain.Stdio.Printf.Fields.{printed}
use axiome_toolchain.Stdio.Printf.Written.{printf-written}
use axiome_toolchain.Stdio.Opening.{set_libc}
use axiome_toolchain.Stdio.Console.{drain, no_output}
use axiome_toolchain.Stdio.Console.Ordered.{no_output-IsOut, Delivered, drain-Delivered}
use axiome_toolchain.Filetest.{finish, show_block, main}

last_line : printed (codes "printf works: %d\n") (word 42 ∷ []) ≡ done (codes "printf works: 42\n")
unfolding walk parse_directive read_flags read_width skip_precision skip_digits read_lengths
    read_spec render digit_loop
last_line = refl

module _ {K : Type 0} (kernel : Kernel K) (delivered : K → List ℕ)
    (terminal : IsTerminal kernel 1 delivered) where
  show_block-Delivered :
      (literal : List ℕ → ℕ) (outbuf fuel p : ℕ) (w : World K) (h : Heap)
      → CString w.mem (literal (codes "malloc works\n")) (codes "malloc works\n")
      → Apart p 14 (literal (codes "malloc works\n")) 14
      → 13 < fuel
      → free fuel p w.libc ≡ some h
      → (w' : World K) × (show_block kernel literal outbuf fuel p w ≡ some w')
        × (w'.libc ≡ h)
        × (delivered w'.sys ≡ delivered w.sys ++ codes "malloc works\n")
  unfolding show_block
  show_block-Delivered literal outbuf fuel p w h text apart enough freed =
      let line = codes "malloc works\n" in
      let (m, ran, (copied, out)) =
        strcpy-CString fuel p (literal line) w.mem line text apart enough in
      let w1 : World K = record w { mem = m } in
      let (k', same, told) =
        write-After kernel 1 delivered terminal p line w1 copied (omega arith) in
      let freed' : free fuel p (write kernel 1 p 13 w1).1.libc ≡ some h =
        ap (λ (v : World K). free fuel p v.libc) same ∙ freed in
      (
        set_libc h (write kernel 1 p 13 w1).1,
        rw (ran, strlen-length fuel p m line copied enough, freed') refl,
        refl,
        ap (λ (v : World K). delivered v.sys) same ∙ told,
      )

  pub finish-Delivered :
      (literal : List ℕ → ℕ) (outbuf : ℕ) (fmt : List ℕ) (args : List Arg) (t : List ℕ)
      (w : World K)
      → printed fmt args ≡ done t
      → (w' : World K) × (finish kernel literal outbuf (printf fmt args no_output) w ≡ some (0, w'))
        × Delivered kernel delivered terminal w t w'
  finish-Delivered literal outbuf fmt args t w e =
      let (o, ran, is, whole, empty) = printf-written fmt args t no_output no_output-IsOut e in
      let (kept, told) = drain-Delivered kernel delivered terminal outbuf o.written w is.blocks in
      (
        drain kernel outbuf o.written w,
        rw ran refl,
        (kept, told ∙ ap (λ x. delivered w.sys ++ x) whole),
      )

  -- The line about malloc: there, or malloc had no block.
  abbrev pub Middle : ℕ → ℕ → Heap → List ℕ → Type 0
  Middle heap fuel h t =
      (t ≡ codes "malloc works\n")
      ⊎ ((t ≡ []) × (h' : Heap) × (malloc heap fuel 32 h ≡ some (null, h')))

  middle_lem :
      (literal : List ℕ → ℕ) (outbuf heap fuel p : ℕ) (cs : List Cell) (h0 : Heap) (w : World K)
      → malloc heap fuel 32 h0 ≡ some (p, w.libc)
      → Lends 32 heap fuel cs p w.libc
      → CString w.mem (literal (codes "malloc works\n")) (codes "malloc works\n")
      → Apart (literal (codes "malloc works\n")) 14 heap heap_size
      → 13 < fuel
      → (w' : World K) × ((if p == null then some w else show_block kernel literal outbuf fuel p w)
          ≡ some w')
        × IsHeap heap w'.libc cs
        × (t : List ℕ) × (delivered w'.sys ≡ delivered w.sys ++ t)
        × Middle heap fuel h0 t
  middle_lem literal outbuf heap fuel p cs h0 w got (inl (z, is)) text apart enough =
      (w, rw z refl, is, [], sym (append-nil (delivered w.sys)), inr (refl, w.libc, rw z at got))
  middle_lem literal outbuf heap fuel p cs h0 w got (inr (lo, hi, (h, freed, is))) text apart
        enough =
      let some_block : (p == null) ≡ false = ground arith in
      let (w', ran, kept, told) =
        show_block-Delivered literal outbuf fuel p w h text (ground arith) enough freed in
      (w', rw some_block ran, rw kept is, codes "malloc works\n", told, inl refl)

  -- The program of examples/filetest.c, on a descriptor 1 that takes each write in full, with an
  -- allocator set up and no two free blocks side by side, the two strings in memory and the second
  -- outside the allocator's array, and fuel above the lengths and the number of blocks: it ends and
  -- returns 0, it delivers its first line, the line about malloc unless malloc has no block, and the
  -- line of printf, in that order, and it leaves the blocks of the allocator as they were.
  pub main-Delivers :
      (literal : List ℕ → ℕ) (outbuf heap fuel : ℕ) (cs : List Cell) (w : World K)
      → IsHeap heap w.libc cs
      → Separated cs
      → heap ≢ null
      → heap + heap_size + 16 ≤ 2 ^ 64
      → CString w.mem (literal (codes "Axiome SDK filetest\n")) (codes "Axiome SDK filetest\n")
      → CString w.mem (literal (codes "malloc works\n")) (codes "malloc works\n")
      → Apart (literal (codes "malloc works\n")) 14 heap heap_size
      → length cs < fuel
      → 20 < fuel
      → (w' : World K) × (main kernel literal outbuf heap fuel w ≡ some (0, w'))
        × IsHeap heap w'.libc cs
        × (t : List ℕ) × Middle heap fuel w.libc t
        × (delivered w'.sys
            ≡ delivered w.sys
              ++ (codes "Axiome SDK filetest\n" ++ (t ++ codes "printf works: 42\n")))
  unfolding main
  main-Delivers literal outbuf heap fuel cs w is sep ne small first text apart enough more =
      let msg = codes "Axiome SDK filetest\n" in
      let last = codes "printf works: 42\n" in
      let (k1, same1, told1) =
        write-After kernel 1 delivered terminal (literal msg) msg w first (omega arith) in
      let (p, h, run, lent) =
        malloc-Lends 32 heap fuel cs w.libc (omega arith) (omega arith) is sep ne small enough in
      let w2 : World K = record w { libc = h; sys = k1 } in
      let (w3, run3, is3, t, told3, how) =
        middle_lem literal outbuf heap fuel p cs w.libc w2 run lent text apart (omega arith) in
      let (w4, run4, (kept, told4)) =
        finish-Delivered literal outbuf (codes "printf works: %d\n") (word 42 ∷ []) last w3
          last_line in
      (
        w4,
        rw (strlen-length fuel (literal msg) w.mem msg first more, same1, run, run3) run4,
        rw kept is3,
        t,
        how,
        told4
            ∙ ap (λ x. x ++ last) (told3 ∙ ap (λ x. x ++ t) told1)
            ∙ append_assoc (delivered w.sys ++ msg) t last
            ∙ append_assoc (delivered w.sys) msg (t ++ last),
      )
