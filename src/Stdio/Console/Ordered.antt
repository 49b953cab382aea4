-- ===== src/Stdio/Console/Ordered.antt =====
-- What a sequence of calls to printf, puts and putchar of sdk/src/stdio.c delivers.
use mathlib.Core.Path.{subst}
use axiome_toolchain.Base.{
  ℕ, ◌%◌, ◌≤◌, ◌<◌, ◌≡◌, refl, sym, ap, ◌∙◌, List, [], ◌∷◌, ◌++◌, arith, All, length, append_assoc,
  append-nil, ==_self,
}
use axiome_toolchain.World.{World}
use axiome_toolchain.System.Call.{Kernel}
use axiome_toolchain.System.Files.{write}
use axiome_toolchain.System.Terminal.{IsTerminal, write-cells}
use axiome_toolchain.Stdio.Buffer.{Out, cells, outbuf_size}
use axiome_toolchain.Stdio.Buffer.Stream.{concat, stream, IsOut}
use axiome_toolchain.Stdio.Format.Run.{Run, done, ◌>>=◌}
use axiome_toolchain.Stdio.Format.Refined.{>>=_done}
use axiome_toolchain.Stdio.Printf.{puts}
use axiome_toolchain.Stdio.Printf.Fields.{printed}
use axiome_toolchain.Stdio.Printf.Written.{printf-written, puts-written}
use axiome_toolchain.Stdio.Streams.{putchar}
use axiome_toolchain.Util.{store_all}
use axiome_toolchain.Util.Mode.{store_all_in}
use axiome_toolchain.Stdio.Console.{
  drain, no_output, Output, formatted, line, character, say, say_all,
}

pub no_output-IsOut : IsOut no_output
no_output-IsOut = record { in_array = omega arith; blocks = tt }

-- The text of one statement, and of several.
abbrev pub text_of : Output → Run (List ℕ)
text_of (formatted fmt args) = printed fmt args
text_of (line s) = done (s ++ b'\n' ∷ [])
text_of (character c) = done (c % 256 ∷ [])

abbrev pub text_of_all : List Output → Run (List ℕ)
text_of_all [] = done []
text_of_all (x ∷ xs) = text_of x >>= λ t. text_of_all xs >>= λ u. done (t ++ u)

-- Nothing waits in the buffer and nothing is left to hand over.
abbrev pub IsIdle : Out → Type 0
IsIdle o = (o.outlen ≡ 0) × (o.written ≡ [])

IsIdle-IsOut : (o : Out) → IsIdle o → IsOut o × (stream o ≡ [])
IsIdle-IsOut o (len, none_left) =
    (record { in_array = omega arith; blocks = rw none_left tt }, rw (len, none_left) refl)

module _ {K : Type 0} (kernel : Kernel K) (delivered : K → List ℕ)
    (terminal : IsTerminal kernel 1 delivered) where
  -- The allocator is as it was and `t` has been delivered.
  abbrev pub Delivered : World K → List ℕ → World K → Type 0
  Delivered w t w' = (w'.libc ≡ w.libc) × (delivered w'.sys ≡ delivered w.sys ++ t)

  pub drain-Delivered :
      (outbuf : ℕ) (bs : List (List ℕ)) (w : World K)
      → All (λ b. (1 ≤ length b) × (length b < outbuf_size)) bs
      → Delivered w (concat bs) (drain kernel outbuf bs w)
  unfolding drain
  drain-Delivered outbuf [] w small = (refl, sym (append-nil (delivered w.sys)))
  drain-Delivered outbuf (b ∷ bs) w small =
      let w1 : World K = record w { mem = store_all outbuf b w.mem } in
      let (k', same, told) =
        write-cells kernel 1 delivered terminal outbuf (length b) w1 (omega arith) in
      let w2 : World K = (write kernel 1 outbuf (length b) w1).1 in
      let (kept, more) = drain-Delivered outbuf bs w2 small.1 in
      (
        kept ∙ ap (λ (v : World K). v.libc) same,
        more
            ∙ ap (λ (v : World K). delivered v.sys ++ concat bs) same
            ∙ ap (λ x. x ++ concat bs) told
            ∙ append_assoc (delivered w.sys) (cells w1.mem outbuf (length b)) (concat bs)
            ∙ ap (λ x. delivered w.sys ++ (x ++ concat bs)) (store_all_in outbuf b w.mem),
      )

  -- The statement ends, idle again, with `t` delivered.
  abbrev Says : World K → List ℕ → Run (Out × World K) → Type 0
  Says w t r = (o' : Out) × (w' : World K) × (r ≡ done (o', w')) × IsIdle o' × Delivered w t w'

  deliver-Says :
      (outbuf : ℕ) (o o1 : Out) (w : World K) (t : List ℕ)
      → IsIdle o
      → IsOut o1
      → concat o1.written ≡ stream o ++ t
      → Delivered w t (drain kernel outbuf o1.written w)
  deliver-Says outbuf o o1 w t idle is whole =
      let (kept, told) = drain-Delivered outbuf o1.written w is.blocks in
      let text = whole ∙ ap (λ x. x ++ t) (IsIdle-IsOut o idle).1 in
      (kept, told ∙ ap (λ x. delivered w.sys ++ x) text)

  character-Delivered :
      (sp c : ℕ) (w : World K) → Delivered w (c % 256 ∷ []) (putchar kernel sp c w).1
  unfolding putchar
  character-Delivered sp c w =
      let (k', same, told) = write-cells kernel 1 delivered terminal sp 1 _ (omega arith) in
      (
        ap (λ (v : World K). v.libc) same,
        ap (λ (v : World K). delivered v.sys) same ∙ told ∙ rw ==_self refl,
      )

  say-Says :
      (outbuf sp : ℕ) (x : Output) (t : List ℕ) (o : Out) (w : World K)
      → IsIdle o
      → text_of x ≡ done t
      → Says w t (say kernel outbuf sp x o w)
  unfolding say
  say-Says outbuf sp (formatted fmt args) t o w idle e =
      let (o1, ran, is, whole, empty) = printf-written fmt args t o (IsIdle-IsOut o idle).0 e in
      (
        record o1 { written = [] },
        drain kernel outbuf o1.written w,
        rw ran refl,
        (empty, refl),
        deliver-Says outbuf o o1 w t idle is whole,
      )
  say-Says outbuf sp (line s) t o w idle e =
      let (zero_result, is, whole, empty) = puts-written s o (IsIdle-IsOut o idle).0 in
      let text : s ++ b'\n' ∷ [] ≡ t = cc in
      (
        record (puts s o).1 { written = [] },
        drain kernel outbuf (puts s o).1.written w,
        refl,
        (empty, refl),
        deliver-Says outbuf o (puts s o).1 w t idle is (whole ∙ ap (λ x. stream o ++ x) text),
      )
  say-Says outbuf sp (character c) t o w idle e =
      let text : ◌≡◌ {A = List ℕ} (c % 256 ∷ []) t = cc in
      (
        o,
        (putchar kernel sp c w).1,
        refl,
        idle,
        subst (λ x. Delivered w x (putchar kernel sp c w).1) text (character-Delivered sp c w),
      )

  -- On a descriptor 1 that takes each write in full, with the output buffer idle: a sequence of calls
  -- to printf, puts and putchar, whose formats and arguments stand for texts, ends with the buffer
  -- idle again, and delivers just the texts of all the calls in the order of the calls, whatever the
  -- lengths of the texts are; the allocator is as it was.
  pub say_all-Delivered :
      (outbuf sp : ℕ) (xs : List Output) (t : List ℕ) (o : Out) (w : World K)
      → IsIdle o
      → text_of_all xs ≡ done t
      → (o' : Out) × (w' : World K) × (say_all kernel outbuf sp xs o w ≡ done (o', w'))
        × IsIdle o'
        × (w'.libc ≡ w.libc)
        × (delivered w'.sys ≡ delivered w.sys ++ t)
  unfolding say_all
  say_all-Delivered outbuf sp [] t o w idle e =
      let text : ◌≡◌ {A = List ℕ} [] t = cc in
      (
        o,
        w,
        refl,
        idle,
        refl,
        sym (append-nil (delivered w.sys)) ∙ ap (λ x. delivered w.sys ++ x) text,
      )
  say_all-Delivered outbuf sp (x ∷ xs) t o w idle e =
      let (a, ea, e') = >>=_done (text_of x) _ t e in
      let (b, eb, e'') = >>=_done (text_of_all xs) (λ u. done (a ++ u)) t e' in
      let text : a ++ b ≡ t = cc in
      let (o1, w1, ran, idle1, (kept, told)) = say-Says outbuf sp x a o w idle ea in
      let (o2, w2, ran', idle2, kept', told') = say_all-Delivered outbuf sp xs b o1 w1 idle1 eb in
      (
        o2,
        w2,
        rw ran ran',
        idle2,
        kept' ∙ kept,
        told'
            ∙ ap (λ y. y ++ b) told
            ∙ append_assoc (delivered w.sys) a b
            ∙ ap (λ y. delivered w.sys ++ y) text,
      )
