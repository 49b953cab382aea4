-- ===== src/Stdio/Console.antt =====
-- The output of a whole program through sdk/src/stdio.c: calls to printf, puts and putchar, one behind
-- the other, on one output buffer, with the blocks that go to `write(1, ...)`.
pub mod Ordered
use axiome_toolchain.Base.{ℕ, ◌%◌, List, [], ◌∷◌, ◌++◌, length}
use axiome_toolchain.World.{World}
use axiome_toolchain.System.Call.{Kernel}
use axiome_toolchain.System.Files.{write}
use axiome_toolchain.Stdio.Buffer.{Out}
use axiome_toolchain.Stdio.Format.Run.{Run, done, Arg, ◌>>=◌}
use axiome_toolchain.Stdio.Printf.{printf, puts}
use axiome_toolchain.Stdio.Streams.{putchar}
use axiome_toolchain.Util.{store_all}

-- Each block that printf hands to `write(1, outbuf, outlen)` stands in its buffer at the call.
unfoldable pub drain : {K : Type 0} → Kernel K → ℕ → List (List ℕ) → World K → World K
drain kernel outbuf [] w = w
drain kernel outbuf (b ∷ bs) w =
    drain kernel outbuf bs
      (write kernel 1 outbuf (length b) (record w { mem = store_all outbuf b w.mem })).1

-- The output buffer at the start of a program.
abbrev pub no_output : Out
no_output = record { outbuf = λ i. 0; outlen = 0; written = [] }

-- A statement that prints.
pub data Output : Type 0 where
  formatted : List ℕ → List Arg → Output
  line : List ℕ → Output
  character : ℕ → Output

module _ {K : Type 0} (kernel : Kernel K) (outbuf sp : ℕ) where
  -- What the blocks written by a call do, and the buffer for the next call.
  abbrev pub deliver : Out → World K → Out × World K
  deliver o w = (record o { written = [] }, drain kernel outbuf o.written w)

  -- `printf(fmt, ...);`, `puts(s);` or `putchar(c);`, with the local `ch` of putchar at `sp`.
  unfoldable pub say : Output → Out → World K → Run (Out × World K)
  say (formatted fmt args) o w = printf fmt args o >>= λ (r, o'). done (deliver o' w)
  say (line s) o w = done (deliver (puts s o).1 w)
  say (character c) o w = done (o, (putchar kernel sp c w).1)

  unfoldable pub say_all : List Output → Out → World K → Run (Out × World K)
  say_all [] o w = done (o, w)
  say_all (x ∷ xs) o w = say x o w >>= λ (o', w'). say_all xs o' w'
