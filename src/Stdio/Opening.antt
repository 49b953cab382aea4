-- ===== src/Stdio/Opening.antt =====
-- fopen and fclose of sdk/src/stdio.c, on the allocator and the kernel. `heap` is the address of the
-- allocator's array, and `fuel` the rounds that a loop over its blocks may start.
pub mod Table
pub mod Balance
use axiome_toolchain.Base.{
  ℕ, suc, ◌+◌, ◌^◌, ◌||◌, Option, none, some, ◌>>=◌, leb, ◌==◌, if◌then◌else◌,
}
use axiome_toolchain.Memory.{null}
use axiome_toolchain.World.{World, File, set_file}
use axiome_toolchain.Stdlib.Heap.{Heap, malloc, free}
use axiome_toolchain.System.Call.{Kernel}
use axiome_toolchain.System.Files.{open_file, close}
use axiome_toolchain.Stdio.Streams.{eof, fflush}

-- _IOREAD and _IOWRITE of sdk/include/stdio.h.
abbrev pub io_read : ℕ
io_read = 1

abbrev pub io_write : ℕ
io_write = 2

-- The open flags of sdk/include/syscall.h.
abbrev pub o_rdonly : ℕ
o_rdonly = 0

abbrev pub o_wronly : ℕ
o_wronly = 1

abbrev pub o_rdwr : ℕ
o_rdwr = 2

abbrev pub o_creat : ℕ
o_creat = 256

abbrev pub o_trunc : ℕ
o_trunc = 512

abbrev pub o_append : ℕ
o_append = 1024

-- sizeof(FILE): four `int`s and four words.
abbrev pub file_size : ℕ
file_size = 48

-- The flags of the stream and of the descriptor for the first two bytes of `mode`. The flags that
-- are or-ed have no bit in common, so they are added.
unfoldable pub mode_flags : ℕ → ℕ → Option (ℕ × ℕ)
mode_flags c d =
    if c == b'r'
    then some (if d == b'+' then (io_read + io_write, o_rdwr) else (io_read, o_rdonly))
    else if c == b'w'
    then some (
        if d == b'+'
        then (io_read + io_write, o_rdwr + o_creat + o_trunc)
        else (io_write, o_wronly + o_creat + o_trunc))
    else if c == b'a'
    then some (
        if d == b'+'
        then (io_read + io_write, o_rdwr + o_creat + o_append)
        else (io_write, o_wronly + o_creat + o_append))
    else none

module _ {K : Type 0} where
  abbrev pub set_libc : Heap → World K → World K
  set_libc h w = record w { libc = h }

abbrev pub new_file : ℕ → ℕ → File
new_file fd flags = record {
  fd = fd;
  flags = flags;
  eof = 0;
  err = 0;
  buf = null;
  buf_size = 0;
  buf_pos = 0;
  buf_len = 0;
}

module _ {K : Type 0} (kernel : Kernel K) where
  -- From the call to malloc on: `if (!f) { close(fd); return NULL; }` and the fields.
  unfoldable pub attach : ℕ → ℕ → ℕ × Heap → World K → ℕ × World K
  attach fd flags (f, h) w =
      let w' : World K = set_libc h w in
      if f == null then (null, (close kernel fd w').1) else (f, set_file f (new_file fd flags) w')

  unfoldable pub open_with : ℕ → ℕ → ℕ → ℕ → ℕ → World K → Option (ℕ × World K)
  open_with heap fuel path flags file_flags w =
      let (fd, w') = open_file kernel path file_flags w in
      let rest : Option (ℕ × World K) = do
        call ← malloc heap fuel file_size w'.libc
        some (attach fd flags call w')
      in if leb (2 ^ 31) fd then some (null, w') else rest

  -- `default: return NULL;`, and the rest for a mode that is known.
  abbrev pub open_mode : ℕ → ℕ → ℕ → Option (ℕ × ℕ) → World K → Option (ℕ × World K)
  open_mode heap fuel path none w = some (null, w)
  open_mode heap fuel path (some (flags, file_flags)) w =
      open_with heap fuel path flags file_flags w

  unfoldable pub fopen : ℕ → ℕ → ℕ → ℕ → World K → Option (ℕ × World K)
  fopen heap fuel path mode w =
      if (mode == null) || (w.mem mode == 0)
      then some (null, w)
      else open_mode heap fuel path (mode_flags (w.mem mode) (w.mem (suc mode))) w

  -- The standard streams, at `stdin`, `stdout` and `stderr`, are not closed.
  unfoldable pub fclose : ℕ → ℕ → ℕ → ℕ → ℕ → World K → Option (ℕ × World K)
  fclose stdin stdout stderr fuel stream w =
      let w1 = (fflush stream w).1 in
      let f = w1.files stream in
      let (r, w2) = close kernel f.fd w1 in
      let answer : ℕ = if leb (2 ^ 31) r then eof else 0 in
      let freed : Option (ℕ × World K) = do
        h ← if f.buf == null then some w2.libc else free fuel f.buf w2.libc
        h' ← free fuel stream h
        some (answer, set_libc h' w2)
      in if stream == null
        then some (eof, w)
        else if (stream == stdin) || ((stream == stdout) || (stream == stderr))
        then some (0, w)
        else freed
