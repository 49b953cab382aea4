-- ===== src/Stdio/Streams.antt =====
-- The streams of sdk/src/stdio.c, which keep no buffer: each call is a system call, made for the
-- descriptor of the `FILE`. `sp` is the address of the local variable that a call reads a byte into
-- or writes one from.
pub mod Source
pub mod Lines
pub mod Whole
pub mod Sink
pub mod Formatted
use axiome_toolchain.Base.{
  ℕ, zero, suc, ◌+◌, ◌*◌, ◌/◌, ◌-◌, ◌%◌, ◌^◌, not, true, ◌&&◌, ◌||◌, List, Option, none, some, ltb,
  leb, ◌==◌, if◌then◌else◌,
}
use axiome_toolchain.Memory.{null, store}
use axiome_toolchain.World.{World, set_file}
use axiome_toolchain.Stdlib.Heap.{word}
use axiome_toolchain.Strings.Scan.{strlen}
use axiome_toolchain.System.Call.{Kernel}
use axiome_toolchain.System.Files.{read, write}
use axiome_toolchain.Stdio.Format.Run.{Run, done, Arg, ◌>>=◌, is_negative}
use axiome_toolchain.Stdio.Snprintf.{vsnprintf_internal}

-- `EOF`, by its 32-bit pattern.
abbrev pub eof : ℕ
eof = 2 ^ 32 - 1

module _ {K : Type 0} where
  abbrev pub poke : ℕ → ℕ → World K → World K
  poke a v w = record w { mem = store w.mem a v }

  unfoldable pub feof : ℕ → World K → ℕ
  feof stream w = if stream == null then 0 else (w.files stream).eof

  unfoldable pub ferror : ℕ → World K → ℕ
  ferror stream w = if stream == null then 0 else (w.files stream).err

  unfoldable pub clearerr : ℕ → World K → World K
  clearerr stream w =
      if stream == null then w else set_file stream (record (w.files stream) { eof = 0; err = 0 }) w

  unfoldable pub fflush : ℕ → World K → ℕ × World K
  fflush stream w = (0, w)

  -- What fread and fwrite do with the result `n` of the system call.
  abbrev pub fail : ℕ → World K → ℕ × World K
  fail stream w = (0, set_file stream (record (w.files stream) { err = 1 }) w)

  abbrev pub received : ℕ → ℕ → ℕ × World K → ℕ × World K
  received size stream (n, w) =
      if is_negative n
      then fail stream w
      else (n / size, if n == 0 then set_file stream (record (w.files stream) { eof = 1 }) w else w)

  abbrev pub sent : ℕ → ℕ → ℕ × World K → ℕ × World K
  sent size stream (n, w) = if is_negative n then fail stream w else (n / size, w)

  -- `s[i] = '\0'; return s;`
  abbrev pub finish : ℕ → Option ℕ × World K → ℕ × World K
  finish s (none, w) = (null, w)
  finish s (some i, w) = (s, poke (s + i) 0 w)

module _ {K : Type 0} (kernel : Kernel K) where
  unfoldable pub fread : ℕ → ℕ → ℕ → ℕ → World K → ℕ × World K
  fread ptr size nmemb stream w =
      if (stream == null) || ((ptr == null) || ((size == 0) || (nmemb == 0)))
      then (0, w)
      else received size stream (read kernel (w.files stream).fd ptr (size * nmemb % word) w)

  unfoldable pub fwrite : ℕ → ℕ → ℕ → ℕ → World K → ℕ × World K
  fwrite ptr size nmemb stream w =
      if (stream == null) || ((ptr == null) || ((size == 0) || (nmemb == 0)))
      then (0, w)
      else sent size stream (write kernel (w.files stream).fd ptr (size * nmemb % word) w)

  unfoldable pub fputs : ℕ → ℕ → ℕ → World K → Option (ℕ × World K)
  fputs fuel s stream w = elim (strlen fuel s w.mem) [
    | none ↦ none
    | some n ↦ some (let (r, w') = fwrite s 1 n stream w in (r % 2 ^ 32, w'))
  ]

  unfoldable pub fgetc : ℕ → ℕ → World K → ℕ × World K
  fgetc sp stream w = let (n, w') = fread sp 1 1 stream w in (if n == 1 then w'.mem sp else eof, w')

  unfoldable pub fputc : ℕ → ℕ → ℕ → World K → ℕ × World K
  fputc sp c stream w =
      let (n, w') = fwrite sp 1 1 stream (poke sp (c % 256) w) in (if n == 1 then c else eof, w')

  unfoldable pub getchar : ℕ → World K → ℕ × World K
  getchar sp w =
      let (n, w') = read kernel 0 sp 1 w in
      (if not (is_negative n) && ltb 0 n then w'.mem sp else eof, w')

  unfoldable pub putchar : ℕ → ℕ → World K → ℕ × World K
  putchar sp c w = (c, (write kernel 1 sp 1 (poke sp (c % 256) w)).1)

  -- The loop of fgets with `left` rounds to go: the count of bytes stored, or none for a null result.
  unfoldable pub fgets_loop : ℕ → ℕ → ℕ → ℕ → ℕ → World K → Option ℕ × World K
  fgets_loop zero i sp s stream w = (some i, w)
  fgets_loop (suc left) i sp s stream w =
      let (c, w') = fgetc sp stream w in
      let rest = fgets_loop left (suc i) sp s stream (poke (s + i) (c % 256) w') in
      if c == eof
      then (if i == 0 then none else some i, w')
      else if c == b'\n'
      then (some (suc i), poke (s + i) (c % 256) w')
      else rest

  -- `size` is an `int`.
  unfoldable pub fgets : ℕ → ℕ → ℕ → ℕ → World K → ℕ × World K
  fgets sp s size stream w =
      if (size == 0) || leb (2 ^ 31) size
      then (null, w)
      else finish s (fgets_loop (size - 1) 0 sp s stream w)

  -- `buf` is the local array of 1024 bytes.
  unfoldable pub vfprintf : ℕ → ℕ → List ℕ → List Arg → World K → Run (ℕ × World K)
  vfprintf buf stream fmt args w = vsnprintf_internal buf 1024 fmt args true w.mem >>= λ (n, m).
      let w' : World K = record w { mem = m } in
      done (n, if ltb 0 n && ltb n (2 ^ 31) then (fwrite buf 1 n stream w').1 else w')

  unfoldable pub fprintf : ℕ → ℕ → List ℕ → List Arg → World K → Run (ℕ × World K)
  fprintf buf stream fmt args w = vfprintf buf stream fmt args w
