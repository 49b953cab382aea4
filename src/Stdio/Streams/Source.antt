-- ===== src/Stdio/Streams/Source.antt =====
-- A descriptor that can be read, as read(2) describes it, and fgetc of sdk/src/stdio.c on it.
use axiome_toolchain.Base.{
  ℕ, ◌<◌, ◌≡◌, ◌≢◌, refl, ◌∙◌, ==_self, List, [], ◌∷◌, false, arith, ◌==◌, if◌then◌else◌,
}
use axiome_toolchain.Memory.{Memory, null, store}
use axiome_toolchain.World.{World, set_file}
use axiome_toolchain.System.Sys
use axiome_toolchain.System.Call.{Kernel, long_of_int}
use axiome_toolchain.System.Call.Outcome.{value, syscall-result}
use axiome_toolchain.System.Files.{read}
use axiome_toolchain.Stdio.Streams.{fread, fgetc, eof, received}

-- `pending` is what the descriptor will still deliver. A read of one byte takes the next one, or
-- answers 0 at the end.
pub record IsSource {K : Type 0} (kernel : Kernel K) (fd : ℕ) (pending : K → List ℕ) : Type 0 where
  pub read_byte :
      (p c : ℕ) (cs : List ℕ) (m : Memory) (k : K)
      → pending k ≡ c ∷ cs
      → (k' : K) × (kernel Sys.read (long_of_int fd) p 1 0 0 0 m k ≡ (1, store m p c, k'))
        × (pending k' ≡ cs)
  pub read_end :
      (p : ℕ) (m : Memory) (k : K)
      → pending k ≡ []
      → (k' : K) × (kernel Sys.read (long_of_int fd) p 1 0 0 0 m k ≡ (0, m, k')) × (pending k' ≡ [])

module _ {K : Type 0} (kernel : Kernel K) (fd : ℕ) (pending : K → List ℕ)
    (src : IsSource kernel fd pending) (sp stream : ℕ) (slot : sp ≢ null)
    (there : stream ≢ null) where
  fgetc-read :
      (w : World K) (r : ℕ × World K)
      → read kernel (w.files stream).fd sp 1 w ≡ r
      → fgetc kernel sp stream w
        ≡ (let (n, w') = received 1 stream r in (if n == 1 then w'.mem sp else eof, w'))
  unfolding fgetc fread
  fgetc-read w r e =
      let a : (stream == null) ≡ false = ground arith in
      let b : (sp == null) ≡ false = ground arith in rw (a, b, e) refl

  read_answer :
      (w : World K) (v : ℕ) (m : Memory) (k' : K)
      → (w.files stream).fd ≡ fd
      → v < 2
      → kernel Sys.read (long_of_int fd) sp 1 0 0 0 w.mem w.sys ≡ (v, m, k')
      → read kernel (w.files stream).fd sp 1 w ≡ (v, record w { mem = m; sys = k' })
  unfolding read
  read_answer w v m k' same small ran = rw same (
      syscall-result kernel Sys.read (long_of_int fd) sp 1 0 0 0 w (value v) m k' (omega arith) ran)

  pub fgetc-byte :
      (w : World K) (c : ℕ) (cs : List ℕ)
      → (w.files stream).fd ≡ fd
      → pending w.sys ≡ c ∷ cs
      → (k' : K) × (fgetc kernel sp stream w ≡ (c, record w { mem = store w.mem sp c; sys = k' }))
        × (pending k' ≡ cs)
  fgetc-byte w c cs same more =
      let (k', ran, rest) = src.read_byte sp c cs w.mem w.sys more in
      (
        k',
        fgetc-read w _ (read_answer w 1 _ k' same (omega arith) ran) ∙ rw (==_self sp) refl,
        rest,
      )

  -- At the end of the descriptor fgetc sets the stream's `eof` and returns EOF.
  pub fgetc-end :
      (w : World K)
      → (w.files stream).fd ≡ fd
      → pending w.sys ≡ []
      → (k' : K) × (fgetc kernel sp stream w
          ≡ (eof, set_file stream (record (w.files stream) { eof = 1 }) (record w { sys = k' })))
        × (pending k' ≡ [])
  fgetc-end w same none_left =
      let (k', ran, rest) = src.read_end sp w.mem w.sys none_left in
      (k', fgetc-read w _ (read_answer w 0 _ k' same (omega arith) ran), rest)
