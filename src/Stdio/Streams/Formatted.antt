-- ===== src/Stdio/Streams/Formatted.antt =====
-- vfprintf and fprintf of sdk/src/stdio.c on a descriptor that can be written.
use mathlib.Core.Path.{subst}
use axiome_toolchain.Base.{
  ℕ, suc, ◌+◌, ◌-◌, ◌*◌, ◌/◌, ◌%◌, ◌^◌, ◌<◌, ◌≡◌, ◌≢◌, refl, true, ap, ◌∙◌, List, [], ◌∷◌, arith,
  length, get_or, ltb, ◌&&◌,
}
use axiome_toolchain.Memory.{Memory, null}
use axiome_toolchain.World.{World}
use axiome_toolchain.System.Call.{Kernel}
use axiome_toolchain.Stdio.Buffer.{cells}
use axiome_toolchain.Stdio.Format.Run.{done, Arg}
use axiome_toolchain.Stdio.Snprintf.Text.{formatted}
use axiome_toolchain.Stdio.Snprintf.{snprintf}
use axiome_toolchain.Stdio.Snprintf.Cut.{terminated, snprintf-terminated}
use axiome_toolchain.Stdio.Streams.{fwrite, fprintf, vfprintf}
use axiome_toolchain.Stdio.Streams.Sink.{IsSink, Delivers, Delivers-map, fwrite-Delivers}

-- A text in the buffer, read back.
cells-get_or :
    (m : Memory) (a : ℕ) (t : List ℕ)
    → ((j : ℕ) → j < length t → m (a + j) ≡ get_or t j 0)
    → cells m a (length t) ≡ t
cells-get_or m a [] h = refl
cells-get_or m a (c ∷ t) h =
    let head : m a ≡ c = ap m (omega arith) ∙ h 0 (omega arith) in
    let tail = cells-get_or m (suc a) t (λ j lt. ap m (omega arith) ∙ h (suc j) (omega arith)) in cc

cells-terminated :
    (m m' : Memory) (buf : ℕ) (t : List ℕ)
    → ((x : ℕ) → m' x ≡ terminated m buf 1024 t x)
    → length t < 1024
    → cells m' buf (length t) ≡ t
cells-terminated m m' buf t bytes small =
    cells-get_or m' buf t λ j lt. ground (arith, bytes (buf + j), offset j)
  where
    offset : (j : ℕ) → buf + j - buf ≡ j
    offset j = omega arith

module _ {K : Type 0} (kernel : Kernel K) (fd : ℕ) (delivered : K → List ℕ)
    (snk : IsSink kernel fd delivered) (stream : ℕ) (there : stream ≢ null) where
  fprintf_run :
      (buf n : ℕ) (fmt : List ℕ) (args : List Arg) (w : World K) (m' : Memory)
      → snprintf buf 1024 fmt args w.mem ≡ done (n % 2 ^ 32, m')
      → 0 < n
      → n < 1024
      → fprintf kernel buf stream fmt args w
        ≡ done (n, (fwrite kernel buf 1 n stream (record w { mem = m' })).1)
  unfolding fprintf vfprintf snprintf
  fprintf_run buf n fmt args w m' ran lo hi =
      let same : n % 2 ^ 32 ≡ n = omega arith in
      let positive : (ltb 0 n && ltb n (2 ^ 31)) ≡ true = ground arith in
      rw (ran, same, positive) refl

  -- fprintf, where the format and the arguments stand for a text `t` of 1 to 1023 bytes and the local
  -- array is not at the null pointer: the call returns the length of `t`, and what write takes of
  -- the text is delivered; where write fails, the stream's `err` and `errno` tell so.
  pub fprintf-Delivers :
      (buf : ℕ) (fmt : List ℕ) (args : List Arg) (t : List ℕ) (w : World K)
      → (w.files stream).fd ≡ fd
      → buf ≢ null
      → formatted fmt args ≡ done t
      → 0 < length t
      → length t < 1024
      → (m' : Memory) × (w' : World K) × (fprintf kernel buf stream fmt args w
          ≡ done (length t, w'))
        × ((x : ℕ) → m' x ≡ terminated w.mem buf 1024 t x)
        × Delivers kernel fd delivered snk stream there
            (record w { mem = m' })
            t
            (λ r. length t)
            (length t)
            (length t, w')
  unfolding fprintf vfprintf
  fprintf-Delivers buf fmt args t w same ne e lo hi =
      let (m', ran, bytes) =
        snprintf-terminated buf 1024 fmt args w.mem t ne (omega arith) (omega arith) e
          (omega arith) in
      let w1 : World K = record w { mem = m' } in
      let whole : cells m' buf (1 * length t) ≡ t =
        ap (cells m' buf) (omega arith) ∙ cells-terminated w.mem m' buf t bytes hi in
      (
        m',
        (fwrite kernel buf 1 (length t) stream w1).1,
        fprintf_run buf (length t) fmt args w m' ran lo hi,
        bytes,
        Delivers-map kernel fd delivered snk stream there w1 t (λ r. r / 1) (λ n. length t) 0 _
            (subst
              (λ x.
                Delivers kernel fd delivered snk stream there w1 x (λ r. r / 1) 0
                  (fwrite kernel buf 1 (length t) stream w1))
              whole
              (fwrite-Delivers kernel fd delivered snk stream there buf 1 (length t) w1 same ne
                (omega arith) lo (omega arith))),
      )
