-- ===== src/Time/Clock.antt =====
-- The clock and the sleeps of sdk/src/time.c. `struct timespec` is two words in memory, the seconds
-- and the nanoseconds; `req` is the address of the variable that sleep and usleep fill.
use axiome_toolchain.Base.{
  ℕ, ◌+◌, ◌*◌, ◌/◌, ◌%◌, ◌^◌, ◌<◌, ◌≡◌, refl, ◌∙◌, inl, arith, ◌==◌, if◌then◌else◌,
}
use axiome_toolchain.Memory.{Memory, null, SameOutside}
use axiome_toolchain.Memory.Words.{
  get_long, put_long, put_bytes_out, get_long-put_long, get_long-put_long_other,
}
use axiome_toolchain.World.{World, set_errno}
use axiome_toolchain.System.Sys
use axiome_toolchain.System.Call.{Kernel, syscall, int_call, minus_one_int}

-- `req.tv_sec = sec; req.tv_nsec = nsec;`
abbrev pub put_timespec : ℕ → ℕ → ℕ → Memory → Memory
put_timespec req sec nsec m = put_long (req + 8) nsec (put_long req sec m)

module _ {K : Type 0} (kernel : Kernel K) where
  unfoldable pub time : ℕ → World K → ℕ × World K
  time tloc w =
      let (t, w') = syscall kernel Sys.time tloc 0 0 0 0 0 w in
      (t, if tloc == null then w' else record w' { mem = put_long tloc t w'.mem })

  unfoldable pub gettimeofday : ℕ → ℕ → World K → ℕ × World K
  gettimeofday tv tz w = int_call kernel Sys.gettimeofday tv 0 0 0 0 0 w

  unfoldable pub sleep : ℕ → ℕ → World K → ℕ × World K
  sleep req seconds w =
      let w' : World K = record w { mem = put_timespec req (seconds % 2 ^ 32) 0 w.mem } in
      (0, (syscall kernel Sys.nanosleep req 0 0 0 0 0 w').1)

  unfoldable pub usleep : ℕ → ℕ → World K → ℕ × World K
  usleep req usec w =
      let u : ℕ = usec % 2 ^ 32 in
      let w' : World K = record w {
        mem = put_timespec req (u / 1000000) (u % 1000000 * 1000 % 2 ^ 32) w.mem;
      } in
      int_call kernel Sys.nanosleep req 0 0 0 0 0 w'

  unfoldable pub nanosleep : ℕ → ℕ → World K → ℕ × World K
  nanosleep req rem w =
      if req == null
      then (minus_one_int, set_errno 14 w)
      else int_call kernel Sys.nanosleep req rem 0 0 0 0 w

  put_timespec_lem :
      (req sec nsec : ℕ) (m : Memory)
      → sec < 2 ^ 64
      → nsec < 2 ^ 64
      → (get_long req (put_timespec req sec nsec m) ≡ sec)
        × (get_long (req + 8) (put_timespec req sec nsec m) ≡ nsec)
        × SameOutside req 16 m (put_timespec req sec nsec m)
  put_timespec_lem req sec nsec m s n =
      let m' : Memory = put_long req sec m in
      (
        get_long-put_long_other req (req + 8) nsec m' (inl (omega arith))
            ∙ get_long-put_long req sec m s,
        get_long-put_long (req + 8) nsec m' n,
        λ x out.
            put_bytes_out 8 (req + 8) nsec m' x (λ h. out (omega arith, omega arith))
            ∙ put_bytes_out 8 req sec m x (λ h. out (omega arith, omega arith)),
      )

  -- usleep asks the kernel to sleep for just the microseconds given: the structure it hands over
  -- holds that time, its nanoseconds are less than a second, as nanosleep wants them, and no byte
  -- outside the structure changes.
  usleep_lem :
      (req usec : ℕ) (w : World K)
      → usec < 2 ^ 32
      → (m : Memory) × (usleep req usec w
          ≡ int_call kernel Sys.nanosleep req 0 0 0 0 0 (record w { mem = m }))
        × (get_long req m * 1000000000 + get_long (req + 8) m ≡ usec * 1000)
        × (get_long (req + 8) m < 1000000000)
        × SameOutside req 16 w.mem m
  unfolding usleep
  usleep_lem req usec w lt =
      let u : ℕ = usec % 2 ^ 32 in
      let (sec, nsec, out) =
        put_timespec_lem req (u / 1000000) (u % 1000000 * 1000 % 2 ^ 32) w.mem (omega arith)
          (omega arith) in
      (
        put_timespec req (u / 1000000) (u % 1000000 * 1000 % 2 ^ 32) w.mem,
        refl,
        rw (sec, nsec) (omega arith),
        rw nsec (omega arith),
        out,
      )
