-- ===== src/Stdio/Opening/Table.antt =====
-- The descriptors of the kernel, as the calls of open and close in sdk/src/stdio.c see them.
use axiome_toolchain.Base.{
  ℕ, ◌-◌, ◌^◌, ◌≤◌, ◌<◌, ◌≡◌, ap, ◌∙◌, ◌⊎◌, inl, inr, Bool, true, false, arith, ◌==◌, if◌then◌else◌,
}
use axiome_toolchain.Memory.{Memory}
use axiome_toolchain.World.{World, set_errno}
use axiome_toolchain.System.Sys
use axiome_toolchain.System.Call.{Kernel, long_of_int, minus_one_int}
use axiome_toolchain.System.Call.Outcome.{value, failure, int_call-result}
use axiome_toolchain.System.Files.{open_file, close}

-- The descriptors in use, as open(2) and close(2) describe them: open takes one that is not in use,
-- or fails and changes none, and close of one in use gives it back. Neither touches memory.
pub record IsTable {K : Type 0} (kernel : Kernel K) (is_open : K → ℕ → Bool) : Type 0 where
  pub open_lem :
      (path flags : ℕ) (m : Memory) (k : K)
      → ((fd : ℕ) × (k' : K) × (fd < 2 ^ 31)
          × (is_open k fd ≡ false)
          × (kernel Sys.open_file path flags 0 0 0 0 m k ≡ (fd, m, k'))
          × ((x : ℕ) → is_open k' x ≡ (if x == fd then true else is_open k x)))
        ⊎ ((e : ℕ) × (k' : K) × (1 ≤ e)
            × (e ≤ 4095)
            × (kernel Sys.open_file path flags 0 0 0 0 m k ≡ (2 ^ 64 - e, m, k'))
            × ((x : ℕ) → is_open k' x ≡ is_open k x))
  pub close_lem :
      (fd : ℕ) (m : Memory) (k : K)
      → fd < 2 ^ 31
      → is_open k fd ≡ true
      → (k' : K) × (kernel Sys.close fd 0 0 0 0 0 m k ≡ (0, m, k'))
        × ((x : ℕ) → is_open k' x ≡ (if x == fd then false else is_open k x))

module _ {K : Type 0} (kernel : Kernel K) (is_open : K → ℕ → Bool)
    (table : IsTable kernel is_open) where
  -- The same descriptors are in use.
  abbrev pub SameOpen : World K → World K → Type 0
  SameOpen w w' = (x : ℕ) → is_open w'.sys x ≡ is_open w.sys x

  pub open_file-cases :
      (path flags : ℕ) (w : World K)
      → ((fd : ℕ) × (k' : K) × (fd < 2 ^ 31)
          × (is_open w.sys fd ≡ false)
          × (open_file kernel path flags w ≡ (fd, record w { sys = k' }))
          × ((x : ℕ) → is_open k' x ≡ (if x == fd then true else is_open w.sys x)))
        ⊎ ((e : ℕ) × (k' : K) × (open_file kernel path flags w
              ≡ (minus_one_int, set_errno e (record w { sys = k' })))
            × ((x : ℕ) → is_open k' x ≡ is_open w.sys x))
  unfolding open_file
  open_file-cases path flags w = elim (table.open_lem path (long_of_int flags) w.mem w.sys) [
    | inl (fd, k', small, free_fd, ran, after) ↦ inl (
      fd,
      k',
      small,
      free_fd,
      int_call-result kernel Sys.open_file path (long_of_int flags) 0 0 0 0 w (value fd) w.mem k'
            (omega arith) ran
          ∙ ap (λ (n : ℕ). (n, record w { sys = k' })) (omega arith),
      after,
    )
    | inr (e, k', lo, hi, ran, after) ↦ inr (
      e,
      k',
      int_call-result kernel Sys.open_file path (long_of_int flags) 0 0 0 0 w (failure e) w.mem k'
          (lo, hi) ran,
      after,
    )
  ]

  pub close-run :
      (fd : ℕ) (w : World K)
      → fd < 2 ^ 31
      → is_open w.sys fd ≡ true
      → (k' : K) × (close kernel fd w ≡ (0, record w { sys = k' }))
        × ((x : ℕ) → is_open k' x ≡ (if x == fd then false else is_open w.sys x))
  unfolding close
  close-run fd w small used =
      let long : long_of_int fd ≡ fd = ground arith in
      let (k', ran, after) = table.close_lem fd w.mem w.sys small used in
      (
        k',
        int_call-result kernel Sys.close (long_of_int fd) 0 0 0 0 0 w (value 0) w.mem k'
            (omega arith) (rw long ran),
        after,
      )
