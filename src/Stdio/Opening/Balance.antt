-- ===== src/Stdio/Opening/Balance.antt =====
-- fopen and fclose of sdk/src/stdio.c keep the descriptors and the heap in balance.
use mathlib.Core.Path.{subst}
use axiome_toolchain.Base.{
  ℕ, suc, ◌+◌, ◌^◌, ◌≤◌, ◌<◌, ◌≡◌, ◌≢◌, refl, sym, ap, ◌∙◌, ◌⊎◌, inl, inr, Bool, true, false, ◌||◌,
  List, Option, none, some, arith, length, leb, ◌==◌, if◌then◌else◌, Bool-cases, ==_self,
}
use axiome_toolchain.Memory.{null}
use axiome_toolchain.World.{World, set_file, set_errno}
use axiome_toolchain.Stdlib.Heap.{Heap, heap_size, word, malloc, free}
use axiome_toolchain.Stdlib.Heap.Chain.{Cell, IsHeap}
use axiome_toolchain.Stdlib.Heap.Merged.{Separated}
use axiome_toolchain.System.Call.{Kernel, minus_one_int}
use axiome_toolchain.System.Files.{open_file, close}
use axiome_toolchain.Stdio.Streams.{fflush}
use axiome_toolchain.Stdio.Opening.{
  file_size, mode_flags, set_libc, new_file, attach, open_with, open_mode, fopen, fclose,
}
use axiome_toolchain.Stdio.Opening.Table.{IsTable, SameOpen, open_file-cases, close-run}
use axiome_toolchain.Stdlib.Heap.Loan.{Lends, malloc-Lends}

module _ {K : Type 0} (kernel : Kernel K) (stdin stdout stderr fuel : ℕ) where
  fclose_run :
      (p fd flags : ℕ) (w w' : World K) (h : Heap)
      → p ≢ null
      → p ≢ stdin
      → p ≢ stdout
      → p ≢ stderr
      → w.files p ≡ new_file fd flags
      → close kernel fd w ≡ (0, w')
      → free fuel p w'.libc ≡ some h
      → fclose kernel stdin stdout stderr fuel p w ≡ some (0, set_libc h w')
  unfolding fclose fflush
  fclose_run p fd flags w w' h a b c d file closed freed =
      let a' : (p == null) ≡ false = ground arith in
      let b' : (p == stdin) ≡ false = ground arith in
      let c' : (p == stdout) ≡ false = ground arith in
      let d' : (p == stderr) ≡ false = ground arith in rw (a', b', c', d', file, closed, freed) refl

-- Not inside the allocator's array.
abbrev pub Outside : ℕ → ℕ → Type 0
Outside heap a = (a ≤ heap) ⊎ (heap + heap_size ≤ a)

module _ {K : Type 0} (kernel : Kernel K) where
  open_with_fail :
      (heap fuel path flags file_flags : ℕ) (w w1 : World K)
      → open_file kernel path file_flags w ≡ (minus_one_int, w1)
      → open_with kernel heap fuel path flags file_flags w ≡ some (null, w1)
  unfolding open_with
  open_with_fail heap fuel path flags file_flags w w1 e = rw e refl

  open_with_run :
      (heap fuel path flags file_flags fd : ℕ) (w w1 : World K) (call : ℕ × Heap)
      → open_file kernel path file_flags w ≡ (fd, w1)
      → fd < 2 ^ 31
      → malloc heap fuel file_size w1.libc ≡ some call
      → open_with kernel heap fuel path flags file_flags w ≡ some (attach kernel fd flags call w1)
  unfolding open_with
  open_with_run heap fuel path flags file_flags fd w w1 call e small m =
      let plus : leb (2 ^ 31) fd ≡ false = ground arith in rw (e, plus, m) refl

  attach-null :
      (fd flags : ℕ) (h : Heap) (w : World K)
      → attach kernel fd flags (null, h) w ≡ (null, (close kernel fd (set_libc h w)).1)
  unfolding attach
  attach-null fd flags h w = refl

  attach-some :
      (fd flags p : ℕ) (h : Heap) (w : World K)
      → p ≢ null
      → attach kernel fd flags (p, h) w ≡ (p, set_file p (new_file fd flags) (set_libc h w))
  unfolding attach
  attach-some fd flags p h w ne = let other : (p == null) ≡ false = ground arith in rw other refl

module _ {K : Type 0} (kernel : Kernel K) (is_open : K → ℕ → Bool) (table : IsTable kernel is_open)
    (heap fuel stdin stdout stderr : ℕ) (cs : List Cell) (in_place : heap ≢ null)
    (small : heap + heap_size + 16 ≤ word) (enough : length cs < fuel) (sep : Separated cs)
    (out0 : Outside heap stdin) (out1 : Outside heap stdout) (out2 : Outside heap stderr) where
  -- A call of fopen from `w` that returns null leaves descriptors, blocks, streams and memory as
  -- they were. One that returns a stream has opened a descriptor for it, and fclose of the stream
  -- returns 0 and puts descriptors and blocks back.
  abbrev pub Balanced : World K → Option (ℕ × World K) → Type 0
  Balanced w call =
      ((w' : World K) × (call ≡ some (null, w'))
        × SameOpen kernel is_open table w w'
        × IsHeap heap w'.libc cs
        × (w'.files ≡ w.files)
        × (w'.mem ≡ w.mem))
      ⊎ ((p : ℕ) × (fd : ℕ) × (flags : ℕ) × (w' : World K) × (w'' : World K) × (call ≡ some (p, w'))
          × (p ≢ null)
          × (w'.files p ≡ new_file fd flags)
          × (is_open w.sys fd ≡ false)
          × (is_open w'.sys fd ≡ true)
          × (fclose kernel stdin stdout stderr fuel p w' ≡ some (0, w''))
          × SameOpen kernel is_open table w w''
          × IsHeap heap w''.libc cs
          × (w''.mem ≡ w.mem))

  -- A descriptor taken and given back.
  given_back :
      (k k' k'' : K) (fd : ℕ)
      → is_open k fd ≡ false
      → ((x : ℕ) → is_open k' x ≡ (if x == fd then true else is_open k x))
      → ((x : ℕ) → is_open k'' x ≡ (if x == fd then false else is_open k' x))
      → (x : ℕ) → is_open k'' x ≡ is_open k x
  given_back k k' k'' fd free_fd taken given x = elim (Bool-cases (x == fd)) [
    | inl e ↦ rw e at (given x) ∙ sym free_fd ∙ ap (is_open k) (fd_eq e)
    | inr e ↦ (rw e at (given x)) ∙ (rw e at (taken x))
  ]
    where
      fd_eq : (x == fd) ≡ true → fd ≡ x
      fd_eq e = ground arith

  attach-Balanced :
      (fd flags p : ℕ) (h : Heap) (w : World K) (k' : K)
      → fd < 2 ^ 31
      → is_open w.sys fd ≡ false
      → ((x : ℕ) → is_open k' x ≡ (if x == fd then true else is_open w.sys x))
      → Lends file_size heap fuel cs p h
      → Balanced w (some (attach kernel fd flags (p, h) (record w { sys = k' })))
  attach-Balanced fd flags p h w k' low free_fd taken (inl (z, is)) =
      let used : is_open k' fd ≡ true = taken fd ∙ rw ==_self refl in
      let w1 : World K = record w { libc = h; sys = k' } in
      let (k'', closed, given) = close-run kernel is_open table fd w1 low used in
      inl (
        record w1 { sys = k'' },
        ap some (
            rw z (
              attach-null kernel fd flags h (record w { sys = k' })
              ∙ ap (λ (c : ℕ × World K). (null, c.1)) closed)),
        given_back w.sys k' k'' fd free_fd taken given,
        is,
        refl,
        refl,
      )
  attach-Balanced fd flags p h w k' low free_fd taken (inr (lo, hi, (h', freed, is))) =
      let used : is_open k' fd ≡ true = taken fd ∙ rw ==_self refl in
      let ne : p ≢ null = omega arith in
      let w1 : World K = set_file p (new_file fd flags) (record w { libc = h; sys = k' }) in
      let file : w1.files p ≡ new_file fd flags = rw (==_self p) refl in
      let (k'', closed, given) = close-run kernel is_open table fd w1 low used in
      inr (
        p,
        fd,
        flags,
        w1,
        set_libc h' (record w1 { sys = k'' }),
        ap some (attach-some kernel fd flags p h (record w { sys = k' }) ne),
        ne,
        file,
        free_fd,
        used,
        fclose_run kernel stdin stdout stderr fuel p fd flags w1 (record w1 { sys = k'' }) h' ne
            (ground arith) (ground arith) (ground arith) file closed freed,
        given_back w.sys k' k'' fd free_fd taken given,
        is,
        refl,
      )

  open_with-Balanced :
      (path flags file_flags : ℕ) (w : World K)
      → IsHeap heap w.libc cs
      → Balanced w (open_with kernel heap fuel path flags file_flags w)
  open_with-Balanced path flags file_flags w is =
      let (p, h, run, lent) =
        malloc-Lends file_size heap fuel cs w.libc (omega arith) (omega arith) is sep in_place small
          enough in
      elim (open_file-cases kernel is_open table path file_flags w) [
        | inl (fd, k', low, free_fd, ran, taken) ↦
            subst (Balanced w)
              (sym (open_with_run kernel heap fuel path flags file_flags fd w _ (p, h) ran low run))
              (attach-Balanced fd flags p h w k' low free_fd taken lent)
        | inr (e, k', ran, after) ↦ inl (
          set_errno e (record w { sys = k' }),
          open_with_fail kernel heap fuel path flags file_flags w _ ran,
          after,
          is,
          refl,
          refl,
        )
      ]

  open_mode-Balanced :
      (path : ℕ) (o : Option (ℕ × ℕ)) (w : World K)
      → IsHeap heap w.libc cs
      → Balanced w (open_mode kernel heap fuel path o w)
  open_mode-Balanced path none w is = inl (w, refl, λ x. refl, is, refl, refl)
  open_mode-Balanced path (some (flags, file_flags)) w is =
      open_with-Balanced path flags file_flags w is

  -- fopen and fclose in balance: with the kernel's open and close as open(2) and
  -- close(2) describe them, the array inside the address space, its blocks set up and no two free
  -- ones neighbours, fuel above their number, and the standard streams outside the array, fopen
  -- ends. If it returns null, for whatever reason, then descriptors, blocks, streams and memory are
  -- as they were. If it returns a stream, a descriptor not in use before is open for it, and fclose
  -- returns 0 and puts descriptors and blocks back.
  pub fopen-Balanced :
      (path mode : ℕ) (w : World K)
      → IsHeap heap w.libc cs
      → Balanced w (fopen kernel heap fuel path mode w)
  unfolding fopen
  fopen-Balanced path mode w is = elim (Bool-cases ((mode == null) || (w.mem mode == 0))) [
    | inl e ↦ rw e (inl (w, refl, λ x. refl, is, refl, refl))
    | inr e ↦ rw e (open_mode-Balanced path (mode_flags (w.mem mode) (w.mem (suc mode))) w is)
  ]
