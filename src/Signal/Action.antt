-- ===== src/Signal/Action.antt =====
-- The structure that sigaction of sdk/src/signal.c hands to the kernel.
use axiome_toolchain.Base.{
  ℕ, ◌+◌, ◌-◌, ◌/◌, ◌%◌, ◌^◌, ◌<◌, ◌≡◌, ◌≢◌, refl, ap, ◌∙◌, inl, inr, arith, false, ◌==◌,
  Bool-cases,
}
use axiome_toolchain.Memory.{Memory, null, SameOutside}
use axiome_toolchain.Memory.Words.{
  get_long, put_long, copy_struct, put_bytes_out, get_bytes_same, get_long-put_long,
  get_long-put_long_other, get_long-copy_struct,
}
use axiome_toolchain.World.{World}
use axiome_toolchain.System.Sys
use axiome_toolchain.System.Call.{Kernel, int_call, long_of_int}
use axiome_toolchain.Signal.{with_restorer, local_action, sigaction}

-- The structure at `a` in `g` is the one at `b` in `m` but for the restorer and its flag.
pub record IsPrepared (trampoline : ℕ) (m : Memory) (b : ℕ) (g : Memory) (a : ℕ) : Type 0 where
  pub handler_lem : get_long a g ≡ get_long b m
  pub flag_lem : get_long (a + 8) g / 8 % 2 ≡ 1
  pub low_flags_lem : get_long (a + 8) g % 8 ≡ get_long (b + 8) m % 8
  pub high_flags_lem : get_long (a + 8) g / 16 ≡ get_long (b + 8) m / 16
  pub restorer_lem : get_long (a + 16) g ≡ trampoline
  pub mask_lem : get_long (a + 24) g ≡ get_long (b + 24) m

with_restorer_lem :
    (f : ℕ)
    → f < 2 ^ 64
    → (with_restorer f < 2 ^ 64)
      × (with_restorer f / 8 % 2 ≡ 1)
      × (with_restorer f % 8 ≡ f % 8)
      × (with_restorer f / 16 ≡ f / 16)
with_restorer_lem f lt = elim (Bool-cases (f / 8 % 2 == 1)) [
  | inl set ↦ rw set (lt, ground arith, refl, refl)
  | inr clear ↦ rw clear (ground arith, ground arith, omega arith, ground arith)
]

local_action-IsPrepared :
    (trampoline local act : ℕ) (m : Memory)
    → trampoline < 2 ^ 64
    → get_long (act + 8) m < 2 ^ 64
    → IsPrepared trampoline m act (local_action trampoline local act m) local
unfolding local_action
local_action-IsPrepared trampoline local act m t f =
    let m1 : Memory = copy_struct 32 local act m in
    let m2 : Memory = put_long (local + 16) trampoline m1 in
    let flags : get_long (local + 8) m2 ≡ get_long (act + 8) m =
      get_long-put_long_other (local + 8) (local + 16) trampoline m1 (inl (omega arith))
      ∙ get_long-copy_struct 32 local act 8 m (omega arith) in
    let g : Memory = put_long (local + 8) (with_restorer (get_long (local + 8) m2)) m2 in
    let (small, set, low, high) = with_restorer_lem (get_long (act + 8) m) f in
    let stored : get_long (local + 8) g ≡ with_restorer (get_long (act + 8) m) =
      rw flags (get_long-put_long (local + 8) (with_restorer (get_long (act + 8) m)) m2 small) in
    record {
      handler_lem =
          get_long-put_long_other local (local + 8) _ m2 (inl (omega arith))
          ∙ get_long-put_long_other local (local + 16) trampoline m1 (inl (omega arith))
          ∙ get_bytes_same 8 act local m m1 (λ i lt.
            let place : act + (local + i - local) ≡ act + i = omega arith in
            ground (arith, ap m place));
      flag_lem = rw stored set;
      low_flags_lem = rw stored low;
      high_flags_lem = rw stored high;
      restorer_lem =
          get_long-put_long_other (local + 16) (local + 8) _ m2 (inr (omega arith))
          ∙ get_long-put_long (local + 16) trampoline m1 t;
      mask_lem =
          get_long-put_long_other (local + 24) (local + 8) _ m2 (inr (omega arith))
          ∙ get_long-put_long_other (local + 24) (local + 16) trampoline m1 (inr (omega arith))
          ∙ get_long-copy_struct 32 local act 24 m (omega arith);
    }

local_action_out :
    (trampoline local act : ℕ) (m : Memory)
    → SameOutside local 32 m (local_action trampoline local act m)
unfolding local_action
local_action_out trampoline local act m x out =
    let m1 : Memory = copy_struct 32 local act m in
    let m2 : Memory = put_long (local + 16) trampoline m1 in
    put_bytes_out 8 (local + 8) _ m2 x (λ h. out (omega arith, omega arith))
    ∙ put_bytes_out 8 (local + 16) trampoline m1 x (λ h. out (omega arith, omega arith))
    ∙ ground arith

-- sigaction with an action hands the kernel a structure of its own: the handler and the mask are the
-- caller's, the restorer is the trampoline, and the flags are the caller's with SA_RESTORER set. The
-- caller's structure keeps its bytes: nothing but the 32 bytes of the variable changes.
pub sigaction-IsPrepared :
    {K : Type 0} (kernel : Kernel K) (trampoline local signo act oldact : ℕ) (w : World K)
    → act ≢ null
    → trampoline < 2 ^ 64
    → get_long (act + 8) w.mem < 2 ^ 64
    → (m : Memory) × (sigaction kernel trampoline local signo act oldact w
        ≡ int_call kernel Sys.sigaction
            (long_of_int signo)
            local
            oldact
            0
            0
            0
            (record w { mem = m }))
      × IsPrepared trampoline w.mem act m local
      × SameOutside local 32 w.mem m
unfolding sigaction
sigaction-IsPrepared kernel trampoline local signo act oldact w there t f =
    let test : (act == null) ≡ false = ground arith in
    (
      local_action trampoline local act w.mem,
      rw test refl,
      local_action-IsPrepared trampoline local act w.mem t f,
      local_action_out trampoline local act w.mem,
    )
