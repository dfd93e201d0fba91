-- ===== src/Hook/Flags.antt =====
-- What a program sees of O_NONBLOCK and of the timeouts through the hooks (src/hook.cc).
use Prim.Native.Nat.{bit_and, bit_or}
use lt.Base.{
  ℕ, ◌-◌, ◌^◌, ◌≡◌, ◌≢◌, refl, sym, ap, ◌∙◌, true, false, not, some, ◌==◌, if◌then◌else◌, arith,
  Bool-cases, inl, inr, bit_or-bit_and_ne, bit_and-bit_and-zero,
}
use lt.FdManager.{FdCtx, o_nonblock, System, FdManager, find}
use lt.Hook.{Calls, fionbio, ctx_at, is_managed, set_ctx, set_fl, get_fl, ioctl}

pub set_bit : (a : ℕ) → (bit_and (bit_or a o_nonblock) o_nonblock == 0) ≡ false
set_bit a = ground (arith, bit_or-bit_and_ne 11 a)

pub clear_bit : (a : ℕ) → (bit_and (bit_and a (2 ^ 32 - 1 - o_nonblock)) o_nonblock == 0) ≡ true
clear_bit a = ground (arith, bit_and-bit_and-zero 11 a (2 ^ 32 - 1 - o_nonblock) refl)

module _ (O : System) (C : Calls O) where
  pub ctx_at-same :
      (fd : ℕ) (h : ℕ → FdCtx) (k : O.State) (m : FdManager O)
      → ctx_at O fd (record m { heap = h; kernel = k }) ≡ ctx_at O fd m
  unfolding ctx_at find
  ctx_at-same fd h k m = refl

  module _ (fd arg : ℕ) (m : FdManager O) (managed : is_managed O (ctx_at O fd m) m ≡ true)
      (sys : (m.heap (ctx_at O fd m)).sys_nonblock ≡ true) where
    -- What F_SETFL leaves.
    abbrev after_set : FdManager O
    after_set =
        let p = ctx_at O fd m in
        record (set_ctx O p
          (record (m.heap p) { user_nonblock = not (bit_and arg o_nonblock == 0) }) m) {
            kernel = O.set_flags fd (bit_or arg o_nonblock) m.kernel;
          }

    set_fl_lem : (set_fl O C fd arg m).1 ≡ after_set
    unfolding set_fl
    set_fl_lem = ground arith

    is_managed-after : is_managed O (ctx_at O fd m) after_set ≡ true
    unfolding is_managed
    is_managed-after = ground arith

    get_fl-after : get_fl O C fd after_set ≡ (
        if not (bit_and arg o_nonblock == 0)
        then bit_or (O.get_flags fd after_set.kernel) o_nonblock
        else bit_and (O.get_flags fd after_set.kernel) (2 ^ 32 - 1 - o_nonblock))
    unfolding get_fl
    get_fl-after =
        ground (arith, ctx_at-same fd after_set.heap after_set.kernel m, is_managed-after)

    seen-after : (bit_and (get_fl O C fd after_set) o_nonblock == 0) ≡ (bit_and arg o_nonblock == 0)
    seen-after = rw get_fl-after (elim (Bool-cases (bit_and arg o_nonblock == 0)) [
      | inl e ↦ rw e (clear_bit (O.get_flags fd after_set.kernel))
      | inr e ↦ rw e (set_bit (O.get_flags fd after_set.kernel))
    ])

  -- For a socket that the manager keeps nonblocking, F_GETFL tells O_NONBLOCK as the program set it by
  -- F_SETFL, while for the system the handle stays nonblocking; no other handle's flags change.
  pub set_fl-get_fl :
      (fd g arg : ℕ) (m : FdManager O)
      → is_managed O (ctx_at O fd m) m ≡ true
      → (m.heap (ctx_at O fd m)).sys_nonblock ≡ true
      → O.fstat fd m.kernel ≡ some true
      → fd ≢ g
      → let m' = (set_fl O C fd arg m).1 in
        ((bit_and (get_fl O C fd m') o_nonblock == 0) ≡ (bit_and arg o_nonblock == 0))
        × ((bit_and (O.get_flags fd m'.kernel) o_nonblock == 0) ≡ false)
        × (O.get_flags g m'.kernel ≡ O.get_flags g m.kernel)
  set_fl-get_fl fd g arg m managed sys sock ne = rw (set_fl_lem fd arg m managed sys) (
    seen-after fd arg m managed sys,
    ap (λ x. x == 0) (O.set_nonblock fd (bit_or arg o_nonblock) m.kernel sock) ∙ set_bit arg,
    O.set_other fd g _ m.kernel ne,
  )

  ioctl-status :
      (fd : ℕ) (m : FdManager O)
      → (ioctl O C fd fionbio 0 m).0 ≡ (C.ioctl_f fd fionbio 0 m.kernel).0
  unfolding ioctl
  ioctl-status fd m = refl

  ioctl_lem :
      (fd : ℕ) (m : FdManager O)
      → is_managed O (ctx_at O fd m) m ≡ true
      → (ioctl O C fd fionbio 0 m).1
        ≡ record (set_ctx O
            (ctx_at O fd m)
            (record (m.heap (ctx_at O fd m)) { user_nonblock = false })
            m) { kernel = (C.ioctl_f fd fionbio 0 m.kernel).1 }
  unfolding ioctl
  ioctl_lem fd m managed = ground arith

  -- FIONBIO with 0 on such a socket takes O_NONBLOCK from the handle in the system, which F_SETFL
  -- never does: the manager still counts it as nonblocking, and a call that would wait blocks its
  -- thread.
  pub ioctl_blocks :
      (fd : ℕ) (m : FdManager O)
      → is_managed O (ctx_at O fd m) m ≡ true
      → (m.heap (ctx_at O fd m)).sys_nonblock ≡ true
      → O.fstat fd m.kernel ≡ some true
      → (ioctl O C fd fionbio 0 m).0 ≡ 0
      → let m' = (ioctl O C fd fionbio 0 m).1 in
        ((bit_and (O.get_flags fd m'.kernel) o_nonblock == 0) ≡ true)
        × ((m'.heap (ctx_at O fd m')).sys_nonblock ≡ true)
        × ((m'.heap (ctx_at O fd m')).user_nonblock ≡ false)
  ioctl_blocks fd m managed sys sock ok =
      let p = ctx_at O fd m in
      let c = record (m.heap p) { user_nonblock = false } in
      rw
        (
          ioctl_lem fd m managed,
          ctx_at-same fd (set_ctx O p c m).heap (C.ioctl_f fd fionbio 0 m.kernel).1 m,
        )
        (
          C.ioctl_nonblock fd 0 m.kernel sock (sym (ioctl-status fd m) ∙ ok),
          ground arith,
          ground arith,
        )
