-- ===== src/FdManager/Context.antt =====
-- A new context (src/fd_manager.cc, `FdCtx::init`).
use Prim.Native.Nat.{bit_and, bit_or}
use lt.Base.{
  ℕ, ◌≡◌, ◌≢◌, refl, sym, ◌∙◌, Bool, true, false, Option, none, some, arith, ◌==◌, u64_max,
  bit_or-bit_and_ne, if_cases, if_false, Bool-cases, inl, inr,
}
use lt.FdManager.{
  FdCtx, so_rcvtimeo, set_timeout, get_timeout, o_nonblock, System, make_nonblock, init, new_ctx,
}

has_bit : (a : ℕ) → bit_and (bit_or a o_nonblock) o_nonblock ≢ 0
has_bit a = bit_or-bit_and_ne 11 a

module _ (O : System) where
  open O use {State, fstat, get_flags, set_flags}

  -- What `init` finds is a socket.
  abbrev is_sock : Option Bool → Bool
  is_sock o = (elim o as (λ _. Bool × Bool) [ none ↦ (false, false) | some sock ↦ (true, sock) ]).1

  no_socket : (o : Option Bool) → o ≢ some true → is_sock o ≡ false
  no_socket none ne = refl
  no_socket (some false) ne = refl
  no_socket (some true) ne = absurd (ne refl)

  make_nonblock_lem :
      (fd : ℕ) (k : State)
      → fstat fd k ≡ some true
      → bit_and (get_flags fd (make_nonblock O fd k)) o_nonblock ≢ 0
  unfolding make_nonblock
  make_nonblock_lem fd k e =
      if_cases (λ x. bit_and (get_flags fd x) o_nonblock ≢ 0)
        (bit_and (get_flags fd k) o_nonblock == 0) _ _
        (λ z h. has_bit (get_flags fd k) (sym (O.set_nonblock fd _ k e) ∙ h)) (λ z h. ground arith)

  make_nonblock-other :
      (fd g : ℕ) (k : State) → fd ≢ g → get_flags g (make_nonblock O fd k) ≡ get_flags g k
  unfolding make_nonblock
  make_nonblock-other fd g k ne =
      if_cases (λ x. get_flags g x ≡ get_flags g k) (bit_and (get_flags fd k) o_nonblock == 0) _ _
        (λ _. O.set_other fd g _ k ne) (λ _. refl)

  -- A context that is made for a socket is nonblocking, and afterwards so is the handle for the
  -- system; for anything else the handle is left alone. The user has asked for nothing: it blocks
  -- from its view and has no timeout. No flag of another handle changes.
  pub new_ctx-Nonblock :
      (fd g : ℕ) (k : State)
      → let r = new_ctx O fd k in
        (fstat fd k ≡ some true
          → (r.0.sys_nonblock ≡ true) × (bit_and (get_flags fd r.1) o_nonblock ≢ 0))
        × (fstat fd k ≢ some true → (r.0.sys_nonblock ≡ false) × (r.1 ≡ k))
        × (r.0.user_nonblock ≡ false)
        × (r.0.recv_timeout ≡ u64_max)
        × (r.0.send_timeout ≡ u64_max)
        × (fd ≢ g → get_flags g r.1 ≡ get_flags g k)
  unfolding new_ctx init
  new_ctx-Nonblock fd g k = (
    (λ e. rw e (refl, make_nonblock_lem fd k e)),
    (λ ne. (
      no_socket (fstat fd k) ne,
      if_false (is_sock (fstat fd k)) _ _ (no_socket (fstat fd k) ne),
    )),
    refl,
    refl,
    refl,
    (λ ne.
        if_cases (λ x. get_flags g x ≡ get_flags g k) (is_sock (fstat fd k)) _ _
          (λ _. make_nonblock-other fd g k ne) (λ _. refl)),
  )

-- Of the two timeouts of a context each is read as it was set last, whatever is set for the other
-- direction.
pub get_timeout-set_timeout :
    (type other v w : ℕ) (c : FdCtx)
    → (type == so_rcvtimeo) ≢ (other == so_rcvtimeo)
    → (get_timeout type (set_timeout other w (set_timeout type v c)) ≡ v)
      × (get_timeout other (set_timeout type v c) ≡ get_timeout other c)
unfolding get_timeout set_timeout
get_timeout-set_timeout type other v w c ne = elim (Bool-cases (type == so_rcvtimeo)) [
  | inl e ↦ elim (Bool-cases (other == so_rcvtimeo)) [
    | inl f ↦ absurd (ne (e ∙ sym f))
    | inr f ↦ rw (e, f) (refl, refl)
  ]
  | inr e ↦ elim (Bool-cases (other == so_rcvtimeo)) [
    | inl f ↦ rw (e, f) (refl, refl)
    | inr f ↦ absurd (ne (e ∙ sym f))
  ]
]
