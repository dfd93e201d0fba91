-- ===== src/IoManager/Sync.antt =====
-- The contexts and the kernel's interest list agree (src/iomanager.cc).
use Prim.Native.Nat.{bit_or}
use mathlib.Core.Path.{subst}
use mathlib.Core.Option.{some-injective}
use lt.Base.{
  ℕ, ◌≤◌, ◌≡◌, ◌≢◌, refl, sym, ap, ◌∙◌, Option, none, some, arith, ◌==◌, if◌then◌else◌, length,
  get_elem?, Bool-cases, if_true, if_false, get_elem?-none, inl, inr, ==_iff, ==_false,
}
use lt.IoManager.{FdContext, CtlOp, epollet, Epoll, Manager}
use lt.IoManager.Poll.{left_op}
use lt.IoManager.Local.{Local}

-- What a context's mask asks of `epoll`.
abbrev pub registration : ℕ → Option ℕ
registration events = if events == 0 then none else some (bit_or epollet events)

pub none-some : {A : Type 0} (a : A) → none ≢ some a
none-some a e = cc

module _ (E : Epoll) where
  open E use {State, epoll_ctl, registered, failed_same, mod_registers, del_removes}

  -- The bookkeeping is right, and `epoll` watches each handle, but for the tickle pipe, for exactly
  -- the events of its context.
  pub record Inv (m : Manager E) : Type 0 where
    pub local : Local m
    pub sync :
        (i : ℕ) (c : FdContext)
        → get_elem? m.contexts i ≡ some c
        → i ≢ m.tickle_fd
        → registered m.epoll i ≡ registration c.events
    pub outside : (i : ℕ) → length m.contexts ≤ i → i ≢ m.tickle_fd → registered m.epoll i ≡ none

  -- MOD with what is left, or DEL if nothing is.
  pub left_ctl :
      (fd events : ℕ) (k : State)
      → (epoll_ctl (left_op events) fd (bit_or epollet events) k).0 ≡ 0
      → (g : ℕ)
      → registered (epoll_ctl (left_op events) fd (bit_or epollet events) k).1 g
        ≡ (if fd == g then registration events else registered k g)
  left_ctl fd events k = elim (Bool-cases (events == 0)) [
    | inl z ↦ rw z (del_removes fd (bit_or epollet events) k)
    | inr z ↦ rw z (mod_registers fd (bit_or epollet events) k)
  ]

  -- A call of `epoll_ctl` that fails.
  pub failed-Inv :
      (op : CtlOp) (fd mask : ℕ) (m : Manager E)
      → (epoll_ctl op fd mask m.epoll).0 ≢ 0
      → Inv m
      → Inv (record m { epoll = (epoll_ctl op fd mask m.epoll).1 })
  failed-Inv op fd mask m e v = record {
    local = record {
      contexts = v.local.contexts;
      counted = v.local.counted;
      small = v.local.small;
    };
    sync = λ i c f ne. failed_same op fd mask m.epoll e i ∙ v.sync i c f ne;
    outside = λ i le ne. failed_same op fd mask m.epoll e i ∙ v.outside i le ne;
  }

  -- A change of one context after the call of `epoll_ctl` for it.
  pub changed-Inv :
      (m m' : Manager E) (i : ℕ) (c c' : FdContext) (events : ℕ)
      → Inv m
      → Local m'
      → get_elem? m.contexts i ≡ some c
      → get_elem? m'.contexts i ≡ some c'
      → ((j : ℕ) → i ≢ j → get_elem? m'.contexts j ≡ get_elem? m.contexts j)
      → length m'.contexts ≡ length m.contexts
      → m'.tickle_fd ≡ m.tickle_fd
      → c'.events ≡ events
      → ((g : ℕ)
          → registered m'.epoll g ≡ (if i == g then registration events else registered m.epoll g))
      → Inv m'
  changed-Inv m m' i c c' events v l e e' others len tick ev reg = record {
    local = l;
    sync = λ j d f ne. elim (Bool-cases (i == j)) [
      | inl same ↦
          subst (λ (k : ℕ). registered m'.epoll k ≡ registration d.events) ((==_iff i j).0 same)
            (reg i
              ∙ (if_true (i == i) _ _ ((==_iff i i).1 refl)
                  ∙ ap registration (
                      sym ev
                      ∙ ap (λ (x : FdContext). x.events)
                          (some-injective c' d
                            (sym e' ∙ (ap (get_elem? m'.contexts) ((==_iff i j).0 same) ∙ f))))))
      | inr other ↦
          reg j
          ∙ (if_false (i == j) _ _ other
              ∙ v.sync j d (sym (others j (==_false i j other)) ∙ f) (λ h. ne (h ∙ sym tick)))
    ];
    outside = λ j le ne. elim (Bool-cases (i == j)) [
      | inl same ↦ absurd (
          none-some c' (
            sym (get_elem?-none m'.contexts j le)
            ∙ (sym (ap (get_elem? m'.contexts) ((==_iff i j).0 same)) ∙ e')))
      | inr other ↦
          reg j
          ∙ (if_false (i == j) _ _ other
              ∙ v.outside j (omega (arith, len)) (λ h. ne (h ∙ sym tick)))
    ];
  }
