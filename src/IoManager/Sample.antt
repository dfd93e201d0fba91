-- ===== src/IoManager/Sample.antt =====
-- A table of registrations as `epoll`, and I/O managers on it (src/iomanager.cc).
use mathlib.Core.Path.{subst}
use mathlib.Core.Option.{some-injective}
use lt.Base.{
  ℕ, ◌≡◌, ◌≢◌, refl, sym, ap, ◌∙◌, Bool, true, false, [], ◌∷◌, Option, none, some, arith, ◌==◌,
  if◌then◌else◌, get_elem?, set,
}
use lt.Callback.{user, null}
use lt.IoManager.Events.{read, has, with_event}
use lt.IoManager.{
  EventContext, FdContext, CtlOp, add, mod_op, del, Epoll, Manager, no_context, new_contexts,
  context_resize, grown, add_event, add_event_locked, get_event_context, set_event_context,
}
use lt.IoManager.Local.{total_weight}
use lt.IoManager.Sync.{Inv}
use lt.IoManager.Handled.{Covers}
use lt.IoManager.Growth.{grown-Inv}
use lt.IoManager.Adding.{add_event-Adds}

abbrev pub Table : Type 0
Table = ℕ → Option ℕ

abbrev pub put : ℕ → Option ℕ → Table → Table
put fd mask k = λ g. if fd == g then mask else k g

-- EEXIST for ADD, ENOENT for MOD and DEL.
unfoldable pub ctl : CtlOp → ℕ → ℕ → Table → ℕ × Table
ctl add fd mask k = elim (k fd) [ none ↦ (0, put fd (some mask) k) | some _ ↦ (1, k) ]
ctl mod_op fd mask k = elim (k fd) [ none ↦ (1, k) | some _ ↦ (0, put fd (some mask) k) ]
ctl del fd mask k = elim (k fd) [ none ↦ (1, k) | some _ ↦ (0, put fd none k) ]

pub ctl_failed :
    (op : CtlOp) (fd mask : ℕ) (k : Table)
    → (ctl op fd mask k).0 ≢ 0
    → (g : ℕ) → (ctl op fd mask k).1 g ≡ k g
unfolding ctl
ctl_failed add fd mask k h g = ground arith
ctl_failed mod_op fd mask k h g = ground arith
ctl_failed del fd mask k h g = ground arith

pub ctl_added :
    (fd mask : ℕ) (k : Table)
    → (ctl add fd mask k).0 ≡ 0
    → (g : ℕ) → (ctl add fd mask k).1 g ≡ (if fd == g then some mask else k g)
unfolding ctl
ctl_added fd mask k h g = ground arith

pub ctl_changed :
    (fd mask : ℕ) (k : Table)
    → (ctl mod_op fd mask k).0 ≡ 0
    → (g : ℕ) → (ctl mod_op fd mask k).1 g ≡ (if fd == g then some mask else k g)
unfolding ctl
ctl_changed fd mask k h g = ground arith

pub ctl_removed :
    (fd mask : ℕ) (k : Table)
    → (ctl del fd mask k).0 ≡ 0
    → (g : ℕ) → (ctl del fd mask k).1 g ≡ (if fd == g then none else k g)
unfolding ctl
ctl_removed fd mask k h g = ground arith

abbrev pub table : Epoll
table = record {
  State = Table;
  epoll_ctl = ctl;
  registered = λ k fd. k fd;
  failed_same = ctl_failed;
  add_registers = ctl_added;
  mod_registers = ctl_changed;
  del_removes = ctl_removed;
}

-- No handle but the tickle pipe, 1, is known to `epoll`.
abbrev pub empty : Manager table
empty = record {
  contexts = [];
  pending_event_count = 0;
  scheduled = [];
  epoll = put 1 (some 0x80000001) (λ _. none);
  tickle_fd = 1;
}

pub empty-Inv : Inv table empty
unfolding total_weight
empty-Inv = record {
  local = record { contexts = λ i c e. cc; counted = refl; small = omega arith };
  sync = λ i c e ne. cc;
  outside = λ i le ne. ground arith;
}

abbrev pub idle_context : ℕ → FdContext
idle_context i = record { reading = no_context; writing = no_context; fd = i; events = 0 }

-- The contexts for handle 4, as `addEvent` makes them.
abbrev pub blank : Manager table
blank = record empty { contexts = grown 4 [] }

pub blank-Inv : Inv table blank
blank-Inv = (grown-Inv table 4 empty empty-Inv (omega arith) (omega arith)).0

abbrev pub reader : EventContext
reader = record { scheduler = 8; fiber = 0; cb = user 5 }

-- Handle 3 waits to be read, for a callback of the scheduler at 8.
abbrev pub waiting : Manager table
waiting = record {
  contexts =
      idle_context 0
      ∷ idle_context 1
      ∷ idle_context 2
      ∷ record { reading = reader; writing = no_context; fd = 3; events = 1 }
      ∷ idle_context 4
      ∷ idle_context 5
      ∷ [];
  pending_event_count = 1;
  scheduled = [];
  epoll = put 3 (some 0x80000001) empty.epoll;
  tickle_fd = 1;
}

pub fresh_at_3 :
    (c : FdContext) → get_elem? (grown 3 blank.contexts) 3 ≡ some c → has c.events read ≡ false
unfolding grown context_resize new_contexts has
fresh_at_3 c e = ap (λ (c : FdContext). has c.events read) (sym (some-injective _ _ e))

waiting_lem : add_event table 3 read (user 5) 8 4 blank ≡ some (true, waiting)
unfolding add_event add_event_locked grown context_resize new_contexts ctl with_event has
    set_event_context get_event_context
waiting_lem = refl

pub waiting-Inv : Inv table waiting
waiting-Inv =
    let (c, found, again, fresh) =
      add_event-Adds table 3 read (user 5) 8 4 blank (λ h. cc) (λ h. ground arith) (omega arith)
        (omega arith) blank-Inv in
    let (r, eq, v, _, _, _, _) = fresh (fresh_at_3 c found) in
    subst (λ (r : Bool × Manager table). Inv table r.1) (some-injective _ _ (sym eq ∙ waiting_lem))
      v

pub waiting_at_3 :
    get_elem? waiting.contexts 3
    ≡ some (record { reading = reader; writing = no_context; fd = 3; events = 1 })
waiting_at_3 = refl

abbrev pub read_context : FdContext
read_context = record { reading = reader; writing = no_context; fd = 3; events = 1 }

-- EPOLLHUP counts as the event that the context waits for.
pub hang_up-Covers : Covers table 0x10 read_context
unfolding has
hang_up-Covers = ((λ h. cc), (λ h. cc))

-- Fiber 4 waits to read handle 3.
abbrev pub with_fiber : Manager table
with_fiber = record blank {
  contexts = set blank.contexts 3 (record {
    reading = record { scheduler = 8; fiber = 4; cb = null };
    writing = no_context;
    fd = 3;
    events = 1;
  });
  pending_event_count = 1;
  epoll = put 3 (some 0x80000001) blank.epoll;
}

pub fiber_added : add_event table 3 read null 8 4 blank ≡ some (true, with_fiber)
unfolding add_event add_event_locked grown context_resize new_contexts ctl with_event has
    set_event_context get_event_context
fiber_added = refl
