-- ===== src/FdManager.antt =====
-- src/fd_manager.cc and include/fd_manager.h: what the hooks know of each file handle. An `FdCtx` is
-- a heap cell known by its address, 0 is the null pointer. `fstat` and the unhooked `fcntl` are
-- parameters. `none` is an access out of bounds.
pub mod Table
pub mod Context
pub mod Tests
use Prim.Native.Nat.{bit_and, bit_or}
use lt.Base.{
  ℕ, zero, suc, ◌-◌, ◌*◌, ◌/◌, ◌^◌, ◌≡◌, ◌≢◌, Bool, true, false, List, [], ◌∷◌, ◌++◌, Option, none,
  some, ◌==◌, leb, if◌then◌else◌, length, get_elem?, set, take, u64_max, ℤ, pos, negsuc,
}

pub record FdCtx : Type 0 where
  pub is_init : Bool
  pub is_socket : Bool
  pub sys_nonblock : Bool
  pub user_nonblock : Bool
  pub is_closed : Bool
  pub fd : ℕ
  pub recv_timeout : ℕ
  pub send_timeout : ℕ

-- O_NONBLOCK and SO_RCVTIMEO.
abbrev pub o_nonblock : ℕ
o_nonblock = 0x800

abbrev pub so_rcvtimeo : ℕ
so_rcvtimeo = 20

-- The system: `S_ISSOCK` of the mode that `fstat` finds, `none` if it fails, and F_GETFL and F_SETFL
-- of `fcntl`. By its documentation F_SETFL changes the file status flags of its handle, of which
-- O_NONBLOCK is one, and nothing else that these calls read.
pub record System : Type 1 where
  pub State : Type 0
  pub fstat : ℕ → State → Option Bool
  pub get_flags : ℕ → State → ℕ
  pub set_flags : ℕ → ℕ → State → State
  pub set_nonblock :
      (fd flags : ℕ) (k : State)
      → fstat fd k ≡ some true
      → bit_and (get_flags fd (set_flags fd flags k)) o_nonblock ≡ bit_and flags o_nonblock
  pub set_other :
      (fd g flags : ℕ) (k : State) → fd ≢ g → get_flags g (set_flags fd flags k) ≡ get_flags g k
  pub set_fstat : (fd g flags : ℕ) (k : State) → fstat g (set_flags fd flags k) ≡ fstat g k

pub record Fds (K : Type 0) : Type 0 where
  pub datas : List (Option ℕ)
  pub heap : ℕ → FdCtx
  pub kernel : K

-- `FdCtx::setTimeout` and `FdCtx::getTimeout`.
unfoldable pub set_timeout : ℕ → ℕ → FdCtx → FdCtx
set_timeout type v c =
    if type == so_rcvtimeo then record c { recv_timeout = v } else record c { send_timeout = v }

unfoldable pub get_timeout : ℕ → FdCtx → ℕ
get_timeout type c = if type == so_rcvtimeo then c.recv_timeout else c.send_timeout

-- `m_datas.resize`: the new places are null.
pub nulls : ℕ → List (Option ℕ)
nulls zero = []
nulls (suc n) = none ∷ nulls n

pub resize : ℕ → List (Option ℕ) → List (Option ℕ)
unfolding nulls
resize size ds = if leb (length ds) size then ds ++ nulls (size - length ds) else take size ds

module _ (O : System) where
  open O use {State, fstat, get_flags, set_flags}

  abbrev pub FdManager : Type 0
  FdManager = Fds State

  -- `if(!(flags & O_NONBLOCK)) fcntl_f(m_fd, F_SETFL, flags | O_NONBLOCK);`
  pub make_nonblock : ℕ → State → State
  make_nonblock fd k =
      let flags = get_flags fd k in
      if bit_and flags o_nonblock == 0 then set_flags fd (bit_or flags o_nonblock) k else k

  -- `FdCtx::init`.
  pub init : FdCtx → State → Bool × FdCtx × State
  unfolding make_nonblock
  init c k =
      let found : Bool × Bool = elim (fstat c.fd k) [
        | none ↦ (false, false)
        | some sock ↦ (true, sock)
      ] in
      if c.is_init then (true, c, k) else (
        found.0,
        record c {
          is_init = found.0;
          is_socket = found.1;
          sys_nonblock = found.1;
          user_nonblock = false;
          is_closed = false;
          recv_timeout = u64_max;
          send_timeout = u64_max;
        },
        (if found.1 then make_nonblock c.fd k else k),
      )

  -- `FdCtx::FdCtx(fd)`.
  pub new_ctx : ℕ → State → FdCtx × State
  unfolding init
  new_ctx fd k =
      let blank : FdCtx = record {
        is_init = false;
        is_socket = false;
        sys_nonblock = false;
        user_nonblock = false;
        is_closed = false;
        fd = fd;
        recv_timeout = u64_max;
        send_timeout = u64_max;
      } in
      let (_, c, k') = init blank k in (c, k')

  -- `FdManager::FdManager`.
  pub new_fd_manager : (ℕ → FdCtx) → State → FdManager
  unfolding resize
  new_fd_manager heap k = record { datas = resize 64 []; heap = heap; kernel = k }

  -- The part of `FdManager::get` under the read lock: the pointer that it returns, or `none` if a
  -- context is to be made. The outer `none` is a negative index.
  unfoldable pub find : ℕ → Bool → FdManager → Option ℕ
  find fd auto_create m = elim (get_elem? m.datas fd) [
    | none ↦ if auto_create then none else some 0
    | some entry ↦ elim entry [ none ↦ if auto_create then none else some 0 | some p ↦ some p ]
  ]

  -- The part under the write lock; the allocator gives the address `p`.
  pub create : ℕ → ℕ → FdManager → Option (ℕ × FdManager)
  unfolding new_ctx resize
  create fd p m =
      let ctx = new_ctx fd m.kernel in
      let ds = if leb (length m.datas) fd then resize (fd * 3 / 2) m.datas else m.datas in
      if leb (length ds) fd
      then none
      else some (
        p,
        record {
          datas = set ds fd (some p);
          heap = λ q. if p == q then ctx.0 else m.heap q;
          kernel = ctx.1;
        },
      )

  -- `FdManager::get`, if no other thread comes between the two locks.
  pub get : ℤ → Bool → ℕ → FdManager → Option (ℕ × FdManager)
  unfolding find create
  get (negsuc zero) auto_create p m = some (0, m)
  get (negsuc (suc n)) auto_create p m = none
  get (pos fd) auto_create p m = elim (find fd auto_create m) [
    | none ↦ create fd p m
    | some q ↦ some (q, m)
  ]

  -- `FdManager::del`.
  pub del : ℤ → FdManager → Option FdManager
  del (negsuc n) m = none
  del (pos fd) m =
      some (if leb (length m.datas) fd then m else record m { datas = set m.datas fd none })
