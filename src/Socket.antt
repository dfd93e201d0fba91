-- ===== src/Socket.antt =====
-- src/socket.cc and include/socket.h. The calls under a socket, which are system calls or the hooks
-- that replace them, and the handle manager that it asks are the record `Net`. A handle is an `int`,
-- -1 for none. An address is its family and a number that names the rest; a call that takes a buffer or
-- a list of buffers gets it as a number.
pub mod Life
pub mod Cancel
pub mod Timeouts
pub mod Deadline
pub mod Tests
use lt.Base.{
  ℕ, zero, ◌+◌, ◌≡◌, Bool, true, false, not, ◌&&◌, ◌||◌, Option, none, some, ◌==◌, if◌then◌else◌, ℤ,
  pos, negsuc, u64_max,
}

pub record Address : Type 0 where
  pub family : ℕ
  pub name : ℕ
  -- `std::dynamic_pointer_cast<UnixAddress>` succeeds
  pub is_unix : Bool

-- AF_UNIX, AF_INET and AF_INET6; SOCK_STREAM and SOCK_DGRAM; the options of `initSock`.
abbrev pub af_unix : ℕ
af_unix = 1

abbrev pub af_inet : ℕ
af_inet = 2

abbrev pub af_inet6 : ℕ
af_inet6 = 10

abbrev pub sock_stream : ℕ
sock_stream = 1

abbrev pub sock_dgram : ℕ
sock_dgram = 2

abbrev pub so_reuseaddr : ℕ
so_reuseaddr = 2

abbrev pub ipproto_tcp : ℕ
ipproto_tcp = 6

abbrev pub tcp_nodelay : ℕ
tcp_nodelay = 1

-- The calls of `send`, `recv` and their kin.
pub data Transfer : Type 0 where
  send sendmsg sendto recv recvmsg recvfrom : Transfer

pub record Net : Type 1 where
  pub State : Type 0
  pub socket : ℕ → ℕ → ℕ → State → ℤ × State
  pub bind : ℤ → Address → State → Bool × State
  pub connect : ℤ → Address → State → Bool × State
  pub connect_with_timeout : ℤ → Address → ℕ → State → Bool × State
  pub listen : ℤ → ℕ → State → Bool × State
  pub accept : ℤ → State → ℤ × State
  pub close : ℤ → State → State
  -- `setsockopt` with the value 1
  pub set_option : ℤ → ℕ → ℕ → State → Bool × State
  pub getsockname : ℤ → State → Option Address
  pub getpeername : ℤ → State → Option Address
  pub transfer : Transfer → ℤ → ℕ → State → ℤ × State
  pub unlink : Address → State → State
  -- `ctx && ctx->isSocket() && !ctx->isClose()` of `FdMgr::get`
  pub is_known : ℤ → State → Bool

pub record Socket : Type 0 where
  pub sock : ℤ
  pub family : ℕ
  pub type : ℕ
  pub protocol : ℕ
  pub is_connected : Bool
  pub local_address : Option Address
  pub remote_address : Option Address

abbrev pub is_none : ℤ → Bool
is_none (pos n) = false
is_none (negsuc n) = n == 0

-- `Socket::isValid`.
abbrev pub is_valid : Socket → Bool
is_valid s = not (is_none s.sock)

-- `Socket::Socket(family, type, protocol)`, also `CreateTCP` and the like.
abbrev pub new_socket : ℕ → ℕ → ℕ → Socket
new_socket family type protocol = record {
  sock = negsuc 0;
  family = family;
  type = type;
  protocol = protocol;
  is_connected = false;
  local_address = none;
  remote_address = none;
}

-- `UnknownAddress(m_family)`.
abbrev pub unknown_address : ℕ → Address
unknown_address family = record { family = family; name = 0; is_unix = false }

module _ (N : Net) where
  open N use {State}

  -- `Socket::initSock`.
  unfoldable pub init_sock : Socket → State → State
  init_sock s k =
      let k₁ = (N.set_option s.sock 1 so_reuseaddr k).1 in
      if s.type == sock_stream then (N.set_option s.sock ipproto_tcp tcp_nodelay k₁).1 else k₁

  -- `Socket::newSock`.
  unfoldable pub new_sock : Socket → State → Socket × State
  unfolding init_sock
  new_sock s k =
      let (fd, k₁) = N.socket s.family s.type s.protocol k in
      let s₁ = record s { sock = fd } in (s₁, if is_none fd then k₁ else init_sock s₁ k₁)

  -- `CreateUDP` and `CreateUDPSocket`.
  unfoldable pub create_udp : ℕ → State → Socket × State
  unfolding new_sock
  create_udp family k =
      let (s, k₁) = new_sock (new_socket family sock_dgram 0) k in
      (record s { is_connected = true }, k₁)

  -- `getLocalAddress` and `getRemoteAddress`: what they store; an unknown address is not stored.
  unfoldable pub get_local_address : Socket → State → Address × Socket
  get_local_address s k = elim s.local_address [
    | some a ↦ (a, s)
    | none ↦ elim (N.getsockname s.sock k) [
      | none ↦ (unknown_address s.family, s)
      | some a ↦ (a, record s { local_address = some a })
    ]
  ]

  unfoldable pub get_remote_address : Socket → State → Address × Socket
  get_remote_address s k = elim s.remote_address [
    | some a ↦ (a, s)
    | none ↦ elim (N.getpeername s.sock k) [
      | none ↦ (unknown_address s.family, s)
      | some a ↦ (a, record s { remote_address = some a })
    ]
  ]

  -- `Socket::close`; the destructor calls it.
  unfoldable pub close : Socket → State → Bool × Socket × State
  close s k = if not s.is_connected && is_none s.sock then (true, s, k) else (
    false,
    record s { is_connected = false; sock = negsuc 0 },
    if is_none s.sock then k else N.close s.sock k,
  )

  -- `if(!isValid()) newSock();`
  unfoldable pub made_valid : Socket → State → Socket × State
  unfolding new_sock
  made_valid s k = if is_valid s then (s, k) else new_sock s k

  -- After the call of `connect`, which succeeded or not.
  unfoldable pub connect_ended : Bool → Socket → State → Bool × Socket × State
  unfolding close get_remote_address get_local_address
  connect_ended true s k =
      let s₁ = (get_remote_address (record s { is_connected = true }) k).1 in
      (true, (get_local_address s₁ k).1, k)
  connect_ended false s k = (false, (close s k).1, (close s k).2)

  -- The call of `connect` and what follows it.
  unfoldable pub connect_call : Address → ℕ → Socket → State → Bool × Socket × State
  unfolding connect_ended
  connect_call addr timeout_ms s k =
      let (ok, k₁) =
        if timeout_ms == u64_max
        then N.connect s.sock addr k
        else N.connect_with_timeout s.sock addr timeout_ms k in
      connect_ended ok s k₁

  -- `Socket::connect`.
  unfoldable pub connect : Address → ℕ → Socket → State → Bool × Socket × State
  unfolding made_valid connect_call
  connect addr timeout_ms s k =
      let (s₁, k₁) = made_valid (record s { remote_address = some addr }) k in
      if not (is_valid s₁)
      then (false, s₁, k₁)
      else if not (addr.family == s₁.family)
      then (false, s₁, k₁)
      else connect_call addr timeout_ms s₁ k₁

  -- `Socket::reconnect`.
  unfoldable pub reconnect : ℕ → Socket → State → Bool × Socket × State
  unfolding connect
  reconnect timeout_ms s k = elim s.remote_address [
    | none ↦ (false, s, k)
    | some addr ↦ connect addr timeout_ms (record s { local_address = none }) k
  ]

  -- In `bind`, for a Unix address: `true` if somebody listens there; else its file is removed. The
  -- socket that tries is destroyed.
  unfoldable pub probe_unix : Address → State → Bool × State
  unfolding connect close
  probe_unix addr k =
      let (listens, s, k₁) = connect addr u64_max (new_socket af_unix sock_stream 0) k in
      (listens, (close s (if listens then k₁ else N.unlink addr k₁)).2)

  -- `Socket::bind`.
  unfoldable pub bind : Address → Socket → State → Bool × Socket × State
  unfolding made_valid probe_unix get_local_address
  bind addr s k =
      let (s₁, k₁) = made_valid (record s { local_address = some addr }) k in
      let (taken, k₂) = if addr.is_unix then probe_unix addr k₁ else (false, k₁) in
      let (ok, k₃) = N.bind s₁.sock addr k₂ in
      if not (is_valid s₁)
      then (false, s₁, k₁)
      else if not (addr.family == s₁.family)
      then (false, s₁, k₁)
      else if taken
      then (false, s₁, k₂)
      else (ok, (if ok then (get_local_address s₁ k₃).1 else s₁), k₃)

  -- `Socket::listen`.
  unfoldable pub listen : ℕ → Socket → State → Bool × State
  listen backlog s k = if is_valid s then N.listen s.sock backlog k else (false, k)

  -- `Socket::init(sock)`: of a handle that `accept` returned.
  unfoldable pub init : ℤ → Socket → State → Bool × Socket × State
  unfolding init_sock get_local_address get_remote_address
  init fd s k =
      let s₁ = record s { sock = fd; is_connected = true } in
      let k₁ = init_sock s₁ k in
      let s₂ = (get_local_address s₁ k₁).1 in
      if N.is_known fd k then (true, (get_remote_address s₂ k₁).1, k₁) else (false, s, k)

  -- `Socket::accept`: `none` is null.
  unfoldable pub accept : Socket → State → Option Socket × State
  unfolding init
  accept s k =
      let (fd, k₁) = N.accept s.sock k in
      let (ok, c, k₂) = init fd (new_socket s.family s.type s.protocol) k₁ in
      if is_none fd then (none, k₁) else if ok then (some c, k₂) else (none, k₂)

  -- `send`, `sendTo`, `recv` and `recvFrom`, in all forms.
  unfoldable pub transfer : Transfer → ℕ → Socket → State → ℤ × State
  transfer t buffer s k = if s.is_connected then N.transfer t s.sock buffer k else (negsuc 0, k)
