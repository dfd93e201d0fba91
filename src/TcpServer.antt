-- ===== src/TcpServer.antt =====
-- src/tcp_server.cc and include/tcp_server.h: a server that listens on several addresses. Its sockets
-- (src/socket.cc) are a parameter, an interface of what the server calls; a socket and an address are
-- known by number, 0 is the null pointer. The tasks that the server hands to its two I/O managers are
-- listed in order.
pub mod Opening
pub mod Binding
pub mod Running
pub mod OnSockets
pub mod Clients
pub mod Tests
use lt.Base.{
  ℕ, ◌≡◌, Bool, true, false, not, List, [], ◌∷◌, ◌++◌, map, Option, none, some, ◌==◌, if◌then◌else◌,
  is_empty,
}

pub record Sockets : Type 1 where
  pub State : Type 0
  -- `Socket::CreateTCP(addr)`
  pub create_tcp : ℕ → State → ℕ × State
  -- `sock->bind(addr)` and `sock->listen()`
  pub bind_to : ℕ → ℕ → State → Bool × State
  pub listen : ℕ → State → Bool × State
  pub accept : ℕ → State → ℕ × State
  pub set_recv_timeout : ℕ → ℕ → State → State
  pub cancel_all : ℕ → State → State
  pub close : ℕ → State → State
  -- a `shared_ptr` to the socket is dropped, with the last of them the socket
  pub release : ℕ → State → State

pub data Task : Type 0 where
  -- `std::bind(&TcpServer::startAccept, shared_from_this(), sock)`
  start_accept : (sock : ℕ) → Task
  -- `std::bind(&TcpServer::handleClient, shared_from_this(), client)`
  handle_client : (client : ℕ) → Task
  -- the closure of `stop`
  close_all : Task

pub record Server (K : Type 0) : Type 0 where
  pub socks : List ℕ
  pub recv_timeout : ℕ
  pub is_stop : Bool
  pub io_tasks : List Task
  pub accept_tasks : List Task
  pub net : K

module _ (N : Sockets) where
  open N use {State}

  abbrev pub TcpServer : Type 0
  TcpServer = Server State

  -- One round of the loop of `bind`: create, bind, listen. The flag says that both succeeded.
  pub try_bind : ℕ → State → Bool × ℕ × State
  try_bind addr k =
      let (sock, k₁) = N.create_tcp addr k in
      let (bound, k₂) = N.bind_to sock addr k₁ in
      let (listens, k₃) = N.listen sock k₂ in
      if not bound
      then (false, sock, N.release sock k₂)
      else if not listens
      then (false, sock, N.release sock k₃)
      else (true, sock, k₃)

  -- `m_socks.clear()`.
  pub release_all : List ℕ → State → State
  release_all [] k = k
  release_all (sock ∷ socks) k = release_all socks (N.release sock k)

  pub bind_loop : List ℕ → List ℕ → TcpServer → List ℕ × TcpServer
  unfolding try_bind
  bind_loop [] fails m = (fails, m)
  bind_loop (addr ∷ addrs) fails m =
      let (ok, sock, k) = try_bind addr m.net in
      bind_loop addrs (if ok then fails else fails ++ addr ∷ [])
        (record m { socks = if ok then m.socks ++ sock ∷ [] else m.socks; net = k })

  -- `TcpServer::bind(addrs, fails)`: the result, what `fails` holds afterwards, and the server.
  pub bind : List ℕ → List ℕ → TcpServer → Bool × List ℕ × TcpServer
  unfolding bind_loop release_all
  bind addrs fails m =
      let (fails', m') = bind_loop addrs fails m in
      if is_empty fails'
      then (true, fails', m')
      else (false, fails', record m' { socks = []; net = release_all m'.socks m'.net })

  -- `TcpServer::bind(addr)`.
  pub bind_one : ℕ → TcpServer → Bool × TcpServer
  unfolding bind
  bind_one addr m = let (ok, _, m') = bind (addr ∷ []) [] m in (ok, m')

  -- `TcpServer::start`.
  pub start : TcpServer → Bool × TcpServer
  start m = if not m.is_stop then (true, m) else (
    true,
    record m { is_stop = false; accept_tasks = m.accept_tasks ++ map start_accept m.socks },
  )

  -- One round of `TcpServer::startAccept`: `none` if the loop ends.
  unfoldable pub accept_round : ℕ → TcpServer → Option TcpServer
  accept_round sock m =
      let (client, k) = N.accept sock m.net in
      if m.is_stop
      then none
      else if client == 0
      then some (record m { net = k })
      else some (record m {
        net = N.set_recv_timeout client m.recv_timeout k;
        io_tasks = m.io_tasks ++ handle_client client ∷ [];
      })

  -- `TcpServer::stop`.
  pub stop : TcpServer → TcpServer
  stop m = record m { is_stop = true; accept_tasks = m.accept_tasks ++ close_all ∷ [] }

  -- The closure that `stop` schedules.
  pub close_socks : List ℕ → State → State
  close_socks [] k = k
  close_socks (sock ∷ socks) k = close_socks socks (N.close sock (N.cancel_all sock k))

  pub run_close_all : TcpServer → TcpServer
  unfolding close_socks release_all
  run_close_all m = record m { socks = []; net = release_all m.socks (close_socks m.socks m.net) }
