-- ===== src/TcpServer/OnSockets.antt =====
-- The sockets of the server (src/tcp_server.cc) made of the model of src/socket.cc: a heap of sockets,
-- each known by the number at which it was made, from 1 on. The addresses have numbers too; the calls
-- that set a timeout and that wake waiting fibers are parameters, and so is whether another
-- `shared_ptr` to a socket is left when one is dropped.
use lt.Base.{ℕ, suc, Bool, Option, none, some, ◌==◌, if◌then◌else◌, ℤ}
use lt.Socket.{Address, Net, Socket, new_socket, sock_stream}
use lt.Socket
use lt.TcpServer.{Sockets}

pub record World (K : Type 0) : Type 0 where
  pub net : K
  pub heap : ℕ → Socket
  -- the number of the next socket
  pub next : ℕ

abbrev pub put : {K : Type 0} → ℕ → Socket → K → World K → World K
put sock s k w = record w { net = k; heap = λ i. if sock == i then s else w.heap i }

-- What the parameters of the instance are.
pub record Calls (N : Net) : Type 0 where
  pub address : ℕ → Address
  pub backlog : ℕ
  pub set_recv_timeout : ℤ → ℕ → N.State → N.State
  pub cancel_all : ℤ → N.State → N.State
  pub is_shared : ℕ → World N.State → Bool

module _ (N : Net) (C : Calls N) where
  open N use {State}

  -- `Socket::CreateTCP(addr)`.
  unfoldable pub create_tcp : ℕ → World State → ℕ × World State
  create_tcp addr w =
      let s = new_socket (C.address addr).family sock_stream 0 in
      (w.next, record (put w.next s w.net w) { next = suc w.next })

  unfoldable pub bind_to : ℕ → ℕ → World State → Bool × World State
  bind_to sock addr w =
      let (ok, s, k) = Socket.bind N (C.address addr) (w.heap sock) w.net in (ok, put sock s k w)

  unfoldable pub listen : ℕ → World State → Bool × World State
  listen sock w =
      let (ok, k) = Socket.listen N C.backlog (w.heap sock) w.net in (ok, record w { net = k })

  -- The socket that `accept` made, or null.
  unfoldable pub enter : Option Socket → World State → ℕ × World State
  enter none w = (0, w)
  enter (some c) w = (w.next, record (put w.next c w.net w) { next = suc w.next })

  unfoldable pub accept : ℕ → World State → ℕ × World State
  unfolding enter
  accept sock w = let (c, k) = Socket.accept N (w.heap sock) w.net in enter c (record w { net = k })

  unfoldable pub close : ℕ → World State → World State
  close sock w = let (_, s, k) = Socket.close N (w.heap sock) w.net in put sock s k w

  -- A `shared_ptr` is dropped; the destructor closes the socket.
  unfoldable pub release : ℕ → World State → World State
  unfolding close
  release sock w = if C.is_shared sock w then w else close sock w

  abbrev pub on_sockets : Sockets
  on_sockets = record {
    State = World State;
    create_tcp = create_tcp;
    bind_to = bind_to;
    listen = listen;
    accept = accept;
    set_recv_timeout = λ sock v w. record w { net = C.set_recv_timeout (w.heap sock).sock v w.net };
    cancel_all = λ sock w. record w { net = C.cancel_all (w.heap sock).sock w.net };
    close = close;
    release = release;
  }
