-- ===== src/TcpServer/Clients.antt =====
-- The clients that a server on sockets hands to its workers (src/tcp_server.cc, src/socket.cc).
use mathlib.Core.Path.{subst}
use lt.Base.{
  ℕ, ◌<◌, ◌≡◌, refl, ap, ◌∙◌, true, false, not, [], ◌∷◌, ◌++◌, Option, none, some, ◌==◌,
  if◌then◌else◌, if_true, if_false, All, All-append, All-map, arith, Bool-cases, inl, inr, ℤ,
}
use lt.Socket.{Net, Socket, is_valid, is_none}
use lt.Socket
use lt.Socket.Life.{Accepted, client, no_handle, leaked, accept-Accepted}
use lt.TcpServer.{Task, start_accept, handle_client, close_all, Server, TcpServer, accept_round}
use lt.TcpServer.OnSockets.{World, Calls, enter, accept, on_sockets}

module _ (N : Net) (C : Calls N) where
  -- A client in a task is a socket that was made, has a handle and is connected.
  pub IsReady : World N.State → Task → Type 0
  IsReady w (start_accept sock) = Unit
  IsReady w (handle_client c) =
      (c < w.next) × (is_valid (w.heap c) ≡ true) × ((w.heap c).is_connected ≡ true)
  IsReady w close_all = Unit

  -- A new socket leaves the others as they are.
  IsReady-entered :
      (w : World N.State) (k : N.State) (c : Socket) (t : Task)
      → IsReady w t
      → IsReady (enter N C (some c) (record w { net = k })).1 t
  unfolding IsReady enter
  IsReady-entered w k c (start_accept sock) r = tt
  IsReady-entered w k c (handle_client i) (lt, v, b) =
      rw (if_false (w.next == i) c (w.heap i) (ground arith)) (omega arith, v, b)
  IsReady-entered w k c close_all r = tt

  IsReady-net :
      (w : World N.State) (k : N.State) (t : Task) → IsReady w t → IsReady (record w { net = k }) t
  unfolding IsReady
  IsReady-net w k (start_accept sock) r = tt
  IsReady-net w k (handle_client i) r = r
  IsReady-net w k close_all r = tt

  unfoldable pub IsServed : Server (World N.State) → Type 0
  IsServed m = All (IsReady m.net) m.io_tasks

  Accepted-client :
      (s : Socket) (fd : ℤ) (k : N.State) (r : Option Socket × N.State) (c : Socket)
      → Accepted N s fd k r
      → r.0 ≡ some c
      → (is_valid c ≡ true) × (c.is_connected ≡ true)
  Accepted-client s fd k r c (client c' k' n m e v f t) h =
      let same : c' ≡ c = cc in
      subst (λ x. (is_valid x ≡ true) × (x.is_connected ≡ true)) same
        (ap (λ x. not (is_none x)) e ∙ ap not n, v)
  Accepted-client s fd k r c (no_handle n) h = cc
  Accepted-client s fd k r c (leaked n m) h = cc

  -- The tasks with the new client.
  entered :
      (m : TcpServer (on_sockets N C)) (k : N.State) (c : Socket)
      → IsServed m
      → (is_valid c ≡ true) × (c.is_connected ≡ true)
      → let w = (enter N C (some c) (record m.net { net = k })).1 in
        All (IsReady w) m.io_tasks × IsReady w (handle_client m.net.next)
  unfolding IsServed IsReady enter
  entered m k c served new = (
    All-map (IsReady m.net) _ (IsReady-entered m.net k c) m.io_tasks served,
    rw (if_true (m.net.next == m.net.next) c (m.net.heap m.net.next) (ground arith))
        (omega arith, new.0, new.1),
  )

  -- A round, from the answer of `accept` on.
  answered :
      Option Socket × N.State → TcpServer (on_sockets N C) → Option (TcpServer (on_sockets N C))
  answered r m =
      let (c, w) = enter N C r.0 (record m.net { net = r.1 }) in
      if m.is_stop
      then none
      else if c == 0
      then some (record m { net = w })
      else some (record m {
        net = record w { net = C.set_recv_timeout (w.heap c).sock m.recv_timeout w.net };
        io_tasks = m.io_tasks ++ handle_client c ∷ [];
      })

  Served : Option (TcpServer (on_sockets N C)) → Type 0
  Served o = (m' : TcpServer (on_sockets N C)) × (o ≡ some m') × IsServed m'

  answered-Served :
      (r : Option Socket × N.State) (m : TcpServer (on_sockets N C))
      → ((c : Socket) → r.0 ≡ some c → (is_valid c ≡ true) × (c.is_connected ≡ true))
      → IsServed m
      → m.is_stop ≡ false
      → Served (answered r m)
  unfolding answered enter IsServed Served
  answered-Served (none, k) m new served h = (
    record m { net = record m.net { net = k } },
    if_false m.is_stop _ _ h,
    All-map (IsReady m.net) _ (IsReady-net m.net k) m.io_tasks served,
  )
  answered-Served (some c, k) m new served h =
      let w = (enter N C (some c) (record m.net { net = k })).1 in
      let (old, one) = entered m k c served (new c refl) in
      elim (Bool-cases (m.net.next == 0)) [
        | inl z ↦
            (record m { net = w }, if_false m.is_stop _ _ h ∙ if_true (m.net.next == 0) _ _ z, old)
        | inr z ↦ (
          _,
          if_false m.is_stop _ _ h ∙ if_false (m.net.next == 0) _ _ z,
          All-append _ m.io_tasks (handle_client m.net.next ∷ [])
              (All-map (IsReady w) _ (IsReady-net w _) m.io_tasks old)
              (IsReady-net w _ (handle_client m.net.next) one, tt),
        )
      ]

  -- A round of `startAccept` on a server that is not stopped goes on, and keeps it so that each client
  -- that was handed to the workers is a connected socket with a handle, whatever the system does.
  pub accept_round-IsServed :
      (sock : ℕ) (m : TcpServer (on_sockets N C))
      → IsServed m
      → m.is_stop ≡ false
      → (m' : TcpServer (on_sockets N C)) × (accept_round (on_sockets N C) sock m ≡ some m')
        × IsServed m'
  unfolding accept_round accept answered Served
  accept_round-IsServed sock m served h =
      let s = m.net.heap sock in
      let r = Socket.accept N s m.net.net in
      let (fd, k) = N.accept s.sock m.net.net in
      answered-Served r m (λ c h. Accepted-client s fd k r c (accept-Accepted N s m.net.net) h)
        served h
