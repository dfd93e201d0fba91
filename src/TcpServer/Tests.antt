-- ===== src/TcpServer/Tests.antt =====
-- Runs of the server (src/tcp_server.cc) on a network where address 9 is taken.
use lt.Base.{ℕ, some, ◌+◌, ◌≡◌, refl, true, false, not, [], ◌∷◌, ◌==◌}
use lt.TcpServer.{Sockets, TcpServer, try_bind, bind_loop, bind, accept_round}
use lt.TcpServer.OnSockets.{Calls, on_sockets}
use lt.TcpServer.Clients.{IsServed, accept_round-IsServed}
use lt.Socket.Tests.{http, net, linked}

-- The state counts the sockets that were made.
abbrev network : Sockets
network = record {
  State = ℕ;
  create_tcp = λ addr k. (k + 1, k + 1);
  bind_to = λ sock addr k. (not (addr == 9), k);
  listen = λ sock k. (true, k);
  accept = λ sock k. (k + 1, k + 1);
  set_recv_timeout = λ client v k. k;
  cancel_all = λ sock k. k;
  close = λ sock k. k;
  release = λ sock k. k;
}

abbrev new_server : TcpServer network
new_server = record {
  socks = [];
  recv_timeout = 120000;
  is_stop = true;
  io_tasks = [];
  accept_tasks = [];
  net = 0;
}

abbrev bound : TcpServer network
bound = record new_server { socks = 1 ∷ 2 ∷ []; net = 2 }

both_bound : bind network (7 ∷ 8 ∷ []) [] new_server ≡ (true, [], bound)
unfolding bind bind_loop try_bind
both_bound = refl

one_fails : (bind network (7 ∷ 9 ∷ 8 ∷ []) [] bound).1 ≡ 9 ∷ []
unfolding bind bind_loop try_bind
one_fails = refl

abbrev on_net : Calls net
on_net = record {
  address = λ a. http;
  backlog = 4096;
  set_recv_timeout = λ fd v k. k;
  cancel_all = λ fd k. k;
  is_shared = λ sock w. false;
}

-- A server that runs on one socket, with number 1.
abbrev running : TcpServer (on_sockets net on_net)
running = record {
  socks = 1 ∷ [];
  recv_timeout = 120000;
  is_stop = false;
  io_tasks = [];
  accept_tasks = [];
  net = record { net = 4; heap = λ _. linked; next = 2 };
}

running-IsServed : IsServed net on_net running
unfolding IsServed
running-IsServed = tt

accept_round-IsServed_example :
    (m' : TcpServer (on_sockets net on_net)) × (accept_round (on_sockets net on_net) 1 running
      ≡ some m')
    × IsServed net on_net m'
accept_round-IsServed_example = accept_round-IsServed net on_net 1 running running-IsServed refl
