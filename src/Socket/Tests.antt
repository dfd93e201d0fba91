-- ===== src/Socket/Tests.antt =====
-- Runs of sockets (src/socket.cc) on a small system that counts its handles.
use lt.Base.{
  ℕ, List, suc, ◌≡◌, refl, true, false, not, some, ◌==◌, if◌then◌else◌, arith, pos, negsuc, u64_max,
}
use lt.FdManager.Tests.{small}
use lt.Hook.Io.{Answer, read_f, io_call, do_io_loop}
use lt.Hook.Tests.{calls, handles, handles_managed, env, world, three_calls}
use lt.IoManager.Sample.{table}
use lt.Socket.{Address, Net, Socket, is_none, new_socket, connect, accept, af_inet, sock_stream}
use lt.IoManager.Events.{read}
use lt.Socket.Life.{Connected, answer, Accepted, connect-Connected, accept-Accepted}
use lt.Socket.Timeouts.{set_recv_timeout}
use lt.Socket.Deadline.{io_call-set_recv_timeout}

-- 127.0.0.1 at port 80, where somebody listens.
abbrev pub http : Address
http = record { family = af_inet; name = 80; is_unix = false }

-- 127.0.0.1 at port 0.
abbrev pub any_port : Address
any_port = record { family = af_inet; name = 0; is_unix = false }

-- The state is the next handle.
abbrev pub net : Net
net = record {
  State = ℕ;
  socket = λ family type protocol k. (pos k, suc k);
  bind = λ fd addr k. (true, k);
  connect = λ fd addr k. (addr.name == 80, k);
  connect_with_timeout = λ fd addr timeout_ms k. (addr.name == 80, k);
  listen = λ fd backlog k. (true, k);
  accept = λ fd k. (if is_none fd then (negsuc 0, k) else (pos k, suc k));
  close = λ fd k. k;
  set_option = λ fd level option k. (true, k);
  getsockname = λ fd k. some any_port;
  getpeername = λ fd k. some http;
  transfer = λ t fd buffer k. (pos 1, k);
  unlink = λ addr k. k;
  is_known = λ fd k. not (is_none fd);
}

abbrev pub fresh : Socket
fresh = new_socket af_inet sock_stream 0

abbrev pub linked : Socket
linked = record fresh { sock = pos 3; is_connected = true; remote_address = some http }

connects : (connect net http u64_max fresh 3).0 ≡ true
unfolding connect
connects = refl

connect_refused : (connect net any_port 500 fresh 3).0 ≡ false
unfolding connect
connect_refused = refl

connect-Connected_example :
    let r = connect net any_port 500 fresh 3 in
    Connected net any_port fresh r.1 r.0 × (r.0 ≡ answer net any_port 500 fresh 3)
connect-Connected_example = connect-Connected net any_port 500 fresh 3

accept-Accepted_example :
    let (fd, k) = net.accept linked.sock 4 in Accepted net linked fd k (accept net linked 4)
accept-Accepted_example = accept-Accepted net linked 4

io_call-set_recv_timeout_example :
    io_call table
      (List Answer)
      small
      (λ c. env)
      8
      4
      9
      read_f
      3
      (set_recv_timeout small calls 3 1500 handles)
      2
      (world three_calls)
    ≡ do_io_loop table
        (List Answer)
        env
        8
        4
        9
        3
        read
        1500
        2
        (record (world three_calls) { cancelled = 0 })
io_call-set_recv_timeout_example =
    io_call-set_recv_timeout table (List Answer) small calls (λ c. env) 8 4 9 read_f 3 1500 2
      handles (world three_calls) refl handles_managed refl (omega arith)
