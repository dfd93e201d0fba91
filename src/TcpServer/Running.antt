-- ===== src/TcpServer/Running.antt =====
-- `start`, `stop` and the accept loop (src/tcp_server.cc).
use lt.Base.{ℕ, ◌≡◌, ◌≢◌, refl, true, false, [], ◌++◌, map, none, arith}
use lt.TcpServer.{Sockets, start_accept, TcpServer, start, accept_round, stop, run_close_all}

module _ (N : Sockets) where
  -- A stopped server that is started schedules one accept loop for each of its sockets, a second
  -- `start` changes nothing, and after `stop` every accept loop ends at its next round, whatever the
  -- network answers. The task that `stop` schedules leaves the server without sockets, and stopped.
  pub start-stop :
      (m : TcpServer N) (sock : ℕ)
      → m.is_stop ≡ true
      → let m' = (start N m).1 in
        (m'.accept_tasks ≡ m.accept_tasks ++ map start_accept m.socks)
        × (m'.is_stop ≡ false)
        × ((start N m').1 ≡ m')
        × (accept_round N sock m' ≢ none)
        × (accept_round N sock (stop N m') ≡ none)
        × ((run_close_all N (stop N m')).socks ≡ [])
        × ((run_close_all N (stop N m')).is_stop ≡ true)
  unfolding start accept_round stop run_close_all
  start-stop m sock e = rw e (refl, refl, refl, (λ h. ground arith), refl, refl, refl)

  -- If the server is started again before the task of the last `stop` has run, that task closes the
  -- sockets of the running server: it counts as started but listens nowhere.
  pub restart_loses :
      (m : TcpServer N)
      → let m' = run_close_all N (start N (stop N m)).1 in
        (m'.is_stop ≡ false) × (m'.socks ≡ []) × ((start N m').1 ≡ m')
  unfolding start stop run_close_all
  restart_loses m = (refl, refl, refl)
