-- ===== src/TcpServer/Opening.antt =====
-- The constructor and the destructor of a server (src/tcp_server.cc).
use lt.Base.{ℕ, ℤ, pos, negsuc, ◌-◌, ◌^◌, true, List, [], ◌∷◌, Option, none, some}
use lt.JsonConfig.{Text, Json, Result, text, thrown, JsonManger, get_val}
use lt.TcpServer.{Sockets, TcpServer, release_all}

-- What a server is set up with: `m_recvTimeout`, `m_name` and `m_type`.
pub record Settings : Type 0 where
  pub recv_timeout : ℕ
  pub name : Text
  pub type : Text

-- An `int` assigned to a `uint64_t`.
abbrev pub to_uint64 : ℤ → ℕ
to_uint64 (pos n) = n
to_uint64 (negsuc n) = 2 ^ 64 - 1 - n

-- "../conf/g_Config.json", "TcpServer", "recvTimeout", "120000", "name", "Lt/1.0", "type", "tcp"
pub record Words : Type 0 where
  pub root : Text
  pub tcp_server : Text
  pub recv_timeout : Text
  pub default_timeout : Text
  pub name : Text
  pub default_name : Text
  pub type : Text
  pub default_type : Text

abbrev and_then : {A : Type 0} → Result → (Text → Option A) → Option A
and_then thrown f = none
and_then (text s) f = f s

abbrev and_number : Option ℤ → (ℕ → Option Settings) → Option Settings
and_number none f = none
and_number (some n) f = f (to_uint64 n)

-- The configuration that `TcpServer::TcpServer` reads. `none` is an exception, of the JSON library or of
-- `stoi`.
unfoldable pub settings :
    (J : Json) → (Text → Text) → (Text → Option ℤ) → Words → JsonManger J → Option Settings
settings J read stoi w m =
    and_then (get_val J read w.root w.tcp_server w.recv_timeout w.default_timeout m) (λ timeout.
      and_then (get_val J read w.root w.tcp_server w.name w.default_name m) (λ name.
        and_then (get_val J read w.root w.tcp_server w.type w.default_type m) (λ type.
          and_number (stoi timeout)
            (λ n. some (record { recv_timeout = n; name = name; type = type })))))

module _ (N : Sockets) where
  open N use {State}

  -- `TcpServer::TcpServer`, with what it has read.
  unfoldable pub new_server : Settings → State → TcpServer N
  new_server s k = record {
    socks = [];
    recv_timeout = s.recv_timeout;
    is_stop = true;
    io_tasks = [];
    accept_tasks = [];
    net = k;
  }

  -- `TcpServer::~TcpServer`.
  unfoldable pub close_each : List ℕ → State → State
  close_each [] k = k
  close_each (sock ∷ socks) k = close_each socks (N.close sock k)

  unfoldable pub delete_server : TcpServer N → State
  unfolding close_each
  delete_server m = release_all N m.socks (close_each m.socks m.net)
