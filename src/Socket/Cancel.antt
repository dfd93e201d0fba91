-- ===== src/Socket/Cancel.antt =====
-- The calls of a socket that wake a fiber which waits for its handle (src/socket.cc). The handle is
-- not negative.
use lt.Base.{ℕ, Bool, Option}
use lt.IoManager.Events.{read, write}
use lt.IoManager.{Epoll, Manager}
use lt.IoManager.Poll

module _ (E : Epoll) where
  pub cancel_read : ℕ → Manager E → Option (Bool × Manager E)
  cancel_read sock io = Poll.cancel_event E sock read io

  pub cancel_write : ℕ → Manager E → Option (Bool × Manager E)
  cancel_write sock io = Poll.cancel_event E sock write io

  pub cancel_accept : ℕ → Manager E → Option (Bool × Manager E)
  cancel_accept sock io = Poll.cancel_event E sock read io

  pub cancel_all : ℕ → Manager E → Option (Bool × Manager E)
  cancel_all sock io = Poll.cancel_all E sock io
