-- ===== src/IoManager/Stale.antt =====
-- A report of `epoll_wait` that another thread has overtaken (src/iomanager.cc, `idle`).
use Prim.Native.Nat.{bit_and, bit_or}
use lt.Base.{
  ℕ, ◌≡◌, ap, ◌∙◌, Bool, true, false, not, Option, none, some, arith, ◌==◌, get_elem?, if_false,
  ==_iff,
}
use lt.IoManager.Events.{read, write, has, clear, clear_lem}
use lt.IoManager.{FdContext, epollet, Epoll, Manager}
use lt.IoManager.Poll.{left_op, trigger, trigger_if, trigger_both, real_events, handle_event}
use lt.IoManager.Local.{Local}
use lt.IoManager.Sync.{Inv}
use lt.IoManager.Fired.{trigger_read, and_write}
use lt.IoManager.Watched.{real_events-IsMask}

module _ (E : Epoll) where
  open E use {State, epoll_ctl, registered}

  -- The call of `epoll_ctl` for a report, with the events that the code leaves.
  abbrev report_ctl : ℕ → FdContext → Manager E → ℕ × State
  report_ctl fired c m =
      let left = clear c.events (real_events fired c.events) in
      epoll_ctl (left_op left) c.fd (bit_or epollet left) m.epoll

  trigger_stale :
      (i : ℕ) (c : FdContext) (m : Manager E)
      → has c.events write ≡ false
      → trigger_if E true i write c m ≡ none
  unfolding trigger_if trigger
  trigger_stale i c m h = ground (arith, h)

  abbrev without_context : Option (FdContext × Manager E) → Option (Manager E)
  without_context none = none
  without_context (some (c', m')) = some m'

  both_stale :
      (i : ℕ) (c : FdContext) (m : Manager E)
      → Local m
      → get_elem? m.contexts i ≡ some c
      → has c.events read ≡ true
      → has c.events write ≡ false
      → trigger_both E true true i c m ≡ none
  unfolding trigger_both
  both_stale i c m l e r w =
      let (c', m', eq, d) = trigger_read E true i c m l e (λ _. r) in
      ap (and_write E true i) eq ∙ trigger_stale i c' m' (d.writing ∙ ground (arith, w))

  calls_stale :
      (a b : Bool) (k i : ℕ) (c : FdContext) (m : Manager E)
      → a ≡ true
      → b ≡ true
      → k ≡ i
      → Local m
      → get_elem? m.contexts i ≡ some c
      → has c.events read ≡ true
      → has c.events write ≡ false
      → trigger_both E a b k c m ≡ none
  calls_stale a b k i c m ea eb ek l e r w = rw (ea, eb, ek) (both_stale i c m l e r w)

  -- If a report says that a handle can be read and written, and another thread has meanwhile
  -- removed the WRITE event of its context, as `delEvent` and `cancelEvent` do, then once
  -- `epoll_ctl` succeeds on what is left the assertion of `triggerEvent` fails and the program aborts.
  pub handle_event_stale :
      (fired i : ℕ) (c : FdContext) (m : Manager E)
      → Inv E m
      → get_elem? m.contexts i ≡ some c
      → has c.events read ≡ true
      → has c.events write ≡ false
      → has (real_events fired c.events) read ≡ true
      → has (real_events fired c.events) write ≡ true
      → (report_ctl fired c m).0 ≡ 0
      → handle_event E fired c m ≡ none
  unfolding handle_event
  handle_event_stale fired i c m v e r w reads writes ok =
      let asked_local : Local (record m { epoll = (report_ctl fired c m).1 }) = record {
        contexts = v.local.contexts;
        counted = v.local.counted;
        small = v.local.small;
      } in
      let (_, _, _, zero) =
        clear_lem c.events (real_events fired c.events) (v.local.contexts i c e).mask
          (real_events-IsMask fired c.events) in
      if_false (bit_and c.events (real_events fired c.events) == 0) _ _
        (zero ∙ ground (arith, r, reads))
      ∙ (if_false (not ((report_ctl fired c m).0 == 0)) _ _
            (ap not ((==_iff (report_ctl fired c m).0 0).1 ok))
          ∙ ap without_context (
              calls_stale _ _ c.fd i c (record m { epoll = (report_ctl fired c m).1 }) reads writes
                (v.local.contexts i c e).own asked_local e r w))
