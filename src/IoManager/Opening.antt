-- ===== src/IoManager/Opening.antt =====
-- How an I/O manager begins and ends (src/iomanager.cc, the constructor and the destructor).
use Prim.Native.Nat.{bit_or}
use mathlib.Core.Path.{subst}
use mathlib.Core.Option.{some-injective}
use lt.Base.{
  List, ◌∷◌, Bool-cases, inl, inr, ℕ, ◌+◌, ◌≡◌, refl, sym, ◌∙◌, Bool, ◌&&◌, [], Option, none, some,
  arith, ◌==◌, if◌then◌else◌, if_true, if_false,
}
use lt.IoManager.{FdContext, add, epollet, Epoll, Manager, context_resize}
use lt.IoManager.Events.{bits, read}
use lt.IoManager.Local.{total_weight}
use lt.IoManager.Weights.{Weight, known_weight, pending_weight, task_weight}
use lt.IoManager.Taking.{pending_weight-new_contexts}
use lt.IoManager.Growth.{longer-Inv}
use lt.IoManager.Sync.{Inv, none-some}

total_weight-nil : 0 ≡ total_weight []
unfolding total_weight
total_weight-nil = refl

module _ (E : Epoll) where
  open E use {State, epoll_ctl, registered, add_registers}

  -- The constructor, but for `start`: whether `epoll_create` gave a descriptor, the results of `pipe`
  -- and `fcntl`, the end of the pipe that is read, and the new `epoll`.
  unfoldable pub new_io_manager : Bool → ℕ → ℕ → ℕ → State → Option (Manager E)
  new_io_manager created pipe_rt fcntl_rt tickle_fd k =
      let r = epoll_ctl add tickle_fd (bit_or epollet (bits read)) k in
      if created && (pipe_rt == 0) && (fcntl_rt == 0) && (r.0 == 0)
      then some (record {
        contexts = context_resize 32 [];
        pending_event_count = 0;
        scheduled = [];
        epoll = r.1;
        tickle_fd = tickle_fd;
      })
      else none

  -- The destructor after `stop`: the handles that it closes, and the contexts that it deletes.
  unfoldable pub delete_io_manager : ℕ → ℕ → Manager E → List ℕ × List FdContext
  delete_io_manager epfd other_end m = (epfd ∷ m.tickle_fd ∷ other_end ∷ [], m.contexts)

  pub new_io_manager-Inv :
      (created : Bool) (pipe_rt fcntl_rt tickle_fd : ℕ) (k : State) (m : Manager E)
      → ((g : ℕ) → registered k g ≡ none)
      → new_io_manager created pipe_rt fcntl_rt tickle_fd k ≡ some m
      → Inv E m × ((w : Weight) → known_weight w m ≡ 0)
  unfolding new_io_manager context_resize task_weight
  new_io_manager-Inv created pipe_rt fcntl_rt tickle_fd k m empty e = elim (Bool-cases opened) [
    | inl ok ↦
        subst (λ m. Inv E m × ((w : Weight) → known_weight w m ≡ 0))
          (some-injective _ _ (sym (if_true opened _ _ ok) ∙ e))
          (longer-Inv E bare 32 (bare-Inv (ground (arith, ok))) (omega arith), no_weight)
    | inr failed ↦ absurd (none-some m (sym (if_false opened _ _ failed) ∙ e))
  ]
    where
      asked : ℕ × State
      asked = epoll_ctl add tickle_fd (bit_or epollet (bits read)) k

      opened : Bool
      opened = created && (pipe_rt == 0) && (fcntl_rt == 0) && (asked.0 == 0)

      no_weight : (w : Weight) → pending_weight w (context_resize 32 []) + task_weight w [] ≡ 0
      no_weight w = omega (arith, pending_weight-new_contexts w 0 32)

      bare : Manager E
      bare = record {
        contexts = [];
        pending_event_count = 0;
        scheduled = [];
        epoll = asked.1;
        tickle_fd = tickle_fd;
      }

      bare-Inv : asked.0 ≡ 0 → Inv E bare
      bare-Inv z = record {
        local = record { contexts = λ i c e. cc; counted = total_weight-nil; small = omega arith };
        sync = λ i c e ne. cc;
        outside = λ i le ne.
            add_registers tickle_fd _ k z i
            ∙ (if_false (tickle_fd == i) _ _ (ground (arith, ne)) ∙ empty i);
      }
