-- ===== src/Hook/Progress.antt =====
-- How the loop of `do_io` ends (src/hook.cc).
use lt.Base.{
  ℕ, zero, suc, ◌<◌, ◌≡◌, ◌≢◌, refl, sym, ap, ◌∙◌, true, false, inl, inr, if◌then◌else◌, if_true,
  if_false, arith, Bool-cases, negsuc, some,
}
use lt.IoManager.Events.{Event}
use lt.Callback.{null}
use lt.IoManager.{Epoll, Manager, add_event}
use lt.Hook.Wakes.{waits_in, Stops, wakes, times_out, is_refused}
use lt.Hook.Io.{
  eintr, eagain, Answer, is_error, Env, Outcome, returned, aborted, Waited, retry, give_up, failed,
  W, start_timer, wait_ready, do_io_loop,
}

module _ (E : Epoll) (N : Type 0) (v : Env E.State N) (self this_fiber tinfo fd : ℕ) (event : Event)
    (to : ℕ) where
  abbrev wait : W E N → Waited E.State N
  wait = wait_ready E N v self this_fiber tinfo fd event to

  abbrev loop : ℕ → W E N → Outcome E.State N
  loop = do_io_loop E N v self this_fiber tinfo fd event to

  abbrev answer : W E N → Answer
  answer w = (v.call w.net).0

  abbrev waiting : W E N → Manager E → W E N
  waiting = waits_in E N v self this_fiber tinfo fd event to

  abbrev asking : W E N → W E N
  asking w = record w { timers = start_timer E N v self this_fiber tinfo fd event to w }

  abbrev Stop : ℕ → W E N → W E N → Type 0
  Stop = Stops E N v self this_fiber tinfo fd event to

  abbrev called : W E N → W E N
  called w = record w { net = (v.call w.net).1 }

  -- How `do_io` ends after `k` rounds, by what its surroundings do. A round is a call that was
  -- interrupted, or one that would block after which the fiber waited and came back with `cancelled` at 0.
  -- Then a call gives another answer, or the wait after it is cancelled, or `addEvent` fails.
  pub data Answers : W E N → ℕ → Answer → W E N → Type 0 where
    at_once :
        {w : W E N} {a : Answer} {w' : W E N}
        → is_error eintr (answer w) ≡ false
        → is_error eagain (answer w) ≡ false
        → a ≡ answer w
        → w' ≡ called w
        → Answers w zero a w'
    interrupted :
        {w : W E N} {k : ℕ} {a : Answer} {w' : W E N}
        → is_error eintr (answer w) ≡ true
        → Answers (called w) k a w'
        → Answers w (suc k) a w'
    woken :
        {w : W E N} (io : Manager E) (w₂ : W E N) {k : ℕ} {a : Answer} {w' : W E N}
        → is_error eintr (answer w) ≡ false
        → is_error eagain (answer w) ≡ true
        → add_event E fd event null self this_fiber w.io ≡ some (true, io)
        → Stop (v.alloc (called w)) (v.away (waiting (called w) io)) w₂
        → w₂.cancelled ≡ 0
        → Answers w₂ k a w'
        → Answers w (suc k) a w'
    timed_out :
        {w : W E N} (io : Manager E) {a : Answer} (w' : W E N)
        → is_error eintr (answer w) ≡ false
        → is_error eagain (answer w) ≡ true
        → add_event E fd event null self this_fiber w.io ≡ some (true, io)
        → Stop (v.alloc (called w)) (v.away (waiting (called w) io)) w'
        → w'.cancelled ≢ 0
        → a ≡ record { result = negsuc 0; errno = w'.cancelled }
        → Answers w zero a w'
    refused :
        {w : W E N} (io : Manager E) {a : Answer} (w' : W E N)
        → is_error eintr (answer w) ≡ false
        → is_error eagain (answer w) ≡ true
        → add_event E fd event null self this_fiber w.io ≡ some (false, io)
        → Stop (v.alloc (called w)) (waiting (called w) io) w'
        → a ≡ record { result = negsuc 0; errno = v.ctl_errno (asking (called w)) }
        → Answers w zero a w'

  abbrev after_wait : ℕ → Waited E.State N → Outcome E.State N
  after_wait fuel failed = aborted
  after_wait fuel (give_up e w₂) = returned (record { result = negsuc 0; errno = e }) w₂
  after_wait fuel (retry w₂) = loop fuel w₂

  loop_step :
      (fuel : ℕ) (w : W E N)
      → loop (suc fuel) w ≡ (
          if is_error eintr (answer w)
          then loop fuel (called w)
          else if is_error eagain (answer w)
          then after_wait fuel (wait (called w))
          else returned (answer w) (called w))
  unfolding do_io_loop
  loop_step fuel w =
      ap
        (λ (o : Outcome E.State N).
          if is_error eintr (answer w)
          then loop fuel (called w)
          else if is_error eagain (answer w)
          then o
          else returned (answer w) (called w))
        (waits (wait (called w)))
    where
      waits :
          (x : Waited E.State N)
          → elim x [
            | failed ↦ aborted
            | give_up e w₂ ↦ returned (record { result = negsuc 0; errno = e }) w₂
            | retry w₂ ↦ loop fuel w₂
          ]
            ≡ after_wait fuel x
      waits failed = refl
      waits (give_up e w₂) = refl
      waits (retry w₂) = refl

  -- A call that is interrupted is made again, and so is one that would block, if `addEvent` takes the
  -- waiter and `cancelled` is 0 when the fiber is back. After `k` such rounds `do_io` returns, with at
  -- most `k + 1` calls: the answer of a call that is neither, -1 with the number in `cancelled` as the
  -- error where that is not 0, or -1 with the `errno` of an `addEvent` that failed.
  pub do_io-Answers :
      (fuel : ℕ) (w : W E N) (k : ℕ) (a : Answer) (w' : W E N)
      → Answers w k a w'
      → k < fuel
      → loop fuel w ≡ returned a w'
  do_io-Answers zero w k a w' d lt = absurd (omega arith)
  do_io-Answers (suc fuel) w k a w' (at_once p q ea ew) lt =
      loop_step fuel w ∙ (if_false _ _ _ p ∙ (if_false _ _ _ q ∙ cc (ea, ew)))
  do_io-Answers (suc fuel) w (suc k) a w' (interrupted p d) lt =
      loop_step fuel w ∙ (if_true _ _ _ p ∙ do_io-Answers fuel (called w) k a w' d (omega arith))
  do_io-Answers (suc fuel) w (suc k) a w' (woken io w₂ p q added stops z d) lt =
      loop_step fuel w
      ∙ (if_false _ _ _ p
          ∙ (if_true _ _ _ q
              ∙ (ap (after_wait fuel)
                    (wakes E N v self this_fiber tinfo fd event to (called w) io w₂ added stops z)
                  ∙ do_io-Answers fuel w₂ k a w' d (omega arith))))
  do_io-Answers (suc fuel) w k a w' (timed_out io w₂ p q added stops z ea) lt =
      loop_step fuel w
      ∙ (if_false _ _ _ p
          ∙ (if_true _ _ _ q
              ∙ (ap (after_wait fuel) (
                    times_out E N v self this_fiber tinfo fd event to (called w) io w₂ added stops
                      z)
                  ∙ ap (λ a. returned a w₂) (sym ea))))
  do_io-Answers (suc fuel) w k a w' (refused io w₂ p q added stops ea) lt =
      loop_step fuel w
      ∙ (if_false _ _ _ p
          ∙ (if_true _ _ _ q
              ∙ (ap (after_wait fuel) (
                    is_refused E N v self this_fiber tinfo fd event to (called w) io w₂ added stops)
                  ∙ ap (λ a. returned a w₂) (sym ea))))

  -- How a call can end.
  pub data Ended (a : Answer) (w' : W E N) : Type 0 where
    answered :
        (w : W E N)
        → a ≡ answer w
        → is_error eintr a ≡ false
        → is_error eagain a ≡ false
        → Ended a w'
    gave_up :
        (w : W E N) (e : ℕ)
        → wait w ≡ give_up e w'
        → a ≡ record { result = negsuc 0; errno = e }
        → Ended a w'

  wait-Ended :
      (fuel : ℕ) (w : W E N) (a : Answer) (w' : W E N) (x : Waited E.State N)
      → wait w ≡ x
      → ((w₂ : W E N) → loop fuel w₂ ≡ returned a w' → Ended a w')
      → after_wait fuel x ≡ returned a w'
      → Ended a w'
  wait-Ended fuel w a w' failed e ih h = cc
  wait-Ended fuel w a w' (give_up n w₂) e ih h =
      let same : w₂ ≡ w' = cc in
      let err : a ≡ record { result = negsuc 0; errno = n } = cc in
      gave_up w n (e ∙ ap (give_up n) same) err
  wait-Ended fuel w a w' (retry w₂) e ih h = ih w₂ h

  no_rounds : (w : W E N) (a : Answer) (w' : W E N) → loop zero w ≢ returned a w'
  unfolding do_io_loop
  no_rounds w a w' h = cc

  first : {a b : Answer} {w w' : W E N} → returned a w ≡ returned b w' → a ≡ b
  first h = cc

  -- Whatever the environment does, when `do_io` returns, its answer is that of a call that was neither
  -- interrupted nor would block, or -1 with the error of a wait that was given up.
  pub do_io-Ended :
      (fuel : ℕ) (w : W E N) (a : Answer) (w' : W E N) → loop fuel w ≡ returned a w' → Ended a w'
  do_io-Ended zero w a w' h = absurd (no_rounds w a w' h)
  do_io-Ended (suc fuel) w a w' h = elim (Bool-cases (is_error eintr (answer w))) [
    | inl p ↦
        do_io-Ended fuel (called w) a w' (sym (if_true _ _ _ p) ∙ (sym (loop_step fuel w) ∙ h))
    | inr p ↦ elim (Bool-cases (is_error eagain (answer w))) [
      | inl q ↦
          wait-Ended fuel (called w) a w' (wait (called w)) refl
            (λ w₂ k. do_io-Ended fuel w₂ a w' k)
            (sym (if_true _ _ _ q) ∙ (sym (if_false _ _ _ p) ∙ (sym (loop_step fuel w) ∙ h)))
      | inr q ↦
          let same : answer w ≡ a =
            first
              (sym (if_false _ _ _ q) ∙ (sym (if_false _ _ _ p) ∙ (sym (loop_step fuel w) ∙ h))) in
          answered w (sym same) (ap (is_error eintr) (sym same) ∙ p)
            (ap (is_error eagain) (sym same) ∙ q)
    ]
  ]
