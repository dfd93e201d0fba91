-- ===== src/Thread.antt =====
-- src/thread.cc and include/thread.h: a thread that is made with a callback. Its constructor waits on a
-- semaphore (src/mutex.cc) until the new thread, in `run`, has read all it needs of the object. The two
-- run in steps, each an access to the object or a call; callbacks, thread numbers and names are numbers
-- and lists. Calls of pthread succeed, but for `pthread_create`, which may fail. The assignment to
-- `t_thread`, a variable of the new thread, and `pthread_setname_np`, which reads the name before the
-- callback is swapped, are no steps.
pub mod Handover
pub mod Names
pub mod Tests
use lt.Base.{
  ℕ, zero, suc, ◌≡◌, Bool, true, false, List, [], ◌∷◌, Option, none, some, if◌then◌else◌, is_empty,
}

-- Where the one that makes the object stands: in the constructor before `pthread_create` and in
-- `wait`, after them, and after the destructor; `refused` is the exception.
pub data Owner : Type 0 where
  creating waiting owning refused gone : Owner

-- Where the new thread stands in `run`: not made, and before each of its accesses; then in `cb()`, and
-- after it.
pub data Runner : Type 0 where
  unborn naming identifying swapping notifying calling running finished : Runner

-- `m_thread` as a flag; `m_id` with `none` for -1; the semaphore's count; of the new thread its name
-- and its variable `cb`; and the callbacks that were called.
pub record Thread : Type 0 where
  pub owner : Owner
  pub runner : Runner
  pub thread : Bool
  pub id : Option ℕ
  pub cb : Option ℕ
  pub name : List ℕ
  pub semaphore : ℕ
  pub thread_name : List ℕ
  pub own_cb : Option ℕ
  pub called : List ℕ

-- "UNKNOW"
abbrev pub unknow : List ℕ
unknow = 85 ∷ 78 ∷ 75 ∷ 78 ∷ 79 ∷ 87 ∷ []

-- The object before `pthread_create`.
abbrev pub new_thread : ℕ → List ℕ → Thread
new_thread cb name = record {
  owner = creating;
  runner = unborn;
  thread = false;
  id = none;
  cb = some cb;
  name = if is_empty name then unknow else name;
  semaphore = 0;
  thread_name = unknow;
  own_cb = none;
  called = [];
}

pub data Step (tid : ℕ) (s : Thread) : Thread → Type 0 where
  -- `pthread_create`
  creates :
      s.owner ≡ creating → Step tid s (record s { owner = waiting; runner = naming; thread = true })
  refuses : s.owner ≡ creating → Step tid s (record s { owner = refused })
  -- `m_semaphore.wait()`, which returns when the count is not 0
  waits :
      (n : ℕ)
      → s.owner ≡ waiting
      → s.semaphore ≡ suc n
      → Step tid s (record s { owner = owning; semaphore = n })
  -- `join`: `pthread_join` returns when `run` has
  joins :
      s.owner ≡ owning
      → s.thread ≡ true
      → s.runner ≡ finished
      → Step tid s (record s { thread = false })
  -- the destructor, which detaches a thread that was not joined
  destroys : s.owner ≡ owning → Step tid s (record s { owner = gone })
  -- `t_thread_name = thread->m_name`
  names : s.runner ≡ naming → Step tid s (record s { runner = identifying; thread_name = s.name })
  -- `thread->m_id = GetThreadId()`
  identifies : s.runner ≡ identifying → Step tid s (record s { runner = swapping; id = some tid })
  -- `cb.swap(thread->m_cb)`
  swaps :
      s.runner ≡ swapping
      → Step tid s (record s { runner = notifying; own_cb = s.cb; cb = s.own_cb })
  -- `thread->m_semaphore.notify()`
  notifies :
      s.runner ≡ notifying → Step tid s (record s { runner = calling; semaphore = suc s.semaphore })
  -- `cb()`
  calls :
      (f : ℕ)
      → s.runner ≡ calling
      → s.own_cb ≡ some f
      → Step tid s (record s { runner = running; called = f ∷ s.called })
  returns : s.runner ≡ running → Step tid s (record s { runner = finished })

pub data Reach (tid : ℕ) (start : Thread) : Thread → Type 0 where
  begin : Reach tid start start
  later : {s t : Thread} → Reach tid start s → Step tid s t → Reach tid start t
