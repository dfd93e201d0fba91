-- ===== src/Thread/Handover.antt =====
-- The handover between the constructor of a thread and `run` (src/thread.cc).
use mathlib.Core.Path.{subst}
use lt.Base.{
  ℕ, suc, ◌≡◌, ◌≢◌, refl, sym, ap, ap₂, ◌∙◌, Bool, true, false, List, [], ◌∷◌, none, some, arith,
  ◌⊎◌, inl, inr, Bool-cases,
}
use lt.Thread.{
  Owner, creating, waiting, owning, refused, gone, Runner, unborn, naming, identifying, swapping,
  notifying, calling, running, finished, Thread, new_thread, Step, creates, refuses, waits, joins,
  destroys, names, identifies, swaps, notifies, calls, returns, Reach, begin, later,
}

-- Whether `run` still uses the object.
pub uses_object : Runner → Bool
uses_object unborn = true
uses_object naming = true
uses_object identifying = true
uses_object swapping = true
uses_object notifying = true
uses_object calling = false
uses_object running = false
uses_object finished = false

-- Whether the constructor has returned.
pub is_made : Owner → Bool
is_made creating = false
is_made waiting = false
is_made refused = false
is_made owning = true
is_made gone = true

-- What the object and the new thread hold, by where `run` stands; `f` is the callback.
pub Holds : ℕ → ℕ → Thread → Runner → Type 0
Holds tid f s unborn = (s.cb ≡ some f) × (s.own_cb ≡ none) × (s.called ≡ [])
Holds tid f s naming = (s.cb ≡ some f) × (s.own_cb ≡ none) × (s.called ≡ [])
Holds tid f s identifying = (s.cb ≡ some f) × (s.own_cb ≡ none) × (s.called ≡ [])
Holds tid f s swapping = (s.cb ≡ some f) × (s.own_cb ≡ none) × (s.called ≡ []) × (s.id ≡ some tid)
Holds tid f s notifying = (s.cb ≡ none) × (s.own_cb ≡ some f) × (s.called ≡ []) × (s.id ≡ some tid)
Holds tid f s calling = (s.cb ≡ none) × (s.own_cb ≡ some f) × (s.called ≡ []) × (s.id ≡ some tid)
Holds tid f s running = (s.cb ≡ none) × (s.called ≡ f ∷ []) × (s.id ≡ some tid)
Holds tid f s finished = (s.cb ≡ none) × (s.called ≡ f ∷ []) × (s.id ≡ some tid)

pub record Inv (tid f : ℕ) (s : Thread) : Type 0 where
  pub fresh : s.owner ≡ creating → s.runner ≡ unborn
  pub hidden : uses_object s.runner ≡ true → (s.semaphore ≡ 0) × (is_made s.owner ≡ false)
  pub holds : Holds tid f s s.runner
  pub born : s.owner ≡ waiting → s.runner ≢ unborn
  pub posted : s.owner ≡ waiting → uses_object s.runner ≡ false → s.semaphore ≡ 1

-- The fields that `Holds` reads.
Holds-same :
    (tid f : ℕ) (s t : Thread) (r : Runner)
    → (s.cb ≡ t.cb) × (s.own_cb ≡ t.own_cb) × (s.called ≡ t.called) × (s.id ≡ t.id)
    → Holds tid f s r
    → Holds tid f t r
unfolding Holds
Holds-same tid f s t unborn (a, b, c, d) (x, y, z) = (cc, cc, cc)
Holds-same tid f s t naming (a, b, c, d) (x, y, z) = (cc, cc, cc)
Holds-same tid f s t identifying (a, b, c, d) (x, y, z) = (cc, cc, cc)
Holds-same tid f s t swapping (a, b, c, d) (x, y, z, w) = (cc, cc, cc, cc)
Holds-same tid f s t notifying (a, b, c, d) (x, y, z, w) = (cc, cc, cc, cc)
Holds-same tid f s t calling (a, b, c, d) (x, y, z, w) = (cc, cc, cc, cc)
Holds-same tid f s t running (a, b, c, d) (x, y, z) = (cc, cc, cc)
Holds-same tid f s t finished (a, b, c, d) (x, y, z) = (cc, cc, cc)

true-false : true ≢ false
true-false e = cc

Step-Inv : (tid f : ℕ) (s t : Thread) → Inv tid f s → Step tid s t → Inv tid f t
unfolding Holds uses_object is_made
Step-Inv tid f s t v (creates o) =
    let u = v.fresh o in
    record {
      fresh = λ e. cc;
      hidden = λ _. ((v.hidden (ap uses_object u)).0, refl);
      holds = subst (Holds tid f s) u v.holds;
      born = λ _ e. cc;
      posted = λ _ e. cc;
    }
Step-Inv tid f s t v (refuses o) = record {
  fresh = λ e. cc;
  hidden = λ u. ((v.hidden u).0, refl);
  holds =
      Holds-same tid f s (record s { owner = refused }) s.runner (refl, refl, refl, refl) v.holds;
  born = λ e. cc;
  posted = λ e. cc;
}
Step-Inv tid f s t v (waits n o e) = record {
  fresh = λ e. cc;
  hidden = λ u. let (z, m) = v.hidden u in absurd (omega arith);
  holds =
      Holds-same tid f s (record s { owner = owning; semaphore = n }) s.runner
        (refl, refl, refl, refl) v.holds;
  born = λ e. cc;
  posted = λ e. cc;
}
Step-Inv tid f s t v (joins o h r) = record {
  fresh = v.fresh;
  hidden = v.hidden;
  holds =
      Holds-same tid f s (record s { thread = false }) s.runner (refl, refl, refl, refl) v.holds;
  born = v.born;
  posted = v.posted;
}
Step-Inv tid f s t v (destroys o) = record {
  fresh = λ e. cc;
  hidden =
      λ u. let (z, m) = v.hidden u in let made = ap is_made o in absurd (true-false (sym made ∙ m));
  holds = Holds-same tid f s (record s { owner = gone }) s.runner (refl, refl, refl, refl) v.holds;
  born = λ e. cc;
  posted = λ e. cc;
}
Step-Inv tid f s t v (names r) = record {
  fresh = λ e. let u = v.fresh e in cc;
  hidden = λ _. v.hidden (ap uses_object r);
  holds = subst (Holds tid f s) r v.holds;
  born = λ _ e. cc;
  posted = λ _ e. cc;
}
Step-Inv tid f s t v (identifies r) =
    let (a, b, c) = subst (Holds tid f s) r v.holds in
    record {
      fresh = λ e. let u = v.fresh e in cc;
      hidden = λ _. v.hidden (ap uses_object r);
      holds = (a, b, c, refl);
      born = λ _ e. cc;
      posted = λ _ e. cc;
    }
Step-Inv tid f s t v (swaps r) =
    let (a, b, c, d) = subst (Holds tid f s) r v.holds in
    record {
      fresh = λ e. let u = v.fresh e in cc;
      hidden = λ _. v.hidden (ap uses_object r);
      holds = (b, a, c, d);
      born = λ _ e. cc;
      posted = λ _ e. cc;
    }
Step-Inv tid f s t v (notifies r) = record {
  fresh = λ e. let u = v.fresh e in cc;
  hidden = λ u. cc;
  holds = subst (Holds tid f s) r v.holds;
  born = λ _ e. cc;
  posted = λ _ _. ap suc (v.hidden (ap uses_object r)).0;
}
Step-Inv tid f s t v (calls g r e) =
    let (a, b, c, d) = subst (Holds tid f s) r v.holds in
    record {
      fresh = λ e. let u = v.fresh e in cc;
      hidden = λ u. cc;
      holds = (a, (let same : g ≡ f = cc in ap₂ {A = ℕ} (λ x xs. x ∷ xs) same c), d);
      born = λ _ e. cc;
      posted = λ o _. v.posted o (ap uses_object r);
    }
Step-Inv tid f s t v (returns r) = record {
  fresh = λ e. let u = v.fresh e in cc;
  hidden = λ u. cc;
  holds = subst (Holds tid f s) r v.holds;
  born = λ _ e. cc;
  posted = λ o _. v.posted o (ap uses_object r);
}

Reach-Inv : (tid f : ℕ) (name : List ℕ) (s : Thread) → Reach tid (new_thread f name) s → Inv tid f s
unfolding Holds uses_object is_made
Reach-Inv tid f name s begin = record {
  fresh = λ _. refl;
  hidden = λ _. (refl, refl);
  holds = (refl, refl, refl);
  born = λ e. cc;
  posted = λ e. cc;
}
Reach-Inv tid f name s (later r step) = Step-Inv tid f _ s (Reach-Inv tid f name _ r) step

called_once :
    (tid f : ℕ) (s : Thread) (r : Runner) → Holds tid f s r → (s.called ≡ []) ⊎ (s.called ≡ f ∷ [])
unfolding Holds
called_once tid f s unborn (a, b, c) = inl c
called_once tid f s naming (a, b, c) = inl c
called_once tid f s identifying (a, b, c) = inl c
called_once tid f s swapping (a, b, c, d) = inl c
called_once tid f s notifying (a, b, c, d) = inl c
called_once tid f s calling (a, b, c, d) = inl c
called_once tid f s running (a, b, c) = inr b
called_once tid f s finished (a, b, c) = inr b

known :
    (tid f : ℕ) (s : Thread) (r : Runner)
    → uses_object r ≡ false
    → Holds tid f s r
    → (s.id ≡ some tid) × (s.cb ≡ none)
unfolding Holds uses_object
known tid f s unborn u h = cc
known tid f s naming u h = cc
known tid f s identifying u h = cc
known tid f s swapping u h = cc
known tid f s notifying u h = cc
known tid f s calling u (a, b, c, d) = (d, a)
known tid f s running u (a, b, c) = (c, a)
known tid f s finished u (a, b, c) = (c, a)

-- What `Reach-Handover` says of a thread.
pub record Handover (tid f : ℕ) (s : Thread) : Type 0 where
  pub left : is_made s.owner ≡ true → uses_object s.runner ≡ false
  pub taken : is_made s.owner ≡ true → (s.id ≡ some tid) × (s.cb ≡ none)
  pub once : (s.called ≡ []) ⊎ (s.called ≡ f ∷ [])

unused :
    (tid f : ℕ) (s : Thread) → Inv tid f s → is_made s.owner ≡ true → uses_object s.runner ≡ false
unused tid f s v m = elim (Bool-cases (uses_object s.runner)) [
  | inl u ↦ absurd (true-false (sym m ∙ (v.hidden u).1))
  | inr u ↦ u
]

-- In every interleaving of a thread's constructor and of `run`: once the constructor has returned,
-- `run` does not use the object any more, the number of the thread is known and the callback is taken;
-- the callback is called at most once, and no other is.
pub Reach-Handover :
    (tid f : ℕ) (name : List ℕ) (s : Thread) → Reach tid (new_thread f name) s → Handover tid f s
Reach-Handover tid f name s r =
    let v = Reach-Inv tid f name s r in
    record {
      left = unused tid f s v;
      taken = λ m. known tid f s s.runner (unused tid f s v m) v.holds;
      once = called_once tid f s s.runner v.holds;
    }

next_step :
    (tid f : ℕ) (s : Thread) (r : Runner)
    → s.runner ≡ r
    → s.owner ≡ waiting
    → Inv tid f s
    → (t : Thread) × Step tid s t
unfolding Holds uses_object
next_step tid f s unborn r o v = absurd (v.born o r)
next_step tid f s naming r o v = (_, names r)
next_step tid f s identifying r o v = (_, identifies r)
next_step tid f s swapping r o v = (_, swaps r)
next_step tid f s notifying r o v = (_, notifies r)
next_step tid f s calling r o v = (_, waits 0 o (v.posted o (ap uses_object r)))
next_step tid f s running r o v = (_, waits 0 o (v.posted o (ap uses_object r)))
next_step tid f s finished r o v = (_, waits 0 o (v.posted o (ap uses_object r)))

-- A constructor that waits is never stuck: there is a step, of `run` or of the wait itself.
pub Reach-progress :
    (tid f : ℕ) (name : List ℕ) (s : Thread)
    → Reach tid (new_thread f name) s
    → s.owner ≡ waiting
    → (t : Thread) × Step tid s t
Reach-progress tid f name s r o = next_step tid f s s.runner refl o (Reach-Inv tid f name s r)
