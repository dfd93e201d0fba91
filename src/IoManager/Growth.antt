-- ===== src/IoManager/Growth.antt =====
-- The growth of the table of contexts in `addEvent` (src/iomanager.cc, `contextResize`).
use lt.Base.{
  ℕ, zero, suc, ◌+◌, ◌-◌, ◌*◌, ◌/◌, ◌^◌, ◌<◌, ◌≤◌, ◌≡◌, refl, ap, ◌∙◌, List, [], ◌∷◌, ◌++◌, none,
  some, arith, leb, length, length-append, get_elem?, take, if_cases, ◌⊎◌, inl, inr, leb→le, tests,
}
use lt.IoManager.Events.{weight-zero}
use lt.IoManager.{FdContext, Epoll, Manager, no_context, new_contexts, context_resize, grown}
use lt.IoManager.Local.{total_weight, empty-IsSound}
use lt.IoManager.Sync.{Inv}

abbrev empty_context : ℕ → FdContext
empty_context i = record { reading = no_context; writing = no_context; fd = i; events = 0 }

length-new_contexts : (from n : ℕ) → length (new_contexts from n) ≡ n
unfolding new_contexts
length-new_contexts from zero = refl
length-new_contexts from (suc n) = ap suc (length-new_contexts (from + 1) n)

get_elem?-new_contexts :
    (from n k : ℕ) (c : FdContext)
    → get_elem? (new_contexts from n) k ≡ some c
    → c ≡ empty_context (from + k)
unfolding new_contexts
get_elem?-new_contexts from zero k c e = cc
get_elem?-new_contexts from (suc n) zero c e = ground arith
get_elem?-new_contexts from (suc n) (suc k) c e =
    get_elem?-new_contexts (from + 1) n k c e ∙ ap empty_context (omega arith)

total_weight-append :
    (cs ds : List FdContext) → total_weight (cs ++ ds) ≡ total_weight cs + total_weight ds
unfolding total_weight
total_weight-append [] ds = omega arith
total_weight-append (c ∷ cs) ds = omega (arith, total_weight-append cs ds)

total_weight-new_contexts : (from n : ℕ) → total_weight (new_contexts from n) ≡ 0
unfolding total_weight new_contexts
total_weight-new_contexts from zero = refl
total_weight-new_contexts from (suc n) =
    omega (arith, weight-zero, total_weight-new_contexts (from + 1) n)

-- A place of a list that was appended to is one of the two lists'.
append_place :
    {A : Type 0} (xs ys : List A) (i : ℕ) (a : A)
    → get_elem? (xs ++ ys) i ≡ some a
    → (get_elem? xs i ≡ some a) ⊎ ((length xs ≤ i) × (get_elem? ys (i - length xs) ≡ some a))
append_place [] ys i a e = inr (omega arith, ap (get_elem? ys) (omega arith) ∙ e)
append_place (x ∷ xs) ys zero a e = inl e
append_place (x ∷ xs) ys (suc i) a e = elim (append_place xs ys i a e) [
  | inl h ↦ inl h
  | inr h ↦ inr (omega (arith, h.0), ap (get_elem? ys) (omega arith) ∙ h.1)
]

module _ (E : Epoll) (m : Manager E) (n : ℕ) (v : Inv E m)
    (small : length m.contexts + n < 2 ^ 31) where
  abbrev longer : List FdContext
  longer = m.contexts ++ new_contexts (length m.contexts) n

  pub length-longer : length longer ≡ length m.contexts + n
  length-longer =
      length-append m.contexts (new_contexts (length m.contexts) n)
      ∙ ap (◌+◌ (length m.contexts)) (length-new_contexts (length m.contexts) n)

  new_place :
      (i : ℕ) (c : FdContext)
      → length m.contexts ≤ i
      → get_elem? (new_contexts (length m.contexts) n) (i - length m.contexts) ≡ some c
      → c ≡ empty_context i
  new_place i c le e =
      get_elem?-new_contexts (length m.contexts) n (i - length m.contexts) c e
      ∙ ap empty_context (omega arith)

  -- Growing the table keeps the invariant.
  pub longer-Inv : Inv E (record m { contexts = longer })
  longer-Inv = record {
    local = record {
      contexts = λ i c e. elim (append_place m.contexts _ i c e) [
        | inl old ↦ v.local.contexts i c old
        | inr new ↦ rw (new_place i c new.0 new.1) (empty-IsSound i)
      ];
      counted =
          v.local.counted
          ∙ omega (
            arith,
            total_weight-append m.contexts (new_contexts (length m.contexts) n),
            total_weight-new_contexts (length m.contexts) n,
          );
      small = omega (arith, length-longer);
    };
    sync = λ i c e ne. elim (append_place m.contexts _ i c e) [
      | inl old ↦ v.sync i c old ne
      | inr new ↦ v.outside i new.0 ne ∙ rw (new_place i c new.0 new.1) refl
    ];
    outside = λ i le ne. v.outside i (omega (arith, length-longer)) ne;
  }

-- The lookup of `addEvent`, if the table does not change while it waits for the write lock, finds a
-- context for every handle from 2 on and keeps the invariant.
pub grown-Inv :
    (E : Epoll) (fd : ℕ) (m : Manager E)
    → Inv E m
    → 2 ≤ fd
    → fd * 3 / 2 < 2 ^ 31
    → Inv E (record m { contexts = grown fd m.contexts }) × (fd < length (grown fd m.contexts))
unfolding grown context_resize
grown-Inv E fd m v two small =
    if_cases Fits (leb (length m.contexts) fd) _ _
      (λ short.
        if_cases Fits (leb (length m.contexts) (fd * 3 / 2)) _ _
          (λ fits. (
            longer-Inv E m (fd * 3 / 2 - length m.contexts) v
                (omega (tests, leb→le (length m.contexts) (fd * 3 / 2) fits)),
            omega (
              tests,
              leb→le (length m.contexts) (fd * 3 / 2) fits,
              length-longer E m (fd * 3 / 2 - length m.contexts) v
                  (omega (tests, leb→le (length m.contexts) (fd * 3 / 2) fits)),
            ),
          ))
          (λ over. absurd (ground (arith, over, leb→le (length m.contexts) fd short))))
      (λ enough. (v, ground (arith, enough)))
  where
    Fits : List FdContext → Type 0
    Fits cs = Inv E (record m { contexts = cs }) × (fd < length cs)

take_short : {A : Type 0} (n i : ℕ) (xs : List A) → n ≤ i → get_elem? (take n xs) i ≡ none
take_short zero i xs h = refl
take_short (suc n) i [] h = refl
take_short (suc n) zero (x ∷ xs) h = absurd (omega arith)
take_short (suc n) (suc i) (x ∷ xs) h = take_short n i xs (omega arith)

-- `addEvent` does not look at the size again once it has the write lock. If another thread has
-- meanwhile grown the table past `fd * 1.5`, the table shrinks: every context from there on, with
-- the events that it waits for, is gone.
pub resize_loses :
    (fd i : ℕ) (cs : List FdContext)
    → fd * 3 / 2 < length cs
    → fd * 3 / 2 ≤ i
    → get_elem? (context_resize (fd * 3 / 2) cs) i ≡ none
unfolding context_resize
resize_loses fd i cs longer le = ground (arith, take_short (fd * 3 / 2) i cs le)
