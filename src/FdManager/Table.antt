-- ===== src/FdManager/Table.antt =====
-- The table of contexts (src/fd_manager.cc): what `get` and `del` do to the context of a handle.
use mathlib.Core.Option.{some-injective}
use lt.Base.{
  Bool-cases, ==_iff, ℕ, zero, suc, ◌-◌, ◌*◌, ◌/◌, ◌<◌, ◌≤◌, ◌≡◌, ◌≢◌, refl, sym, ap, ◌∙◌, Bool,
  true, false, List, [], ◌∷◌, ◌++◌, Option, none, some, arith, ◌==◌, leb, if◌then◌else◌, length,
  length-append, length-set, get_elem?, set, pos, Option-cases, inl, inr, leb→le, if_cases, if_true,
  if_false,
}
use lt.FdManager.{FdCtx, System, FdManager, nulls, resize, init, new_ctx, find, create, get, del}

-- The pointer at a place; null out of range.
unfoldable pub slot : List (Option ℕ) → ℕ → Option ℕ
slot [] i = none
slot (x ∷ xs) zero = x
slot (x ∷ xs) (suc i) = slot xs i

slot-get_elem? :
    (ds : List (Option ℕ)) (i : ℕ) → elim (get_elem? ds i) [ none ↦ none | some e ↦ e ] ≡ slot ds i
unfolding slot
slot-get_elem? [] i = refl
slot-get_elem? (x ∷ xs) zero = refl
slot-get_elem? (x ∷ xs) (suc i) = slot-get_elem? xs i

slot-nulls : (n i : ℕ) → slot (nulls n) i ≡ none
unfolding slot nulls
slot-nulls zero i = refl
slot-nulls (suc n) zero = refl
slot-nulls (suc n) (suc i) = slot-nulls n i

slot-append_nulls : (ds : List (Option ℕ)) (n i : ℕ) → slot (ds ++ nulls n) i ≡ slot ds i
unfolding slot
slot-append_nulls [] n i = slot-nulls n i
slot-append_nulls (x ∷ xs) n zero = refl
slot-append_nulls (x ∷ xs) n (suc i) = slot-append_nulls xs n i

length-nulls : (n : ℕ) → length (nulls n) ≡ n
unfolding nulls
length-nulls zero = refl
length-nulls (suc n) = ap suc (length-nulls n)

slot-set :
    (ds : List (Option ℕ)) (i j : ℕ) (e : Option ℕ)
    → i < length ds
    → slot (set ds i e) j ≡ (if i == j then e else slot ds j)
unfolding slot
slot-set [] i j e h = absurd (omega arith)
slot-set (x ∷ xs) zero zero e h = refl
slot-set (x ∷ xs) zero (suc j) e h = sym (if_false (0 == suc j) _ _ (ground arith))
slot-set (x ∷ xs) (suc i) zero e h = sym (if_false (suc i == 0) _ _ (ground arith))
slot-set (x ∷ xs) (suc i) (suc j) e h = ground (arith, slot-set xs i j e (omega arith))

slot-none : (ds : List (Option ℕ)) (i : ℕ) → length ds ≤ i → slot ds i ≡ none
unfolding slot
slot-none [] i h = refl
slot-none (x ∷ xs) zero h = absurd (omega arith)
slot-none (x ∷ xs) (suc i) h = slot-none xs i (omega arith)

-- The table that `create` writes to.
abbrev roomy : ℕ → List (Option ℕ) → List (Option ℕ)
roomy fd ds = if leb (length ds) fd then resize (fd * 3 / 2) ds else ds

roomy_lem :
    (fd : ℕ) (ds : List (Option ℕ))
    → 64 ≤ length ds
    → (fd < length (roomy fd ds))
      × (length ds ≤ length (roomy fd ds))
      × ((i : ℕ) → slot (roomy fd ds) i ≡ slot ds i)
unfolding resize
roomy_lem fd ds h =
    if_cases P (leb (length ds) fd) _ _
      (λ short.
        if_cases P (leb (length ds) (fd * 3 / 2)) _ _
          (λ fits. (
            ground (
              arith,
              length-append ds (nulls (fd * 3 / 2 - length ds)),
              length-nulls (fd * 3 / 2 - length ds),
            ),
            ground (arith, length-append ds (nulls (fd * 3 / 2 - length ds))),
            slot-append_nulls ds _,
          ))
          (λ over. absurd (ground arith)))
      (λ enough. (ground arith, omega arith, (λ i. refl)))
  where
    P : List (Option ℕ) → Type 0
    P xs = (fd < length xs) × (length ds ≤ length xs) × ((i : ℕ) → slot xs i ≡ slot ds i)

module _ (O : System) where
  open O use {State, fstat, get_flags, set_flags}

  -- The answer of `find` for what stands at the place.
  abbrev pub answer : Bool → Option ℕ → Option ℕ
  answer auto_create none = if auto_create then none else some 0
  answer auto_create (some p) = some p

  find_place :
      (auto_create : Bool) (o : Option (Option ℕ))
      → elim o [
        | none ↦ if auto_create then none else some 0
        | some entry ↦ elim entry [ none ↦ if auto_create then none else some 0 | some p ↦ some p ]
      ]
        ≡ answer auto_create (elim o [ none ↦ none | some e ↦ e ])
  find_place auto_create none = refl
  find_place auto_create (some none) = refl
  find_place auto_create (some (some p)) = refl

  pub find-slot :
      (fd : ℕ) (auto_create : Bool) (m : FdManager O)
      → find O fd auto_create m ≡ answer auto_create (slot m.datas fd)
  unfolding find
  find-slot fd auto_create m =
      find_place auto_create (get_elem? m.datas fd)
      ∙ ap (answer auto_create) (slot-get_elem? m.datas fd)

  -- What `create` leaves.
  pub record Created (fd p : ℕ) (m m' : FdManager O) : Type 0 where
    pub room : 64 ≤ length m'.datas
    pub slots : (g : ℕ) → slot m'.datas g ≡ (if fd == g then some p else slot m.datas g)
    pub own : (m'.heap p).fd ≡ fd
    pub others : (q : ℕ) → p ≢ q → m'.heap q ≡ m.heap q

  new_ctx-fd : (fd : ℕ) (k : State) → (new_ctx O fd k).0.fd ≡ fd
  unfolding new_ctx init
  new_ctx-fd fd k = refl

  pub create-Created :
      (fd p : ℕ) (m : FdManager O)
      → 64 ≤ length m.datas
      → (m' : FdManager O) × (create O fd p m ≡ some (p, m')) × Created fd p m m'
  unfolding create
  create-Created fd p m h =
      let (lt, ge, same) = roomy_lem fd m.datas h in
      (
        record {
          datas = set (roomy fd m.datas) fd (some p);
          heap = λ q. if p == q then (new_ctx O fd m.kernel).0 else m.heap q;
          kernel = (new_ctx O fd m.kernel).1;
        },
        if_false (leb (length (roomy fd m.datas)) fd) _ _ (ground arith),
        record {
          room = omega (arith, length-set (roomy fd m.datas) fd (some p));
          slots = λ g.
              slot-set (roomy fd m.datas) fd g (some p) lt
              ∙ ap (λ s. if fd == g then some p else s) (same g);
          own =
              ap (λ (c : FdCtx). c.fd) (if_true (p == p) _ _ (ground arith))
              ∙ new_ctx-fd fd m.kernel;
          others = λ q ne. ground arith;
        },
      )

  abbrev made : ℕ → ℕ → FdManager O → Option ℕ → Option (ℕ × FdManager O)
  made fd p m none = create O fd p m
  made fd p m (some q) = some (q, m)

  get_lem :
      (fd p : ℕ) (auto_create : Bool) (m : FdManager O) (o : Option ℕ)
      → slot m.datas fd ≡ o
      → get O (pos fd) auto_create p m ≡ made fd p m (answer auto_create o)
  unfolding get
  get_lem fd p auto_create m o e =
      get_made (find O fd auto_create m)
      ∙ ap (made fd p m) (find-slot fd auto_create m ∙ ap (answer auto_create) e)
    where
      get_made :
          (o : Option ℕ) → elim o [ none ↦ create O fd p m | some q ↦ some (q, m) ] ≡ made fd p m o
      get_made none = refl
      get_made (some q) = refl

  -- `get` with `auto_create` returns a context of the handle, the one that the table holds or else a
  -- new one that no other handle has; from then on every `get` of the handle returns the same and
  -- changes nothing. The places of other handles do not change.
  pub get_stable :
      (fd p : ℕ) (m : FdManager O)
      → 64 ≤ length m.datas
      → (q : ℕ) × (m' : FdManager O) × (get O (pos fd) true p m ≡ some (q, m'))
        × ((r : ℕ) → slot m.datas fd ≡ some r → (q ≡ r) × (m' ≡ m))
        × (slot m.datas fd ≡ none → (q ≡ p) × ((m'.heap p).fd ≡ fd))
        × ((g : ℕ) → fd ≢ g → slot m'.datas g ≡ slot m.datas g)
        × ((auto_create : Bool) (r : ℕ) → get O (pos fd) auto_create r m' ≡ some (q, m'))
  get_stable fd p m h = elim (Option-cases (slot m.datas fd)) [
    | inl e ↦
        let (m', eq, c) = create-Created fd p m h in
        (
          p,
          m',
          get_lem fd p true m none e ∙ eq,
          (λ r k. cc),
          (λ _. (refl, c.own)),
          (λ g ne. c.slots g ∙ if_false (fd == g) _ _ (ground arith)),
          (λ auto_create r.
              get_lem fd r auto_create m' (some p)
                (c.slots fd ∙ if_true (fd == fd) _ _ (ground arith))),
        )
    | inr (q, e) ↦ (
      q,
      m,
      get_lem fd p true m (some q) e,
      (λ r k. (some-injective q r (sym e ∙ k), refl)),
      (λ k. cc),
      (λ g ne. refl),
      (λ auto_create r. get_lem fd r auto_create m (some q) e),
    )
  ]

  -- `del` on the table.
  pub del-slot :
      (fd : ℕ) (m : FdManager O)
      → (m' : FdManager O) × (del O (pos fd) m ≡ some m')
        × ((g : ℕ) → slot m'.datas g ≡ (if fd == g then none else slot m.datas g))
  unfolding del
  del-slot fd m =
      if_cases P (leb (length m.datas) fd) _ _
        (λ out. (
          m,
          refl,
          (λ g. elim (Bool-cases (fd == g)) [
            | inl e ↦ rw e (
                ap (slot m.datas) (sym ((==_iff fd g).0 e))
                ∙ slot-none m.datas fd (leb→le (length m.datas) fd out))
            | inr e ↦ rw e refl
          ]),
        ))
        (λ inside. (
          record m { datas = set m.datas fd none },
          refl,
          (λ g. slot-set m.datas fd g none (ground arith)),
        ))
    where
      P : FdManager O → Type 0
      P x =
          (m' : FdManager O) × (some x ≡ some m')
          × ((g : ℕ) → slot m'.datas g ≡ (if fd == g then none else slot m.datas g))

  -- After `del` a `get` without `auto_create` returns null, and other handles keep their contexts.
  pub del_forgets :
      (fd p : ℕ) (m : FdManager O)
      → (m' : FdManager O) × (del O (pos fd) m ≡ some m')
        × (get O (pos fd) false p m' ≡ some (0, m'))
        × ((g : ℕ) → fd ≢ g → slot m'.datas g ≡ slot m.datas g)
  del_forgets fd p m =
      let (m', eq, slots) = del-slot fd m in
      (
        m',
        eq,
        get_lem fd p false m' none (slots fd ∙ if_true (fd == fd) _ _ (ground arith)),
        (λ g ne. slots g ∙ if_false (fd == g) _ _ (ground arith)),
      )

  -- Two threads that ask for the context of a new handle at once both find none under the read lock,
  -- and each makes one. The second takes the place of the first: no later `get` returns the context
  -- that the first thread was given.
  pub get_race :
      (fd p q : ℕ) (m : FdManager O)
      → 64 ≤ length m.datas
      → find O fd true m ≡ none
      → p ≢ q
      → (m₁ m₂ : FdManager O) × (create O fd p m ≡ some (p, m₁))
        × (create O fd q m₁ ≡ some (q, m₂))
        × ((auto_create : Bool) (r : ℕ) → get O (pos fd) auto_create r m₂ ≢ some (p, m₂))
  get_race fd p q m h e ne =
      let (m₁, eq, c) = create-Created fd p m h in
      let (m₂, eq', d) = create-Created fd q m₁ c.room in
      (
        m₁,
        m₂,
        eq,
        eq',
        (λ auto_create r k. ne (
            ap (λ (x : ℕ × FdManager O). x.0)
              (some-injective (p, m₂) (q, m₂)
                (sym k
                  ∙ get_lem fd r auto_create m₂ (some q)
                      (d.slots fd ∙ if_true (fd == fd) _ _ (ground arith)))))),
      )
