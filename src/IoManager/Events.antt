-- ===== src/IoManager/Events.antt =====
-- Event masks (include/iomanager.h, `IOManager::Event`): a mask is an `int` whose bits are the
-- values of READ and WRITE, which are those of EPOLLIN and EPOLLOUT.
use Prim.Native.Nat.{bit_and, bit_or}
use lt.Base.{
  ℕ, ◌+◌, ◌-◌, ◌^◌, ◌≤◌, ◌≡◌, ◌≢◌, refl, Bool, true, false, not, ◌&&◌, ◌||◌, ◌⊎◌, inl, inr, arith,
  ◌==◌, if◌then◌else◌,
}

pub data Event : Type 0 where
  none_event read write : Event

abbrev pub bits : Event → ℕ
bits none_event = 0
bits read = 1
bits write = 4

-- `events & event`, as a condition.
unfoldable pub has : ℕ → Event → Bool
has events event = not (bit_and events (bits event) == 0)

-- `events | event`.
unfoldable pub with_event : ℕ → Event → ℕ
with_event events event = bit_or events (bits event)

-- `events & ~mask` on 32 bits.
abbrev pub clear : ℕ → ℕ → ℕ
clear events mask = bit_and events (2 ^ 32 - 1 - mask)

unfoldable pub without : ℕ → Event → ℕ
without events event = clear events (bits event)

-- The masks that `addEvent` builds.
abbrev pub IsMask : ℕ → Type 0
IsMask e = (e ≡ 0) ⊎ (e ≡ 1) ⊎ (e ≡ 4) ⊎ (e ≡ 5)

-- READ or WRITE.
abbrev pub IsIo : Event → Type 0
IsIo ev = ev ≢ none_event

-- How many events a mask holds.
unfoldable pub weight : ℕ → ℕ
weight e = (if has e read then 1 else 0) + (if has e write then 1 else 0)

pub weight-zero : weight 0 ≡ 0
unfolding weight has
weight-zero = refl

pub weight-le : (e : ℕ) → weight e ≤ 2
unfolding weight
weight-le e = ground arith

-- A statement about a mask is checked at its four values.
pub mask_cases {ℓ} : (P : ℕ → Type ℓ) (e : ℕ) → IsMask e → P 0 → P 1 → P 4 → P 5 → P e
mask_cases P e (inl h) a b c d = rw h a
mask_cases P e (inr (inl h)) a b c d = rw h b
mask_cases P e (inr (inr (inl h))) a b c d = rw h c
mask_cases P e (inr (inr (inr h))) a b c d = rw h d

abbrev pub same : Event → Event → Bool
same none_event none_event = true
same read read = true
same write write = true
same _ _ = false

pub has_no_event : (e : ℕ) → IsMask e → has e none_event ≡ false
unfolding has
has_no_event e m = mask_cases (λ e. has e none_event ≡ false) e m refl refl refl refl

pub has-without :
    (e : ℕ) (ev f : Event) → IsMask e → has (without e ev) f ≡ (has e f && not (same ev f))
unfolding has without
has-without e none_event none_event m =
    mask_cases
      (λ e.
        has (without e none_event) none_event
        ≡ (has e none_event && not (same none_event none_event)))
      e m refl refl refl refl
has-without e read none_event m =
    mask_cases
      (λ e. has (without e read) none_event ≡ (has e none_event && not (same read none_event))) e m
      refl refl refl refl
has-without e write none_event m =
    mask_cases
      (λ e. has (without e write) none_event ≡ (has e none_event && not (same write none_event))) e
      m refl refl refl refl
has-without e ev f m =
    mask_cases (λ e. has (without e ev) f ≡ (has e f && not (same ev f))) e m refl refl refl refl

pub has-with_event :
    (e : ℕ) (ev f : Event) → IsMask e → IsIo f → has (with_event e ev) f ≡ (has e f || same ev f)
unfolding has with_event
has-with_event e none_event none_event m io = absurd (io refl)
has-with_event e read none_event m io = absurd (io refl)
has-with_event e write none_event m io = absurd (io refl)
has-with_event e ev f m io =
    mask_cases (λ e. has (with_event e ev) f ≡ (has e f || same ev f)) e m refl refl refl refl

pub without-IsMask : (e : ℕ) (ev : Event) → IsMask e → IsMask (without e ev)
unfolding without
without-IsMask e none_event m =
    mask_cases (λ e. IsMask (without e none_event)) e m (omega arith) (omega arith) (omega arith)
      (omega arith)
without-IsMask e ev m =
    mask_cases (λ e. IsMask (without e ev)) e m (omega arith) (omega arith) (omega arith)
      (omega arith)

pub with_event-IsMask : (e : ℕ) (ev : Event) → IsMask e → IsMask (with_event e ev)
unfolding with_event
with_event-IsMask e none_event m =
    mask_cases (λ e. IsMask (with_event e none_event)) e m (omega arith) (omega arith) (omega arith)
      (omega arith)
with_event-IsMask e ev m =
    mask_cases (λ e. IsMask (with_event e ev)) e m (omega arith) (omega arith) (omega arith)
      (omega arith)

-- A mask is zero exactly if it holds no event.
pub mask-zero : (e : ℕ) → IsMask e → (e == 0) ≡ (not (has e read) && not (has e write))
unfolding has
mask-zero e m =
    mask_cases (λ e. (e == 0) ≡ (not (has e read) && not (has e write))) e m refl refl refl refl

pub weight-with_event :
    (e : ℕ) (ev : Event)
    → IsMask e
    → IsIo ev
    → has e ev ≡ false
    → weight (with_event e ev) ≡ weight e + 1
unfolding weight
weight-with_event e none_event m io h = absurd (io refl)
weight-with_event e read m io h =
    ground (arith, has-with_event e read read m, has-with_event e read write m)
weight-with_event e write m io h =
    ground (arith, has-with_event e write read m, has-with_event e write write m)

pub weight-without :
    (e : ℕ) (ev : Event) → IsMask e → has e ev ≡ true → weight (without e ev) + 1 ≡ weight e
unfolding weight
weight-without e none_event m h = ground (arith, has_no_event e m)
weight-without e ev m h = ground (arith, has-without e ev read m, has-without e ev write m)

-- A mask is known by the events that it holds.
pub mask_ext :
    (e f : ℕ) → IsMask e → IsMask f → has e read ≡ has f read → has e write ≡ has f write → e ≡ f
unfolding has
mask_ext e f m n =
    mask_cases (λ e. has e read ≡ has f read → has e write ≡ has f write → e ≡ f) e m
      (mask_cases (λ f. has 0 read ≡ has f read → has 0 write ≡ has f write → 0 ≡ f) f n
        (λ _ _. refl) (λ p _. cc) (λ _ q. cc) (λ p _. cc))
      (mask_cases (λ f. has 1 read ≡ has f read → has 1 write ≡ has f write → 1 ≡ f) f n (λ p _. cc)
        (λ _ _. refl) (λ p _. cc) (λ _ q. cc))
      (mask_cases (λ f. has 4 read ≡ has f read → has 4 write ≡ has f write → 4 ≡ f) f n (λ _ q. cc)
        (λ p _. cc) (λ _ _. refl) (λ p _. cc))
      (mask_cases (λ f. has 5 read ≡ has f read → has 5 write ≡ has f write → 5 ≡ f) f n (λ p _. cc)
        (λ _ q. cc) (λ p _. cc) (λ _ _. refl))

-- What `events & ~real` keeps, and whether `events & real` is zero.
abbrev pub Clears : ℕ → ℕ → Type 0
Clears e real =
    (IsMask (clear e real))
    × (has (clear e real) read ≡ (has e read && not (has real read)))
    × (has (clear e real) write ≡ (has e write && not (has real write)))
    × ((bit_and e real == 0)
        ≡ (not (has e read && has real read) && not (has e write && has real write)))

pub clear_lem : (e real : ℕ) → IsMask e → IsMask real → Clears e real
unfolding has
clear_lem e real m n =
    mask_cases (λ e. Clears e real) e m
      (mask_cases (λ real. Clears 0 real) real n (omega arith, refl, refl, refl)
        (omega arith, refl, refl, refl) (omega arith, refl, refl, refl)
        (omega arith, refl, refl, refl))
      (mask_cases (λ real. Clears 1 real) real n (omega arith, refl, refl, refl)
        (omega arith, refl, refl, refl) (omega arith, refl, refl, refl)
        (omega arith, refl, refl, refl))
      (mask_cases (λ real. Clears 4 real) real n (omega arith, refl, refl, refl)
        (omega arith, refl, refl, refl) (omega arith, refl, refl, refl)
        (omega arith, refl, refl, refl))
      (mask_cases (λ real. Clears 5 real) real n (omega arith, refl, refl, refl)
        (omega arith, refl, refl, refl) (omega arith, refl, refl, refl)
        (omega arith, refl, refl, refl))

pub with_event-nonzero : (e : ℕ) (ev : Event) → IsMask e → IsIo ev → (with_event e ev == 0) ≡ false
unfolding with_event
with_event-nonzero e none_event m io = absurd (io refl)
with_event-nonzero e ev m io =
    mask_cases (λ e. (with_event e ev == 0) ≡ false) e m refl refl refl refl

pub has_nothing_read : has 0 read ≡ false
unfolding has
has_nothing_read = refl

pub has_nothing_write : has 0 write ≡ false
unfolding has
has_nothing_write = refl

pub weight-empty : (e : ℕ) → IsMask e → weight e ≡ 0 → e ≡ 0
unfolding weight
weight-empty e m h = ground (arith, mask-zero e m)
