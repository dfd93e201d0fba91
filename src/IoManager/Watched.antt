-- ===== src/IoManager/Watched.antt =====
-- Events of a report, of a mask and of what is registered for it (src/iomanager.cc, `idle`).
use Prim.Native.Nat.{bit_and, bit_or}
use lt.Base.{
  ℕ, ◌*◌, ◌/◌, ◌%◌, ◌≡◌, refl, sym, ap, ◌∙◌, Bool, true, false, not, ◌&&◌, ◌==◌, ◌||◌,
  if◌then◌else◌, some, arith, bit_and-lowest, bit_or-lowest, bit_and-zero,
}
use lt.IoManager.Events.{
  none_event, Event, read, write, has, IsMask, mask_cases, mask_ext, clear, clear_lem,
}
use lt.IoManager.{epollet, err_or_hup}
use lt.IoManager.Poll.{real_events}
use lt.IoManager.Sync.{registration}

lowest_bit : (x : ℕ) → bit_and x 1 ≡ x % 2
lowest_bit x = omega (arith, bit_and-lowest x 1, bit_and-zero (x / 2))

third_bit : (x : ℕ) → bit_and x 4 ≡ x / 4 % 2 * 4
third_bit x = omega (
  arith,
  bit_and-lowest x 4,
  bit_and-lowest (x / 2) 2,
  bit_and-lowest (x / 2 / 2) 1,
  bit_and-zero (x / 2 / 2 / 2),
)

has-bit_or-read : (x e : ℕ) → has (bit_or x e) read ≡ (has x read || has e read)
unfolding has
has-bit_or-read x e =
    ground (arith, lowest_bit (bit_or x e), lowest_bit x, lowest_bit e, bit_or-lowest x e)

has-bit_or-write : (x e : ℕ) → has (bit_or x e) write ≡ (has x write || has e write)
unfolding has
has-bit_or-write x e = ground (
  arith,
  third_bit (bit_or x e),
  third_bit x,
  third_bit e,
  bit_or-lowest x e,
  bit_or-lowest (x / 2) (e / 2),
  bit_or-lowest (x / 2 / 2) (e / 2 / 2),
)

-- An event is ready: its context waits for it, and it is reported, or an error or a hang-up is.
abbrev pub is_ready : ℕ → ℕ → Event → Bool
is_ready fired events ev = has events ev && (has fired ev || not (bit_and fired err_or_hup == 0))

abbrev pub mask_of : Bool → Bool → ℕ
mask_of true true = 5
mask_of true false = 1
mask_of false true = 4
mask_of false false = 0

-- The events that a context waits for still when those that are ready are gone.
abbrev pub still_waiting : ℕ → ℕ → ℕ
still_waiting fired events =
    mask_of (has events read && not (is_ready fired events read))
      (has events write && not (is_ready fired events write))

has-mask_of :
    (a b : Bool)
    → IsMask (mask_of a b) × (has (mask_of a b) read ≡ a) × (has (mask_of a b) write ≡ b)
unfolding has
has-mask_of true true = (ground arith, refl, refl)
has-mask_of true false = (ground arith, refl, refl)
has-mask_of false true = (ground arith, refl, refl)
has-mask_of false false = (ground arith, refl, refl)

waited_read : (e : ℕ) → IsMask e → has (bit_and 5 e) read ≡ has e read
unfolding has
waited_read e m = mask_cases (λ e. has (bit_and 5 e) read ≡ has e read) e m refl refl refl refl

waited_write : (e : ℕ) → IsMask e → has (bit_and 5 e) write ≡ has e write
unfolding has
waited_write e m = mask_cases (λ e. has (bit_and 5 e) write ≡ has e write) e m refl refl refl refl

has-real_events :
    (f : ℕ)
    → let real : ℕ =
        if has f read then (if has f write then 5 else 1) else (if has f write then 4 else 0) in
      (has real read ≡ has f read) × (has real write ≡ has f write)
unfolding has
has-real_events f = ground arith

-- A report of an event is one of an event that the context waits for.
abbrev pub Expects : ℕ → ℕ → Event → Type 0
Expects fired events ev = has fired ev ≡ true → has events ev ≡ true

pub real_read-is_ready :
    (fired e : ℕ)
    → IsMask e
    → Expects fired e read
    → has (real_events fired e) read ≡ is_ready fired e read
unfolding real_events
real_read-is_ready fired e m h = ground (
  arith,
  h,
  (has-real_events fired).0,
  (has-real_events (bit_or fired (bit_and 5 e))).0,
  has-bit_or-read fired (bit_and 5 e),
  waited_read e m,
)

pub real_write-is_ready :
    (fired e : ℕ)
    → IsMask e
    → Expects fired e write
    → has (real_events fired e) write ≡ is_ready fired e write
unfolding real_events
real_write-is_ready fired e m h = ground (
  arith,
  h,
  (has-real_events fired).1,
  (has-real_events (bit_or fired (bit_and 5 e))).1,
  has-bit_or-write fired (bit_and 5 e),
  waited_write e m,
)

pub real_events-IsMask : (fired events : ℕ) → IsMask (real_events fired events)
unfolding real_events
real_events-IsMask fired events = ground arith

-- What `idle` leaves of the mask.
pub clear-still_waiting :
    (fired e : ℕ)
    → IsMask e
    → Expects fired e read
    → Expects fired e write
    → clear e (real_events fired e) ≡ still_waiting fired e
clear-still_waiting fired e m hr hw =
    let (left, reads, writes, zero) =
      clear_lem e (real_events fired e) m (real_events-IsMask fired e) in
    let (mask, r, w) =
      has-mask_of (has e read && not (is_ready fired e read))
        (has e write && not (is_ready fired e write)) in
    mask_ext (clear e (real_events fired e)) (still_waiting fired e) left mask
      (reads ∙ (ap (λ b. has e read && not b) (real_read-is_ready fired e m hr) ∙ sym r))
      (writes ∙ (ap (λ b. has e write && not b) (real_write-is_ready fired e m hw) ∙ sym w))

has-registered : (e : ℕ) (ev : Event) → IsMask e → has (bit_or epollet e) ev ≡ has e ev
unfolding has
has-registered e none_event m =
    mask_cases (λ e. has (bit_or epollet e) none_event ≡ has e none_event) e m refl refl refl refl
has-registered e ev m =
    mask_cases (λ e. has (bit_or epollet e) ev ≡ has e ev) e m refl refl refl refl

pub known :
    (events mask : ℕ) (ev : Event)
    → IsMask events
    → mask ≡ bit_or epollet events
    → has mask ev ≡ true
    → has events ev ≡ true
known events mask ev m e h = sym (has-registered events ev m) ∙ (sym (ap (λ k. has k ev) e) ∙ h)

-- What is registered for a context that waits for some event.
pub asked_for : (events mask : ℕ) → registration events ≡ some mask → mask ≡ bit_or epollet events
asked_for events mask e = ground (arith, e)
