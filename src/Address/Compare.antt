-- ===== src/Address/Compare.antt =====
-- How addresses are compared (src/address.cc): by the bytes of their `sockaddr`, then by length.
use lt.Base.{
  ℕ, zero, suc, Bool, true, false, not, ◌&&◌, List, [], ◌∷◌, ◌==◌, if◌then◌else◌, ltb, leb, length,
}

-- The sign of `memcmp`.
pub data Sign : Type 0 where
  below same above : Sign

-- `memcmp` of the first bytes of two buffers that have as many.
unfoldable pub memcmp : ℕ → List ℕ → List ℕ → Sign
memcmp zero a b = same
memcmp (suc n) [] b = same
memcmp (suc n) (x ∷ xs) [] = same
memcmp (suc n) (x ∷ xs) (y ∷ ys) =
    let rest = memcmp n xs ys in if ltb x y then below else if ltb y x then above else rest

-- `std::min`.
unfoldable pub min : ℕ → ℕ → ℕ
min m n = if leb m n then m else n

-- The tests after `memcmp`, with the two lengths.
unfoldable pub decide : Sign → ℕ → ℕ → Bool
decide below m n = true
decide above m n = false
decide same m n = ltb m n

-- `operator<`.
unfoldable pub less : List ℕ → List ℕ → Bool
unfolding memcmp min decide
less a b = decide (memcmp (min (length a) (length b)) a b) (length a) (length b)

-- `operator==` and `operator!=`.
unfoldable pub is_same : Sign → Bool
is_same below = false
is_same same = true
is_same above = false

unfoldable pub equal : List ℕ → List ℕ → Bool
unfolding memcmp is_same
equal a b = length a == length b && is_same (memcmp (length a) a b)

unfoldable pub unequal : List ℕ → List ℕ → Bool
unfolding equal
unequal a b = not (equal a b)
