-- ===== src/Address/Text.antt =====
-- The text of an IPv6 address (src/address.cc). The eight groups are numbers, already in the order of
-- the machine; how a number is written, to the base 16 and to the base 10, is a parameter.
use lt.Base.{ℕ, Bool, true, false, not, ◌&&◌, List, [], ◌∷◌, ◌++◌, ◌==◌, if◌then◌else◌}
use lt.Address.Lookup.{open_bracket, close_bracket, colon}

-- `addr[7]`.
unfoldable pub last : List ℕ → ℕ
last [] = 0
last (g ∷ []) = g
last (g ∷ h ∷ gs) = last (h ∷ gs)

module _ (hex : ℕ → List ℕ) where
  -- The loop: whether `i` is not 0, `addr[i - 1]`, `used_zeros`, and the groups from `i` on. The result
  -- is what is written, and `used_zeros` after it.
  unfoldable pub insert_loop : Bool → ℕ → Bool → List ℕ → List ℕ × Bool
  insert_loop later previous used [] = ([], used)
  insert_loop later previous used (g ∷ gs) =
      let opens = later && previous == 0 && not used in
      let (text, used₁) = insert_loop true g used gs in
      let (text', used₂) = insert_loop true g true gs in
      let between = if later then colon ∷ [] else [] in
      if g == 0 && not used
      then (text, used₁)
      else if opens
      then (colon ∷ (between ++ (hex g ++ text')), used₂)
      else (between ++ (hex g ++ text), used₁)

  -- `IPv6Address::insert`; `dec` writes the port.
  unfoldable pub insert : (ℕ → List ℕ) → List ℕ → ℕ → List ℕ
  unfolding insert_loop last
  insert dec addr port =
      let (text, used_zeros) = insert_loop false 0 false addr in
      let zeros = if not used_zeros && last addr == 0 then colon ∷ colon ∷ [] else [] in
      open_bracket ∷ (text ++ (zeros ++ (close_bracket ∷ colon ∷ dec port)))
