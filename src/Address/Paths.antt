-- ===== src/Address/Paths.antt =====
-- The path of a Unix address (src/address.cc).
use lt.Base.{
  ℕ, suc, ◌+◌, ◌-◌, ◌<◌, ◌≤◌, ◌≡◌, ◌≢◌, refl, sym, ap, ◌∙◌, false, ◌&&◌, List, [], ◌∷◌, ◌++◌, none,
  some, ◌==◌, if_true, if_false, arith, ltb, length, length-append, append_assoc, append_nil, take,
  contains,
}
use lt.Address.Masks.{zeros}
use lt.Address.Unix.{UnixAddress, offset, is_abstract, new_unix, c_string, get_path}

take-append : (xs ys : List ℕ) → take (length xs) (xs ++ ys) ≡ xs
take-append [] ys = refl
take-append (x ∷ xs) ys = ap (λ zs. x ∷ zs) (take-append xs ys)

c_string-append : (xs ys : List ℕ) → contains xs 0 ≡ false → c_string (xs ++ 0 ∷ ys) ≡ xs
unfolding c_string
c_string-append [] ys lacks = refl
c_string-append (x ∷ xs) ys lacks =
    if_false (x == 0) _ _ (ground arith) ∙ ap (λ zs. x ∷ zs) (c_string-append xs ys (ground arith))

take_append : (n : ℕ) (xs ys : List ℕ) → length xs ≡ n → take n (xs ++ ys) ≡ xs
take_append n xs ys e = ap (λ m. take m (xs ++ ys)) (sym e) ∙ take-append xs ys

file_path :
    (path : List ℕ)
    → path ≢ []
    → contains path 0 ≡ false
    → length path < 108
    → (a : UnixAddress) × (new_unix path ≡ some a) × (get_path a ≡ path)
unfolding new_unix get_path is_abstract
file_path [] ne lacks lt = absurd (ne refl)
file_path (c ∷ cs) ne lacks lt =
    let path = c ∷ cs in
    let n = suc (length cs) + 1 in
    let text : c == 0 ≡ false = ground arith in
    let size : length (path ++ 0 ∷ []) ≡ n = omega (arith, length-append cs (0 ∷ [])) in
    let made : List ℕ → UnixAddress =
      λ xs. record { sun_path = xs ++ zeros (108 - n); length = n + offset } in
    (
      made (path ++ 0 ∷ []),
      rw text (
          if_false (ltb 108 n) _ _ (ground arith)
          ∙ ap (λ xs. some (made xs))
              (ap (take n) (sym (append_nil (path ++ 0 ∷ [])))
                ∙ take_append n (path ++ 0 ∷ []) [] size)),
      if_false (ltb offset (n + offset) && (c == 0)) _ _ (ground arith)
          ∙ (ap c_string (append_assoc path (0 ∷ []) (zeros (108 - n)))
              ∙ c_string-append path (zeros (108 - n)) lacks),
    )

abstract_path :
    (name : List ℕ)
    → length name < 108
    → (a : UnixAddress) × (new_unix (0 ∷ name) ≡ some a) × (get_path a ≡ 92 ∷ 48 ∷ name)
unfolding new_unix get_path is_abstract
abstract_path name lt =
    let n = suc (length name) in
    let made : List ℕ → UnixAddress =
      λ xs. record { sun_path = 0 ∷ (xs ++ zeros (108 - n)); length = n + offset } in
    (
      made name,
      if_false (ltb 108 n) _ _ (ground arith)
          ∙ ap (λ xs. some (made xs)) (take_append (length name) name (0 ∷ []) refl),
      if_true (ltb offset (n + offset) && (0 == 0)) _ _ (ground arith)
          ∙ ap (λ xs. 92 ∷ 48 ∷ xs) (take_append _ name (zeros (108 - n)) (omega arith)),
    )

too_long : (name : List ℕ) → 108 ≤ length name → new_unix (0 ∷ name) ≡ none
unfolding new_unix is_abstract
too_long name le = if_true (ltb 108 (suc (length name))) _ _ (ground arith)

-- A path is kept as it was given: that of a file, of 1 to 107 bytes without a zero, is read back; of
-- an abstract name, a zero and up to 107 bytes after it, the zero is read as the characters `\0`; a
-- longer abstract name is refused.
pub get_path-new_unix :
    (path : List ℕ)
    → (path ≢ []
        → contains path 0 ≡ false
        → length path < 108
        → (a : UnixAddress) × (new_unix path ≡ some a) × (get_path a ≡ path))
      × (length path < 108
          → (a : UnixAddress) × (new_unix (0 ∷ path) ≡ some a) × (get_path a ≡ 92 ∷ 48 ∷ path))
      × (108 ≤ length path → new_unix (0 ∷ path) ≡ none)
get_path-new_unix path = (file_path path, abstract_path path, too_long path)
