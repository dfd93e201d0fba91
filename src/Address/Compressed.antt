-- ===== src/Address/Compressed.antt =====
-- The short form of IPv6 addresses (src/address.cc).
use lt.Base.{
  ℕ, zero, suc, ◌≡◌, refl, sym, ap, ◌∙◌, Bool, true, false, not, ◌&&◌, List, [], ◌∷◌, ◌++◌, ◌==◌,
  if_false, arith, append_assoc, append_nil, contains, not-true,
}
use lt.Address.Lookup.{open_bracket, close_bracket, colon}
use lt.Address.Masks.{zeros}
use lt.Address.Text.{last, insert_loop, insert}

-- A nonzero first group, or none.
unfoldable pub starts_nonzero : List ℕ → Bool
starts_nonzero [] = true
starts_nonzero (g ∷ _) = not (g == 0)

last-zeros : (n : ℕ) → last (zeros (suc n)) ≡ 0
unfolding last zeros
last-zeros zero = refl
last-zeros (suc n) = last-zeros n

last-append : (g : ℕ) (xs ys : List ℕ) → last (xs ++ g ∷ ys) ≡ last (g ∷ ys)
unfolding last
last-append g [] ys = refl
last-append g (x ∷ []) ys = refl
last-append g (x ∷ y ∷ xs) ys = last-append g (y ∷ xs) ys

module _ (hex : ℕ → List ℕ) where
  -- Groups that follow others, each after a colon.
  pub rest : List ℕ → List ℕ
  rest [] = []
  rest (g ∷ gs) = colon ∷ (hex g ++ rest gs)

  -- Groups with colons between them.
  pub join : List ℕ → List ℕ
  unfolding rest
  join [] = []
  join (g ∷ gs) = hex g ++ rest gs

  -- Once the zeros are used, each group is written.
  loop_used : (p : ℕ) (gs : List ℕ) → insert_loop hex true p true gs ≡ (rest gs, true)
  unfolding insert_loop rest
  loop_used p [] = refl
  loop_used p (g ∷ gs) =
      if_false ((g == 0) && false) _ _ (ground arith)
      ∙ (if_false ((p == 0) && false) _ _ (ground arith)
          ∙ ap (λ (r : List ℕ × Bool). (colon ∷ (hex g ++ r.0), r.1)) (loop_used g gs))

  -- A first run of zeros is skipped.
  loop_zeros :
      (later : Bool) (p n : ℕ) (post : List ℕ)
      → insert_loop hex later p false (zeros (suc n) ++ post) ≡ insert_loop hex true 0 false post
  unfolding insert_loop zeros
  loop_zeros later p zero post = refl
  loop_zeros later p (suc n) post = loop_zeros true 0 n post

  -- Groups that are not zero are written, before the zeros.
  loop_front :
      (p : ℕ) (front after : List ℕ)
      → (p == 0) ≡ false
      → contains front 0 ≡ false
      → (q : ℕ) × ((q == 0) ≡ false)
        × (insert_loop hex true p false (front ++ after)
            ≡ (let (text, used) = insert_loop hex true q false after in (rest front ++ text, used)))
  unfolding insert_loop rest
  loop_front p [] after nz lacks = (p, nz, refl)
  loop_front p (g ∷ gs) after nz lacks =
      let (q, z, e) = loop_front g gs after (ground arith) (ground arith) in
      (
        q,
        z,
        if_false ((g == 0) && true) _ _ (ground arith)
            ∙ (if_false ((p == 0) && true) _ _ (ground arith)
                ∙ (ap (λ (r : List ℕ × Bool). (colon ∷ (hex g ++ r.0), r.1)) e
                    ∙ ap (λ xs. (colon ∷ xs, (insert_loop hex true q false after).1))
                        (sym (
                          append_assoc (hex g) (rest gs) (insert_loop hex true q false after).0)))),
      )

  -- After the zeros.
  loop_back :
      (g : ℕ) (gs : List ℕ)
      → (g == 0) ≡ false
      → insert_loop hex true 0 false (g ∷ gs) ≡ (colon ∷ rest (g ∷ gs), true)
  unfolding insert_loop rest
  loop_back g gs nz =
      if_false ((g == 0) && true) _ _ (ground arith)
      ∙ ap (λ (r : List ℕ × Bool). (colon ∷ (colon ∷ (hex g ++ r.0)), r.1)) (loop_used g gs)

  -- The loop, by what stands before the zeros.
  loop_start :
      (front : List ℕ) (n : ℕ) (post : List ℕ)
      → contains front 0 ≡ false
      → insert_loop hex false 0 false (front ++ (zeros (suc n) ++ post))
        ≡ (let (text, used) = insert_loop hex true 0 false post in (join front ++ text, used))
  unfolding insert_loop join
  loop_start [] n post lacks = loop_zeros false 0 n post
  loop_start (g ∷ gs) n post lacks =
      let (q, z, e) = loop_front g gs (zeros (suc n) ++ post) (ground arith) (ground arith) in
      let end = insert_loop hex true 0 false post in
      if_false ((g == 0) && true) _ _ (ground arith)
      ∙ (ap (λ (r : List ℕ × Bool). (hex g ++ r.0, r.1))
            (e ∙ ap (λ (r : List ℕ × Bool). (rest gs ++ r.0, r.1)) (loop_zeros true q n post))
          ∙ ap (λ xs. (xs, end.1)) (sym (append_assoc (hex g) (rest gs) end.0)))

  -- The text with the first run of zeros, which is not empty, written as `::`.
  pub short : (ℕ → List ℕ) → List ℕ → List ℕ → ℕ → List ℕ
  unfolding join
  short dec front post port =
      open_bracket
      ∷ (join front ++ (colon ∷ colon ∷ (join post ++ (close_bracket ∷ colon ∷ dec port))))

  -- `insert` writes the groups of an IPv6 address with the first run of zeros as `::`, wherever it
  -- stands, and all others, in brackets and with the port.
  pub insert-short :
      (dec : ℕ → List ℕ) (front post : List ℕ) (n port : ℕ)
      → contains front 0 ≡ false
      → starts_nonzero post ≡ true
      → insert hex dec (front ++ (zeros (suc n) ++ post)) port ≡ short dec front post port
  unfolding insert short starts_nonzero join insert_loop zeros
  insert-short dec front [] n port lacks one =
      let tail : List ℕ = close_bracket ∷ colon ∷ dec port in
      let ends : last (front ++ (zeros (suc n) ++ [])) ≡ 0 =
        last-append 0 front (zeros n ++ [])
        ∙ (ap last (append_nil (zeros (suc n))) ∙ last-zeros n) in
      rw (loop_start front n [] lacks, ends)
        (ap (λ xs. open_bracket ∷ (xs ++ (colon ∷ colon ∷ tail))) (append_nil (join front)))
  insert-short dec front (g ∷ gs) n port lacks one =
      let tail : List ℕ = close_bracket ∷ colon ∷ dec port in
      let text =
        loop_start front n (g ∷ gs) lacks
        ∙ ap (λ (x : List ℕ × Bool). (join front ++ x.0, x.1)) (loop_back g gs (not-true _ one)) in
      rw text (
        ap (◌∷◌ open_bracket) (append_assoc (join front) (colon ∷ colon ∷ (hex g ++ rest gs)) tail))
