-- ===== src/TcpServer/Binding.antt =====
-- `bind` of several addresses against the single attempts (src/tcp_server.cc).
use lt.Base.{
  append_assoc, append_nil, ℕ, ◌≡◌, ◌≢◌, ◌↔◌, refl, ◌∙◌, Bool, true, false, List, [], ◌∷◌, ◌++◌,
  arith, if◌then◌else◌, is_empty, if_cases, length, Bool-cases, inl, inr,
}
use lt.TcpServer.{Sockets, TcpServer, try_bind, bind_loop, bind}

empty_nil : {A : Type 0} (xs : List A) → is_empty xs ≡ true → xs ≡ []
empty_nil [] e = refl
empty_nil (x ∷ xs) e = cc

nil_empty : {A : Type 0} (xs : List A) → xs ≡ [] → is_empty xs ≢ false
nil_empty [] e h = cc
nil_empty (x ∷ xs) e h = cc

right_nil : {A : Type 0} (xs ys : List A) → xs ++ ys ≡ [] → ys ≡ []
right_nil [] ys e = e
right_nil (x ∷ xs) ys e = cc

module _ (N : Sockets) where
  open N use {State}

  -- The attempts for the addresses one after the other: those that failed, the sockets of the others.
  pub failed : List ℕ → State → List ℕ
  failed [] k = []
  failed (addr ∷ addrs) k =
      let rest = failed addrs (try_bind N addr k).2 in
      if (try_bind N addr k).0 then rest else addr ∷ rest

  pub listening : List ℕ → State → List ℕ
  listening [] k = []
  listening (addr ∷ addrs) k =
      let rest = listening addrs (try_bind N addr k).2 in
      if (try_bind N addr k).0 then (try_bind N addr k).1 ∷ rest else rest

  pub after : List ℕ → State → State
  after [] k = k
  after (addr ∷ addrs) k = after addrs (try_bind N addr k).2

  bind_loop_lem :
      (addrs fails : List ℕ) (m : TcpServer N)
      → bind_loop N addrs fails m ≡ (
        fails ++ failed addrs m.net,
        record m { socks = m.socks ++ listening addrs m.net; net = after addrs m.net },
      )
  unfolding bind_loop failed listening after
  bind_loop_lem [] fails m = rw (append_nil fails, append_nil m.socks) refl
  bind_loop_lem (addr ∷ addrs) fails m = elim (Bool-cases (try_bind N addr m.net).0) [
    | inl e ↦ rw e (bind_loop_lem addrs fails _ ∙ rw append_assoc refl)
    | inr e ↦ rw e (bind_loop_lem addrs (fails ++ addr ∷ []) _ ∙ rw append_assoc refl)
  ]

  length-listening :
      (addrs : List ℕ) (k : State) → failed addrs k ≡ [] → length (listening addrs k) ≡ length addrs
  unfolding failed listening
  length-listening [] k e = refl
  length-listening (addr ∷ addrs) k e = ground (arith, length-listening addrs (try_bind N addr k).2)

  -- `bind` tries every address. It reports exactly the addresses for which that failed, after those
  -- that the caller's list held before, and returns true exactly if that list is then empty: the
  -- server listens on a new socket for each address, next to those it had. Else it listens nowhere.
  pub bind_outcome :
      (addrs fails : List ℕ) (m : TcpServer N)
      → let r = bind N addrs fails m in
        (r.1 ≡ fails ++ failed addrs m.net)
        × ((r.0 ≡ true) ↔ (fails ++ failed addrs m.net ≡ []))
        × (r.0 ≡ true
            → (r.2.socks ≡ m.socks ++ listening addrs m.net)
              × (length (listening addrs m.net) ≡ length addrs))
        × (r.0 ≡ false → r.2.socks ≡ [])
  unfolding bind
  bind_outcome addrs fails m = rw (bind_loop_lem addrs fails m) (
      if_cases Outcome (is_empty reported) _ _
        (λ e. (
          refl,
          ((λ _. empty_nil reported e), (λ _. refl)),
          (λ _. (refl, length-listening addrs m.net (right_nil fails _ (empty_nil reported e)))),
          (λ h. cc),
        ))
        (λ e. (refl, ((λ h. cc), (λ h. absurd (nil_empty reported h e))), (λ h. cc), (λ _. refl))))
    where
      reported : List ℕ
      reported = fails ++ failed addrs m.net

      Outcome : Bool × List ℕ × TcpServer N → Type 0
      Outcome r =
          (r.1 ≡ reported)
          × ((r.0 ≡ true) ↔ (reported ≡ []))
          × (r.0 ≡ true
              → (r.2.socks ≡ m.socks ++ listening addrs m.net)
                × (length (listening addrs m.net) ≡ length addrs))
          × (r.0 ≡ false → r.2.socks ≡ [])
