-- ===== src/Socket/Life.antt =====
-- What the calls of a socket leave (src/socket.cc).
use lt.Base.{
  ℕ, ◌≡◌, refl, sym, ap, ◌∙◌, Bool, true, false, not, ◌&&◌, u64_max, Option, none, some, ◌==◌,
  ==_iff, if◌then◌else◌, arith, ℤ, negsuc, Bool-cases, inl, inr,
}
use lt.Socket.{
  Address, Net, Socket, is_none, is_valid, new_socket, get_local_address, get_remote_address, close,
  made_valid, connect_ended, connect_call, connect, new_sock, bind, init, accept, Transfer,
  transfer,
}

module _ (N : Net) where
  open N use {State}

  -- The state that `close` reaches.
  abbrev Over : Socket → Type 0
  Over s = (is_none s.sock ≡ true) × (s.is_connected ≡ false)

  close-Over : (s : Socket) (k : State) → Over (close N s k).1
  unfolding close
  close-Over s k = ground arith

  close_again : (s : Socket) (k : State) → Over s → close N s k ≡ (true, s, k)
  unfolding close
  close_again s k (v, c) = ground arith

  close-remote : (s : Socket) (k : State) → (close N s k).1.remote_address ≡ s.remote_address
  unfolding close
  close-remote s k = ground arith

  close_calls :
      (s : Socket) (k : State) → (close N s k).2 ≡ (if is_valid s then N.close s.sock k else k)
  unfolding close
  close_calls s k = ground arith

  -- After `close` a socket has no handle and is not connected: a second `close` does nothing and
  -- answers true, and sending or receiving answers -1 without a system call. A handle is closed
  -- exactly if there is one.
  pub close_once :
      (s : Socket) (k : State)
      → let r = close N s k in
        (is_valid r.1 ≡ false)
        × (r.1.is_connected ≡ false)
        × (close N r.1 r.2 ≡ (true, r.1, r.2))
        × ((t : Transfer) (buffer : ℕ) → transfer N t buffer r.1 r.2 ≡ (negsuc 0, r.2))
        × (r.2 ≡ (if is_valid s then N.close s.sock k else k))
  unfolding transfer
  close_once s k =
      let (v, c) = close-Over s k in
      (ground arith, c, close_again _ _ (v, c), (λ t b. ground arith), close_calls s k)

  get_local_address-kept :
      (s : Socket) (k : State)
      → let s' = (get_local_address N s k).1 in
        (s'.sock ≡ s.sock)
        × (s'.family ≡ s.family)
        × (s'.is_connected ≡ s.is_connected)
        × (s'.remote_address ≡ s.remote_address)
  unfolding get_local_address
  get_local_address-kept s k = (ground arith, ground arith, ground arith, ground arith)

  get_remote_address-kept :
      (s : Socket) (k : State) (a : Address)
      → s.remote_address ≡ some a
      → (get_remote_address N s k).1 ≡ s
  unfolding get_remote_address
  get_remote_address-kept s k a e = rw e refl

  -- What `connect` answers about the socket `s'` that it leaves.
  pub record Connected (addr : Address) (s s' : Socket) (ok : Bool) : Type 0 where
    pub made :
        ok ≡ true → (is_valid s' ≡ true) × (s'.is_connected ≡ true) × (s'.family ≡ addr.family)
    pub refused : ok ≡ false → s.family ≡ addr.family → is_valid s' ≡ false
    pub never : ok ≡ false → s.is_connected ≡ false → s'.is_connected ≡ false
    pub remote : s'.remote_address ≡ some addr

  Connected-from :
      {addr : Address} {s s₁ s' : Socket} {ok : Bool}
      → Connected addr s₁ s' ok
      → s₁.family ≡ s.family
      → s₁.is_connected ≡ s.is_connected
      → Connected addr s s' ok
  Connected-from q f c = record {
    made = q.made;
    refused = λ e h. q.refused e (f ∙ h);
    never = λ e n. q.never e (c ∙ n);
    remote = q.remote;
  }

  made_valid-kept :
      (s : Socket) (k : State)
      → let s' = (made_valid N s k).0 in
        (s'.family ≡ s.family)
        × (s'.is_connected ≡ s.is_connected)
        × (s'.remote_address ≡ s.remote_address)
        × (s'.local_address ≡ s.local_address)
  unfolding made_valid new_sock
  made_valid-kept s k = (ground arith, ground arith, ground arith, ground arith)

  -- With a handle, after the call.
  connect_ended-Connected :
      (addr : Address) (s : Socket) (ok : Bool) (k : State)
      → is_valid s ≡ true
      → s.family ≡ addr.family
      → s.remote_address ≡ some addr
      → let r = connect_ended N ok s k in Connected addr s r.1 r.0
  unfolding connect_ended
  connect_ended-Connected addr s true k v f r =
      let s₁ = record s { is_connected = true } in
      let same = get_remote_address-kept s₁ k addr r in
      let (a, b, c, d) = get_local_address-kept (get_remote_address N s₁ k).1 k in
      record {
        made = λ e. (
          ap (λ x. not (is_none x)) (a ∙ ap (λ (x : Socket). x.sock) same) ∙ v,
          c ∙ ap (λ (x : Socket). x.is_connected) same,
          b ∙ (ap (λ (x : Socket). x.family) same ∙ f),
        );
        refused = λ e f. ground arith;
        never = λ e c. ground arith;
        remote = d ∙ (ap (λ (x : Socket). x.remote_address) same ∙ r);
      }
  connect_ended-Connected addr s false k v f r =
      let (v', c') = close-Over s k in
      record {
        made = λ e. ground arith;
        refused = λ e f. ground arith;
        never = λ e c. c';
        remote = close-remote s k ∙ r;
      }

  connect-leaves :
      (addr : Address) (timeout_ms : ℕ) (s : Socket) (k : State)
      → let r = connect N addr timeout_ms s k in Connected addr s r.1 r.0
  unfolding connect connect_call
  connect-leaves addr timeout_ms s k =
      let s₀ = record s { remote_address = some addr } in
      let (f, c, r, _) = made_valid-kept s₀ k in
      let s₁ = (made_valid N s₀ k).0 in
      elim (Bool-cases (is_valid s₁)) [
        | inr v ↦ rw v (record {
          made = λ e. ground arith;
          refused = λ e g. v;
          never = λ e n. c ∙ n;
          remote = r;
        })
        | inl v ↦ elim (Bool-cases (addr.family == s₁.family)) [
          | inr g ↦
              rw (v, g)
                (record {
                  made = λ e. ground arith;
                  refused = λ e h. ground arith;
                  never = λ e n. c ∙ n;
                  remote = r;
                })
          | inl g ↦
              rw (v, g)
                (Connected-from (connect_ended-Connected addr s₁ _ _ v (sym ((==_iff _ _).0 g)) r) f
                  c)
        ]
      ]

  -- The answer of the system about the socket's handle, made first if there is none: false without
  -- a handle or if the address is of another family, else whether `::connect` succeeded, or
  -- `connect_with_timeout` if there is a timeout.
  abbrev pub answer : Address → ℕ → Socket → State → Bool
  answer addr timeout_ms s k =
      let (s₁, k₁) = made_valid N (record s { remote_address = some addr }) k in
      let asked =
        if timeout_ms == u64_max
        then N.connect s₁.sock addr k₁
        else N.connect_with_timeout s₁.sock addr timeout_ms k₁ in
      is_valid s₁ && (addr.family == s₁.family) && asked.0

  connect_ended-answer : (ok : Bool) (s : Socket) (k : State) → (connect_ended N ok s k).0 ≡ ok
  unfolding connect_ended
  connect_ended-answer true s k = refl
  connect_ended-answer false s k = refl

  connect-answer :
      (addr : Address) (timeout_ms : ℕ) (s : Socket) (k : State)
      → (connect N addr timeout_ms s k).0 ≡ answer addr timeout_ms s k
  unfolding connect connect_call
  connect-answer addr timeout_ms s k =
      let s₁ = (made_valid N (record s { remote_address = some addr }) k).0 in
      elim (Bool-cases (is_valid s₁)) [
        | inr v ↦ rw v refl
        | inl v ↦ elim (Bool-cases (addr.family == s₁.family)) [
          | inr g ↦ rw (v, g) refl
          | inl g ↦ rw (v, g) (connect_ended-answer _ s₁ _)
        ]
      ]

  -- `connect` answers true exactly if the socket has a handle, which it makes first if there is none,
  -- its family is that of the address, and `::connect`, or `connect_with_timeout` where there is a
  -- timeout, succeeds on the handle. Then the socket is connected. Where it answers false, a socket of
  -- the right family is left without a handle, and one that was not connected is not. It remembers
  -- the address either way.
  pub connect-Connected :
      (addr : Address) (timeout_ms : ℕ) (s : Socket) (k : State)
      → let r = connect N addr timeout_ms s k in
        Connected addr s r.1 r.0 × (r.0 ≡ answer addr timeout_ms s k)
  connect-Connected addr timeout_ms s k =
      (connect-leaves addr timeout_ms s k, connect-answer addr timeout_ms s k)

  -- `bind` remembers the address that it is given, whether it succeeds or not, and `getLocalAddress`
  -- then answers that address without asking the system: where the address has port 0, the port that
  -- the system chose is never seen.
  pub bind-get_local_address :
      (addr : Address) (s : Socket) (k k' : State)
      → let r = bind N addr s k in get_local_address N r.1 k' ≡ (addr, r.1)
  unfolding bind
  bind-get_local_address addr s k k' = ground arith

  -- `init` asks for both addresses, one after the other.
  addresses-kept :
      (s : Socket) (k : State)
      → let s' = (get_remote_address N (get_local_address N s k).1 k).1 in
        (s'.sock ≡ s.sock)
        × (s'.is_connected ≡ s.is_connected)
        × (s'.family ≡ s.family)
        × (s'.type ≡ s.type)
  unfolding get_local_address get_remote_address
  addresses-kept s k = (ground arith, ground arith, ground arith, ground arith)

  -- What `accept` answers, over the handle `fd` that the system gave and the state after that.
  pub data Accepted (s : Socket) (fd : ℤ) (k : State) : Option Socket × State → Type 0 where
    client :
        (c : Socket) (k' : State)
        → is_none fd ≡ false
        → N.is_known fd k ≡ true
        → c.sock ≡ fd
        → c.is_connected ≡ true
        → c.family ≡ s.family
        → c.type ≡ s.type
        → Accepted s fd k (some c, k')
    no_handle : is_none fd ≡ true → Accepted s fd k (none, k)
    leaked : is_none fd ≡ false → N.is_known fd k ≡ false → Accepted s fd k (none, k)

  -- `accept` answers a connected socket of the listener's family and type for the handle that the
  -- system gave, or null: if there is no handle, or if the handle manager does not know it, and then
  -- the handle stays open, for the system is in the state in which it gave the handle.
  pub accept-Accepted :
      (s : Socket) (k : State) → let (fd, k₁) = N.accept s.sock k in Accepted s fd k₁ (accept N s k)
  unfolding accept init
  accept-Accepted s k =
      let (fd, k₁) = N.accept s.sock k in
      elim (Bool-cases (is_none fd)) [
        | inl n ↦ rw n (no_handle n)
        | inr n ↦ elim (Bool-cases (N.is_known fd k₁)) [
          | inr m ↦ rw (n, m) (leaked n m)
          | inl m ↦
              rw (n, m)
                (let (a, b, c, d) =
                    addresses-kept
                      (record (new_socket s.family s.type s.protocol) {
                        sock = fd;
                        is_connected = true;
                      })
                      _ in
                  client _ _ n m a b c d)
        ]
      ]
