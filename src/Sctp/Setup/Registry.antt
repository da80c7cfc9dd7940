-- ===== src/Sctp/Setup/Registry.antt =====
-- RuruSctp.cpp, the constructor: what it leaves when it succeeds, and when it fails.
use ruru.Base.{
  ℕ, ◌≡◌, ◌≢◌, refl, ◌⊎◌, inl, inr, false, List, [], ◌∷◌, Option, none, some, Bool-cases,
}
use ruru.Sctp.Setup.{
  Pointer, sctp_of, client_of, SocketOption, SetupCalls, Transport, Usr, usrsctp_start_init,
  set_options, socket_options, configure_sctp_socket, close_sctp_socket, listen_or_close,
  open_socket, new_sctp,
}

-- The addresses that usrsctp knows. Only the two functions for it add one and take one away.
pub record Registry {L : Type 0} (calls : SetupCalls L) : Type 1 where
  pub Knows : L → Pointer → Type 0
  pub adds : (p : Pointer) (s : L) → Knows (calls.register p s) p
  pub leaves_others : (p q : Pointer) (s : L) → p ≢ q → Knows s p → Knows (calls.deregister q s) p
  pub set_non_blocking :
      (sock : ℕ) (s : L) (p : Pointer) → Knows s p → Knows (calls.set_non_blocking sock s).1 p
  pub setsockopt :
      (sock : ℕ) (o : SocketOption) (s : L) (p : Pointer)
      → Knows s p
      → Knows (calls.setsockopt sock o s) p
  pub bind :
      (sock port : ℕ) (at : Pointer) (s : L) (p : Pointer)
      → Knows s p
      → Knows (calls.bind sock port at s).1 p
  pub listen : (sock : ℕ) (s : L) (p : Pointer) → Knows s p → Knows (calls.listen sock s).1 p
  pub close : (sock : ℕ) (s : L) (p : Pointer) → Knows s p → Knows (calls.close sock s) p

-- Not initialised without a socket; with one, the flag says that no association is up.
abbrev pub Opened : Transport → Type 0
Opened t =
    ((t.sock ≡ none) × (t.hand_shake_done ≡ none))
    ⊎ ((s : ℕ) × (t.sock ≡ some s) × (t.hand_shake_done ≡ some false))

module _ {L : Type 0} (calls : SetupCalls L) where
  listen_or_close-Opened :
      (self sock : ℕ) (u : Usr calls) → Opened (listen_or_close calls self sock u).0
  unfolding listen_or_close close_sctp_socket
  listen_or_close-Opened self sock u = elim (Bool-cases (calls.listen sock u.stack).0) [
    | inl ok ↦ rw ok (inr (sock, refl, refl))
    | inr failed ↦ rw failed (inl (refl, refl))
  ]

  open_socket-Opened :
      (self : ℕ) (sock : Option ℕ) (u : Usr calls) → Opened (open_socket calls self sock u).0
  unfolding open_socket close_sctp_socket
  open_socket-Opened self none u = inl (refl, refl)
  open_socket-Opened self (some sock) u =
      elim (Bool-cases
        (configure_sctp_socket calls self sock (calls.register (sctp_of self) u.stack)).0) [
          | inl ok ↦ rw ok (listen_or_close-Opened self sock _)
          | inr failed ↦ rw failed (inl (refl, refl))
        ]

  -- The constructor of RuruSctp leaves a socket and a `bHandShakeDone` that is false, or neither a socket nor a
  -- `bHandShakeDone` that is initialised.
  pub new_sctp-Opened : (self : ℕ) (u : Usr calls) → Opened (new_sctp calls self u).0
  unfolding new_sctp
  new_sctp-Opened self u =
      open_socket-Opened self (calls.socket (usrsctp_start_init calls u).stack).0
        (record (usrsctp_start_init calls u) {
          stack = (calls.socket (usrsctp_start_init calls u).stack).1;
        })

  -- After one call of `UsrsctpStartInit` a second does nothing: usrsctp is initialised once.
  pub usrsctp_start_init_idempotent :
      (u : Usr calls)
      → usrsctp_start_init calls (usrsctp_start_init calls u) ≡ usrsctp_start_init calls u
  unfolding usrsctp_start_init
  usrsctp_start_init_idempotent u = elim (Bool-cases u.usrsctp_init) [
    | inl on ↦ rw on refl
    | inr off ↦ rw off refl
  ]

sctp-ne-client : (i j : ℕ) → sctp_of i ≢ client_of j
sctp-ne-client i j e = cc

module _ {L : Type 0} (calls : SetupCalls L) (reg : Registry calls) (p : Pointer) where
  set_options-Knows :
      (sock : ℕ) (os : List SocketOption) (s : L)
      → reg.Knows s p
      → reg.Knows (set_options calls sock os s) p
  set_options-Knows sock [] s k = k
  set_options-Knows sock (o ∷ os) s k = set_options-Knows sock os _ (reg.setsockopt sock o s p k)

  configure_sctp_socket-Knows :
      (self sock : ℕ) (s : L)
      → reg.Knows s p
      → reg.Knows (configure_sctp_socket calls self sock s).1 p
  unfolding configure_sctp_socket
  configure_sctp_socket-Knows self sock s k =
      let after = reg.set_non_blocking sock s p k in
      elim (Bool-cases (calls.set_non_blocking sock s).0) [
        | inl ok ↦
            rw ok (
              reg.bind sock 5001 (sctp_of self) _ p (set_options-Knows sock socket_options _ after))
        | inr failed ↦ rw failed after
      ]

module _ {L : Type 0} (calls : SetupCalls L) (reg : Registry calls) (self : ℕ) where
  close_sctp_socket-Knows :
      (sock : ℕ) (s : L)
      → reg.Knows s (sctp_of self)
      → reg.Knows (close_sctp_socket calls self (some sock) s).1 (sctp_of self)
  unfolding close_sctp_socket
  close_sctp_socket-Knows sock s k =
      reg.leaves_others (sctp_of self) (client_of self) _ (sctp-ne-client self self)
        (reg.close sock s (sctp_of self) k)

  listen_or_close-Knows :
      (sock : ℕ) (u : Usr calls)
      → reg.Knows u.stack (sctp_of self)
      → reg.Knows (listen_or_close calls self sock u).1.stack (sctp_of self)
  unfolding listen_or_close
  listen_or_close-Knows sock u k =
      let after = reg.listen sock u.stack (sctp_of self) k in
      elim (Bool-cases (calls.listen sock u.stack).0) [
        | inl ok ↦ rw ok after
        | inr failed ↦ rw failed (close_sctp_socket-Knows sock _ after)
      ]

  open_socket-Knows :
      (sock : ℕ) (u : Usr calls)
      → reg.Knows (open_socket calls self (some sock) u).1.stack (sctp_of self)
  unfolding open_socket
  open_socket-Knows sock u =
      let after =
        configure_sctp_socket-Knows calls reg (sctp_of self) self sock _
          (reg.adds (sctp_of self) u.stack) in
      elim (Bool-cases
        (configure_sctp_socket calls self sock (calls.register (sctp_of self) u.stack)).0) [
          | inl ok ↦ rw ok (listen_or_close-Knows sock _ after)
          | inr failed ↦ rw failed (close_sctp_socket-Knows sock _ after)
        ]

  -- Once `usrsctp_socket` has given a socket, usrsctp knows the transport's address when the
  -- constructor returns, also where it has failed and closed the socket.
  pub new_sctp-Knows :
      (sock : ℕ) (u : Usr calls)
      → (calls.socket (usrsctp_start_init calls u).stack).0 ≡ some sock
      → reg.Knows (new_sctp calls self u).1.stack (sctp_of self)
  unfolding new_sctp
  new_sctp-Knows sock u got = rw got (open_socket-Knows sock _)
