-- ===== src/Sctp/Keeping.antt =====
-- RuruSctp.cpp and RuruClient.cpp: the invariant of Sctp.Sound over whole operations.
use ruru.Base.{
  ℕ, zero, suc, ◌≡◌, refl, sym, Bool, true, false, List, [], ◌∷◌, Option, none, some, arith, Bytes,
  length, ltb, leb_ℤ, ℤ, ◌==◌, Run, done, ◌>>=◌, Post, Post-bind, Bool-cases, inl, inr, if-true,
  if-false,
}
use mathlib.Core.Path.{subst}
use ruru.Event.{Message}
use ruru.Dtls.{Tls, ssl_error_want_read}
use ruru.Client.{set_ssl}
use ruru.Sctp.{Usrsctp, SendResult, sent, error, eagain}
use ruru.Sctp.Send.{
  State, sendv, drop_socket, after_cached, next_round, send_cache, send_sctp_cache_data, after_sent,
  send_behind_cache, send_usr_sctp_data, push_msg_2client_cache, at_front, accept_msg, pop_cache,
}
use ruru.Sctp.Receive.{
  take_association, accept_association, recv_usr_sctp_data, read_record, read_records,
  continue_hand_shake, handle_dtls_packet,
}
use ruru.Sctp.Sound.{IsKept, IsKept-same, run_upcalls-IsKept, client_send_pending_dtls-IsKept}

module _ (tls : Tls) (lib : Usrsctp) (k : ℕ) where
  abbrev Kept : State tls lib → Type 0
  Kept = IsKept k

  abbrev KeptAt : {A : Type 0} → A × State tls lib → Type 0
  KeptAt r = Kept r.1

  -- A step that touches none of it.
  abbrev still :
      (n : State tls lib)
      → Kept n
      → (m : State tls lib) → m.client.heart_beat_ring ≡ n.client.heart_beat_ring
      → m.que ≡ n.que
      → m.self ≡ n.self
      → Kept m
  still n h m a b c = IsKept-same k n m a b c h

  sendv-IsKept : (msg : Message) (n : State tls lib) → Kept n → Post KeptAt (sendv tls lib msg n)
  unfolding sendv
  sendv-IsKept msg n h =
      Post-bind Kept KeptAt _ _ (run_upcalls-IsKept tls k _ _ (still n h _ refl refl refl)) λ m q. q

  drop_socket-IsKept : (n : State tls lib) → Kept n → Post Kept (drop_socket tls lib n)
  unfolding drop_socket
  drop_socket-IsKept n h =
      Post-bind Kept Kept _ _ (run_upcalls-IsKept tls k _ _ (still n h _ refl refl refl))
        λ m q. still m q _ refl refl refl

  pop_cache-same :
      (n : State tls lib)
      → ((pop_cache n).client.heart_beat_ring ≡ n.client.heart_beat_ring)
        × ((pop_cache n).que ≡ n.que)
        × ((pop_cache n).self ≡ n.self)
  pop_cache-same n = (ground arith, ground arith, ground arith)

  after_cached-IsKept :
      (msg : Message) (res : SendResult) (n : State tls lib)
      → Kept n
      → Post KeptAt (after_cached tls lib msg res n)
  unfolding after_cached
  after_cached-IsKept msg sent n h =
      let (a, b, c) = pop_cache-same n in still n h (accept_msg msg (pop_cache n)) a b c
  after_cached-IsKept msg (error errno) n h = elim (Bool-cases (errno == eagain)) [
    | inl again ↦ subst (Post KeptAt) (sym (if-true _ _ again)) h
    | inr fatal ↦
        subst (Post KeptAt) (sym (if-false _ _ fatal))
          (Post-bind Kept KeptAt _ _ (drop_socket-IsKept n h) λ m q. q)
  ]

  after_sent-IsKept :
      (msg : Message) (res : SendResult) (n : State tls lib)
      → Kept n
      → Post KeptAt (after_sent tls lib msg res n)
  unfolding after_sent push_msg_2client_cache
  after_sent-IsKept msg sent n h = still n h (accept_msg msg n) refl refl refl
  after_sent-IsKept msg (error errno) n h = elim (Bool-cases (errno == eagain)) [
    | inl again ↦ subst (Post KeptAt) (sym (if-true _ _ again)) (still n h _ refl refl refl)
    | inr fatal ↦
        subst (Post KeptAt) (sym (if-false _ _ fatal))
          (Post-bind Kept KeptAt _ _ (drop_socket-IsKept n h) λ m q. q)
  ]

  next_round-IsKept :
      (go : State tls lib → Run (Bool × State tls lib))
      → ((n : State tls lib) → Kept n → Post KeptAt (go n))
      → (r : Option Bool × State tls lib) → KeptAt r
      → Post KeptAt (next_round tls lib go r)
  unfolding next_round
  next_round-IsKept go on (none, n) h = on n h
  next_round-IsKept go on (some ok, n) h = h

  send_cache-IsKept :
      (fuel : ℕ) (n : State tls lib) → Kept n → Post KeptAt (send_cache tls lib fuel n)
  unfolding send_cache
  send_cache-IsKept zero n h = tt
  send_cache-IsKept (suc fuel) n h = front (send_cache-IsKept fuel) n.client.cache
    where
      go : Message → Run (Bool × State tls lib)
      go msg =
          sendv tls lib msg n
          >>= (λ r. after_cached tls lib msg r.0 r.1)
          >>= next_round tls lib (send_cache tls lib fuel)

      front :
          ((m : State tls lib) → Kept m → Post KeptAt (send_cache tls lib fuel m))
          → (c : List Message) → Post KeptAt (at_front c (done (true, n)) go)
      front on [] = h
      front on (msg ∷ _) =
          Post-bind KeptAt KeptAt _ _
            (Post-bind KeptAt KeptAt _ _ (sendv-IsKept msg n h)
              λ r q. after_cached-IsKept msg r.0 r.1 q)
            (next_round-IsKept (send_cache tls lib fuel) on)

  pub send_sctp_cache_data-IsKept :
      (n : State tls lib) → Kept n → Post KeptAt (send_sctp_cache_data tls lib n)
  unfolding send_sctp_cache_data
  send_sctp_cache_data-IsKept n h = elim (Bool-cases n.client.sctp_hand_shake_done) [
    | inl on ↦
        subst (Post KeptAt) (sym (if-true _ _ on))
          (send_cache-IsKept (suc (length n.client.cache)) n h)
    | inr off ↦ subst (Post KeptAt) (sym (if-false _ _ off)) h
  ]

  send_behind_cache-IsKept :
      (msg : Option Message) (status : Bool) (n : State tls lib)
      → Kept n
      → Post KeptAt (send_behind_cache tls lib msg status n)
  unfolding send_behind_cache push_msg_2client_cache
  send_behind_cache-IsKept none false n h = tt
  send_behind_cache-IsKept (some msg) false n h = still n h _ refl refl refl
  send_behind_cache-IsKept none true n h = h
  send_behind_cache-IsKept (some msg) true n h = elim (Bool-cases n.client.sctp_hand_shake_done) [
    | inl on ↦
        subst (Post KeptAt) (sym (if-true _ _ on)) (
          Post-bind KeptAt KeptAt _ _ (sendv-IsKept msg n h) λ r q. after_sent-IsKept msg r.0 r.1 q)
    | inr off ↦ subst (Post KeptAt) (sym (if-false _ _ off)) h
  ]

  pub send_usr_sctp_data-IsKept :
      (msg : Option Message) (n : State tls lib)
      → Kept n
      → Post KeptAt (send_usr_sctp_data tls lib msg n)
  unfolding send_usr_sctp_data
  send_usr_sctp_data-IsKept msg n h =
      Post-bind KeptAt KeptAt _ _ (send_sctp_cache_data-IsKept n h)
        λ r q. send_behind_cache-IsKept msg r.0 r.1 q

  take_association-IsKept :
      (o : Option ℕ) (n : State tls lib) → Kept n → Post Kept (take_association tls lib o n)
  unfolding take_association
  take_association-IsKept none n h = h
  take_association-IsKept (some s) n h =
      Post-bind Kept Kept _ _ (run_upcalls-IsKept tls k _ _ (still n h _ refl refl refl))
        λ m q. still m q _ refl refl refl

  accept_association-IsKept :
      (n : State tls lib) → Kept n → Post Kept (accept_association tls lib n)
  unfolding accept_association
  accept_association-IsKept n h = elim (Bool-cases n.client.sctp_hand_shake_done) [
    | inl on ↦ subst (Post Kept) (sym (if-true _ _ on)) h
    | inr off ↦ subst (Post Kept) (sym (if-false _ _ off)) (elim (Bool-cases n.client.sock_closed) [
      | inl shut ↦ subst (Post Kept) (sym (if-true _ _ shut)) tt
      | inr usable ↦
          subst (Post Kept) (sym (if-false _ _ usable))
            (take_association-IsKept _ _ (still n h _ refl refl refl))
    ])
  ]

  recv_usr_sctp_data-IsKept :
      (bytes : Bytes) (n : State tls lib) → Kept n → Post Kept (recv_usr_sctp_data tls lib bytes n)
  unfolding recv_usr_sctp_data
  recv_usr_sctp_data-IsKept bytes n h =
      Post-bind Kept Kept _ _ (accept_association-IsKept n h)
        λ m q. run_upcalls-IsKept tls k _ _ (still m q _ refl refl refl)

  read_record-IsKept : (n : State tls lib) → Kept n → Post Kept (read_record tls lib n)
  unfolding read_record
  read_record-IsKept n h = elim (Bool-cases (ltb 0 (length (tls.ssl_read 4096 n.client.ssl).0))) [
    | inl full ↦
        subst (Post Kept) (sym (if-true _ _ full))
          (recv_usr_sctp_data-IsKept _ _ (still n h _ refl refl refl))
    | inr empty ↦ subst (Post Kept) (sym (if-false _ _ empty)) (still n h _ refl refl refl)
  ]

  read_records-IsKept :
      (fuel : ℕ) (n : State tls lib) → Kept n → Post Kept (read_records tls lib fuel n)
  unfolding read_records
  read_records-IsKept zero n h = tt
  read_records-IsKept (suc fuel) n h =
      choose (read_records-IsKept fuel) (ltb 0 (tls.in_pending n.client.ssl))
    where
      choose :
          ((m : State tls lib) → Kept m → Post Kept (read_records tls lib fuel m))
          → (b : Bool)
          → Post Kept (elim b [
            | true ↦ read_record tls lib n >>= read_records tls lib fuel
            | false ↦ done n
          ])
      choose on true = Post-bind Kept Kept _ _ (read_record-IsKept n h) on
      choose on false = h

  continue_hand_shake-IsKept :
      (n : State tls lib) → Kept n → Post Kept (continue_hand_shake tls lib n)
  unfolding continue_hand_shake
  continue_hand_shake-IsKept n h =
      let (r, s) = tls.do_handshake n.client.ssl in
      let kept = still n h (set_ssl s n) refl refl refl in
      elim (Bool-cases (leb_ℤ (tls.do_handshake n.client.ssl).0 (ℤ.pos 0))) [
        | inr good ↦
            subst (Post Kept) (sym (if-false _ _ good))
              (client_send_pending_dtls-IsKept tls k (set_ssl s n) kept)
        | inl bad ↦
            subst (Post Kept) (sym (if-true _ _ bad))
              (elim (Bool-cases (tls.get_error s r == ssl_error_want_read)) [
                | inl wait ↦
                    subst (Post Kept) (sym (if-true _ _ wait))
                      (client_send_pending_dtls-IsKept tls k (set_ssl s n) kept)
                | inr other ↦ subst (Post Kept) (sym (if-false _ _ other)) kept
              ])
      ]

  pub handle_dtls_packet-IsKept :
      (fuel : ℕ) (bytes : Bytes) (n : State tls lib)
      → Kept n
      → Post Kept (handle_dtls_packet tls lib fuel bytes n)
  unfolding handle_dtls_packet
  handle_dtls_packet-IsKept fuel bytes n h =
      let m = set_ssl (tls.bio_write_in bytes n.client.ssl) n in
      let kept = still n h m refl refl refl in
      elim (Bool-cases (tls.init_finished m.client.ssl)) [
        | inl over ↦ subst (Post Kept) (sym (if-true _ _ over)) (
            Post-bind Kept Kept _ _
              (client_send_pending_dtls-IsKept tls k _ (still m kept _ refl refl refl))
              (read_records-IsKept fuel))
        | inr on ↦ subst (Post Kept) (sym (if-false _ _ on)) (continue_hand_shake-IsKept m kept)
      ]
