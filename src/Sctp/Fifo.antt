-- ===== src/Sctp/Fifo.antt =====
-- RuruSctp.cpp: the cache is a queue between the program and usrsctp. What usrsctp has accepted,
-- followed by what the cache holds, is what the program has asked to send.
use ruru.Base.{
  ℕ, zero, suc, ◌≡◌, refl, ap, ◌∙◌, sym, ◌⊎◌, inl, inr, Bool, true, false, List, [], ◌∷◌, ◌++◌,
  Option, none, some, arith, done, ◌>>=◌, >>=-eq-done, done-injective, append_assoc, length, ◌==◌,
  Bool-cases, if-false, if-true,
}
use ruru.Event.{Upcall, Message}
use ruru.Dtls.{Tls}
use mathlib.Core.Path.{subst, ap₂}
use ruru.Net.{swap32}
use ruru.Sctp.{Usrsctp, SendResult, sent, error, eagain, run_upcalls}
use ruru.Sctp.Frame.{run_upcalls-UpcallFrame}
use ruru.Sctp.Send.{
  State, sendv, drop_socket, after_cached, send_cache, send_sctp_cache_data, next_round, at_front,
}

module _ (tls : Tls) (lib : Usrsctp) where
  -- A call into usrsctp moves no message.
  pub record Kept (n m : State tls lib) : Type 0 where
    pub cache : m.client.cache ≡ n.client.cache
    pub accepted : m.accepted ≡ n.accepted

  run_upcalls-Kept :
      (us : List Upcall) (stack : lib.Stack) (n : State tls lib) {m : State tls lib}
      → run_upcalls tls us (record n { stack = stack }) ≡ done m
      → Kept n m × (m.client.sctp_hand_shake_done ≡ n.client.sctp_hand_shake_done)
  run_upcalls-Kept us stack n h =
      let f = run_upcalls-UpcallFrame tls us (record n { stack = stack }) h in
      (
        record { cache = ap (λ x. x.client.cache) f; accepted = ap (λ x. x.accepted) f },
        ap (λ x. x.client.sctp_hand_shake_done) f,
      )

  pub sendv-Kept :
      (msg : Message) (n : State tls lib) (res : SendResult) (m : State tls lib)
      → sendv tls lib msg n ≡ done (res, m)
      → Kept n m × (m.client.sctp_hand_shake_done ≡ n.client.sctp_hand_shake_done)
  unfolding sendv
  sendv-Kept msg n res m h =
      let r = lib.sendv n.client.sock msg.bytes msg.param.sid (swap32 msg.param.ppid) n.stack in
      let (k, ran, e) =
        >>=-eq-done (run_upcalls tls r.1 (record n { stack = r.2 })) (λ x. done (r.0, x)) h in
      let same : k ≡ m = ap (λ p. p.1) (done-injective e) in
      run_upcalls-Kept r.1 r.2 n (ran ∙ ap done same)

  pub sendv-result :
      (msg : Message) (n : State tls lib) (res : SendResult) (m : State tls lib)
      → sendv tls lib msg n ≡ done (res, m)
      → (lib.sendv n.client.sock msg.bytes msg.param.sid (swap32 msg.param.ppid) n.stack).0 ≡ res
  unfolding sendv
  sendv-result msg n res m h =
      let r = lib.sendv n.client.sock msg.bytes msg.param.sid (swap32 msg.param.ppid) n.stack in
      let (k, _, e) =
        >>=-eq-done (run_upcalls tls r.1 (record n { stack = r.2 })) (λ x. done (r.0, x)) h in
      ap (λ p. p.0) (done-injective e)

  pub drop_socket-Kept :
      (n : State tls lib) (m : State tls lib)
      → drop_socket tls lib n ≡ done m
      → Kept n m × (m.client.sctp_hand_shake_done ≡ false) × (m.client.sock_closed ≡ true)
  unfolding drop_socket
  drop_socket-Kept n m h =
      let r = lib.close n.client.sock n.stack in
      let (k, ran, e) = >>=-eq-done (run_upcalls tls r.0 (record n { stack = r.1 })) _ h in
      let (kept, _) = run_upcalls-Kept r.0 r.1 n ran in ground (arith, e, kept)

  -- What a run of the loop over the cache has done when it returns `ok`.
  pub record Flushes (ok : Bool) (n m : State tls lib) : Type 0 where
    pub whole : m.accepted ++ m.client.cache ≡ n.accepted ++ n.client.cache
    pub all :
        ok ≡ true
        → (m.client.cache ≡ []) × (m.client.sctp_hand_shake_done ≡ n.client.sctp_hand_shake_done)

  joined :
      {n m : State tls lib} → Kept n m → m.accepted ++ m.client.cache ≡ n.accepted ++ n.client.cache
  joined k = ap₂ ◌++◌ k.accepted k.cache

  Kept-Flushes : (n m : State tls lib) → Kept n m → Flushes false n m
  Kept-Flushes n m k = record { whole = ground (arith, k); all = λ e. cc }

  -- After the send of the message at the front of the cache.
  pub after_cached-Flushes :
      (msg : Message) (rest : List Message) (res : SendResult) (n m : State tls lib)
      (a : Option Bool)
      → n.client.cache ≡ msg ∷ rest
      → after_cached tls lib msg res n ≡ done (a, m)
      → ((a ≡ some false) × Flushes false n m)
        ⊎ ((a ≡ none)
            × (m.accepted ++ m.client.cache ≡ n.accepted ++ n.client.cache)
            × (m.client.cache ≡ rest)
            × (m.client.sctp_hand_shake_done ≡ n.client.sctp_hand_shake_done))
  unfolding after_cached
  after_cached-Flushes msg rest sent n m a c h =
      inr (ground (arith, c, append_assoc n.accepted (msg ∷ []) rest))
  after_cached-Flushes msg rest (error errno) n m a c h = inl (elim (Bool-cases (errno == eagain)) [
    | inl again ↦ ground (arith, Kept-Flushes n n (record { cache = refl; accepted = refl }))
    | inr fatal ↦
        let (k, ran, e) = >>=-eq-done (drop_socket tls lib n) _ (sym (if-false _ _ fatal) ∙ h) in
        let kept = (drop_socket-Kept n k ran).0 in ground (arith, e, Kept-Flushes n k kept)
  ])

  pub cache_nil :
      (fuel : ℕ) (n : State tls lib)
      → n.client.cache ≡ []
      → send_cache tls lib (suc fuel) n ≡ done (true, n)
  unfolding send_cache
  cache_nil fuel n c =
      ap
        (λ q. at_front q (done (true, n)) λ msg.
          sendv tls lib msg n
          >>= (λ r. after_cached tls lib msg r.0 r.1)
          >>= next_round tls lib (send_cache tls lib fuel))
        c

  pub cache_cons :
      (fuel : ℕ) (n : State tls lib) (msg : Message) (rest : List Message)
      → n.client.cache ≡ msg ∷ rest
      → send_cache tls lib (suc fuel) n ≡ (
          sendv tls lib msg n
          >>= (λ r. after_cached tls lib msg r.0 r.1)
          >>= next_round tls lib (send_cache tls lib fuel))
  unfolding send_cache
  cache_cons fuel n msg rest c =
      ap
        (λ q. at_front q (done (true, n)) λ msg'.
          sendv tls lib msg' n
          >>= (λ r. after_cached tls lib msg' r.0 r.1)
          >>= next_round tls lib (send_cache tls lib fuel))
        c

  -- One round, given what the rounds left do.
  round-Flushes :
      (fuel : ℕ) (n : State tls lib) (ok : Bool) (m : State tls lib) (cache : List Message)
      → ((k : State tls lib) → send_cache tls lib fuel k ≡ done (ok, m) → Flushes ok k m)
      → n.client.cache ≡ cache
      → send_cache tls lib (suc fuel) n ≡ done (ok, m)
      → Flushes ok n m
  unfolding next_round
  round-Flushes fuel n ok m [] ih c h =
      let e = done-injective (sym (cache_nil fuel n c) ∙ h) in ground (arith, e, c)
  round-Flushes fuel n ok m (msg ∷ rest) ih c h =
      let ((a, j), front, tail) = >>=-eq-done _ _ (sym (cache_cons fuel n msg rest c) ∙ h) in
      let ((res, k), ran, after) = >>=-eq-done _ _ front in
      let (kept, on) = sendv-Kept msg n res k ran in
      elim (after_cached-Flushes msg rest res k j a (kept.cache ∙ c) after) [
        | inl (stop, f) ↦
            let e : done (false, j) ≡ done (ok, m) =
              subst (λ o. next_round tls lib (send_cache tls lib fuel) (o, j) ≡ done (ok, m)) stop
                tail in
            subst (λ (p : Bool × State tls lib). Flushes p.0 n p.1) (done-injective e)
              (record { whole = f.whole ∙ joined kept; all = λ t. cc })
        | inr (goes_on, whole, popped, on') ↦
            let f = ih j (
              subst (λ o. next_round tls lib (send_cache tls lib fuel) (o, j) ≡ done (ok, m))
                goes_on tail) in
            record {
              whole = f.whole ∙ whole ∙ joined kept;
              all = λ t. ((f.all t).0, (f.all t).1 ∙ on' ∙ on);
            }
      ]

  send_cache-Flushes :
      (fuel : ℕ) (n : State tls lib) (ok : Bool) (m : State tls lib)
      → send_cache tls lib fuel n ≡ done (ok, m)
      → Flushes ok n m
  unfolding send_cache
  send_cache-Flushes zero n ok m h = cc
  send_cache-Flushes (suc fuel) n ok m h =
      round-Flushes fuel n ok m n.client.cache (λ k. send_cache-Flushes fuel k ok m) refl h

  pub send_sctp_cache_data-Flushes :
      (n : State tls lib) (ok : Bool) (m : State tls lib)
      → send_sctp_cache_data tls lib n ≡ done (ok, m)
      → Flushes ok n m
  unfolding send_sctp_cache_data
  send_sctp_cache_data-Flushes n ok m h = elim (Bool-cases n.client.sctp_hand_shake_done) [
    | inl on ↦ send_cache-Flushes (suc (length n.client.cache)) n ok m (sym (if-true _ _ on) ∙ h)
    | inr off ↦
        let e = done-injective (sym (if-false _ _ off) ∙ h) in
        subst (λ (p : Bool × State tls lib). Flushes p.0 n p.1) e
          (Kept-Flushes n n (record { cache = refl; accepted = refl }))
  ]
