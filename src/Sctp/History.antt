-- ===== src/Sctp/History.antt =====
-- RuruClient.h and RuruSctp.h: the operations of a client in any order, and what becomes of the messages that
-- the program sends.
use ruru.Base.{
  ℕ, suc, ◌<◌, ◌≡◌, refl, sym, ap, ◌∙◌, ◌⊎◌, inl, inr, Bool, true, false, List, [], ◌∷◌, ◌++◌, some,
  Bytes, Run, done, ◌>>=◌, bind_done, append-nil, append_assoc, Post, Post-done, Bool-cases,
  if-true, if-false, leb_ℤ, ℤ, ◌==◌,
}
use mathlib.Core.Path.{subst, ap₂}
use ruru.Event.{Message}
use ruru.Dtls.{Tls, MemBio, ssl_error_want_read}
use ruru.Client.{set_ssl, client_send_heart_beat_data, client_send_pending_dtls}
use ruru.Client.Flush.{client_send_pending_dtls-Flushed}
use ruru.Client.HeartBeat.{client_send_heart_beat_data-Drained}
use ruru.Sctp.{Usrsctp}
use ruru.Sctp.Send.{State, send_sctp_cache_data, send_usr_sctp_data}
use ruru.Sctp.Receive.{handle_dtls_packet, continue_hand_shake}
use ruru.Sctp.Outcome.{Outcome, Refuses}
use ruru.Sctp.Fifo.{send_sctp_cache_data-Flushes}
use ruru.Sctp.Total.{IsBounded, send_sctp_cache_data-Ends, send_usr_sctp_data-Outcome_total}
use ruru.Sctp.Reading.{Consumes, IsUsable}
use ruru.Sctp.Datagram.{handle_dtls_packet-Ends}
use ruru.Sctp.Sound.{IsKept, AreNamed}
use ruru.Sctp.Keeping.{
  send_sctp_cache_data-IsKept, send_usr_sctp_data-IsKept, handle_dtls_packet-IsKept,
}

-- What the program and the loop do with a client: `SendUsrSctpData`, `SendSctpCacheData`,
-- `ClientSendHeartBeatData` and `HandleDtlsPacket`.
pub data ClientOp : Type 0 where
  send : Message → ClientOp
  flush beats : ClientOp
  datagram : Bytes → ClientOp

-- The messages that are sent.
abbrev pub messages : List ClientOp → List Message
messages [] = []
messages (send msg ∷ ops) = msg ∷ messages ops
messages (flush ∷ ops) = messages ops
messages (beats ∷ ops) = messages ops
messages (datagram bytes ∷ ops) = messages ops

module _ (tls : Tls) (lib : Usrsctp) where
  unfoldable pub run_client_op : ClientOp → State tls lib → Run (State tls lib)
  run_client_op (send msg) n = send_usr_sctp_data tls lib (some msg) n >>= λ r. done r.1
  run_client_op flush n = send_sctp_cache_data tls lib n >>= λ r. done r.1
  run_client_op beats n = client_send_heart_beat_data tls n
  run_client_op (datagram bytes) n =
      handle_dtls_packet tls lib (suc (tls.in_pending (tls.bio_write_in bytes n.client.ssl))) bytes
        n

  unfoldable pub run_client_ops : List ClientOp → State tls lib → Run (State tls lib)
  run_client_ops [] n = done n
  run_client_ops (op ∷ ops) n = run_client_op op n >>= run_client_ops ops

  -- What usrsctp has accepted, and then what waits in the cache.
  abbrev pub passed : State tls lib → List Message
  passed n = n.accepted ++ n.client.cache

  -- What the operations from `n` on pass to usrsctp and its cache: the messages sent, in order, but for those
  -- that usrsctp refuses, by an error that is not EAGAIN, in the state in which the cache has been sent.
  pub data Passes : List ClientOp → State tls lib → List Message → Type 0 where
    over : (n : State tls lib) → Passes [] n []
    silent :
        (op : ClientOp) (ops : List ClientOp) (n m : State tls lib) (ms : List Message)
        → messages (op ∷ []) ≡ []
        → run_client_op op n ≡ done m
        → Passes ops m ms
        → Passes (op ∷ ops) n ms
    taken :
        (msg : Message) (ops : List ClientOp) (n m : State tls lib) (ms : List Message)
        → run_client_op (send msg) n ≡ done m
        → Passes ops m ms
        → Passes (send msg ∷ ops) n (msg ∷ ms)
    refused :
        (msg : Message) (ops : List ClientOp) (n k m : State tls lib) (ms : List Message)
        → run_client_op (send msg) n ≡ done m
        → send_sctp_cache_data tls lib n ≡ done (true, k)
        → Refuses tls lib msg k
        → Passes ops m ms
        → Passes (send msg ∷ ops) n ms

  -- A datagram comes for a client that cannot receive: it has no association, and a failed send has closed
  -- its socket.
  abbrev pub IsDeaf : ClientOp → State tls lib → Type 0
  IsDeaf (send msg) n = ⊥
  IsDeaf flush n = ⊥
  IsDeaf beats n = ⊥
  IsDeaf (datagram bytes) n =
      (n.client.sctp_hand_shake_done ≡ false) × (n.client.sock_closed ≡ true)

  module _ (bio : MemBio tls) (fit : IsBounded lib) (takes : Consumes tls) (k : ℕ) where
    -- How an operation ends, `picked` passed on behind all that was there before.
    abbrev Moved : ClientOp → State tls lib → Type 0
    Moved op n =
        (m : State tls lib) × (picked : List Message) × (run_client_op op n ≡ done m)
        × IsKept k m
        × (passed m ≡ passed n ++ picked)
        × ((ops : List ClientOp) (ms : List Message)
            → Passes ops m ms
            → Passes (op ∷ ops) n (picked ++ ms))

    hand_shake-passed :
        (n : State tls lib) → Post (λ m. passed m ≡ passed n) (continue_hand_shake tls lib n)
    unfolding continue_hand_shake
    hand_shake-passed n =
        let (r, s) = tls.do_handshake n.client.ssl in
        let q : State tls lib = set_ssl s n in
        let (m, run, f) = client_send_pending_dtls-Flushed tls bio q in
        let P : State tls lib → Type 0 = λ m. passed m ≡ passed n in
        let flushed : Post P (client_send_pending_dtls tls q) =
          subst (Post P) (sym run) (ap (λ x. passed x) f.frame) in
        elim (Bool-cases (leb_ℤ (tls.do_handshake n.client.ssl).0 (ℤ.pos 0))) [
          | inr good ↦ subst (Post P) (sym (if-false _ _ good)) flushed
          | inl bad ↦
              subst (Post P) (sym (if-true _ _ bad))
                (elim (Bool-cases (tls.get_error s r == ssl_error_want_read)) [
                  | inl wait ↦ subst (Post P) (sym (if-true _ _ wait)) flushed
                  | inr other ↦ subst (Post P) (sym (if-false _ _ other)) refl
                ])
        ]

    handle_dtls_packet-passed :
        (bytes : Bytes) (n m : State tls lib)
        → run_client_op (datagram bytes) n ≡ done m
        → tls.init_finished (tls.bio_write_in bytes n.client.ssl) ≡ false
        → passed m ≡ passed n
    unfolding run_client_op handle_dtls_packet
    handle_dtls_packet-passed bytes n m e on =
        Post-done (λ x. passed x ≡ passed n) (sym (if-false _ _ on) ∙ e)
          (hand_shake-passed (set_ssl (tls.bio_write_in bytes n.client.ssl) n))

    datagram-Moved :
        (bytes : Bytes) (n : State tls lib) → IsKept k n → IsUsable n → Moved (datagram bytes) n
    unfolding run_client_op
    datagram-Moved bytes n h usable =
        let (m, run, _, how) = handle_dtls_packet-Ends tls lib bio fit takes bytes n usable in
        let kept = Post-done (IsKept k) run (handle_dtls_packet-IsKept tls lib k _ bytes n h) in
        let same : passed m ≡ passed n = elim how [
          | inl (_, _, _, cache, accepted) ↦ ap₂ (λ a b. a ++ b) accepted cache
          | inr (on, _) ↦ handle_dtls_packet-passed bytes n m run on
        ] in
        (
          m,
          [],
          run,
          kept,
          same ∙ sym (append-nil (passed n)),
          λ ops ms p. silent (datagram bytes) ops n m ms refl run p,
        )

    beats-Moved : (n : State tls lib) → IsKept k n → Moved beats n
    unfolding run_client_op
    beats-Moved n h =
        let (m, run, d) = client_send_heart_beat_data-Drained tls bio n h.ring in
        let kept : IsKept k m = record {
          ring = d.valid;
          named = subst (λ q. AreNamed k q) (sym (ap (λ x. x.que) d.frame)) h.named;
          self = subst (λ i. i < k) (sym (ap (λ x. x.self) d.frame)) h.self;
        } in
        (
          m,
          [],
          run,
          kept,
          ap (λ x. passed x) d.frame ∙ sym (append-nil (passed n)),
          λ ops ms p. silent beats ops n m ms refl run p,
        )

    flush-Moved : (n : State tls lib) → IsKept k n → Moved flush n
    unfolding run_client_op
    flush-Moved n h =
        let ((ok, m), run) = send_sctp_cache_data-Ends tls lib bio fit n in
        let kept =
          Post-done (λ (r : Bool × State tls lib). IsKept k r.1) run
            (send_sctp_cache_data-IsKept tls lib k n h) in
        let f = send_sctp_cache_data-Flushes tls lib n ok m run in
        (
          m,
          [],
          bind_done _ run,
          kept,
          f.whole ∙ sym (append-nil (passed n)),
          λ ops ms p. silent flush ops n m ms refl (bind_done _ run) p,
        )

    -- What `SendUsrSctpData` has passed on.
    Outcome-passed :
        (msg : Message) (n m : State tls lib) (ok : Bool)
        → run_client_op (send msg) n ≡ done m
        → Outcome tls lib msg n ok m
        → (picked : List Message) × (passed m ≡ passed n ++ picked)
          × ((ops : List ClientOp) (ms : List Message)
              → Passes ops m ms
              → Passes (send msg ∷ ops) n (picked ++ ms))
    Outcome-passed msg n m true run (nothing, all) = (
      msg ∷ [],
      ap₂ (λ a b. a ++ b) all nothing ∙ append-nil _,
      λ ops ms p. taken msg ops n m ms run p,
    )
    Outcome-passed msg n m false run (inl all) =
        (msg ∷ [], all, λ ops ms p. taken msg ops n m ms run p)
    Outcome-passed msg n m false run (inr ((j, flushed, why), _, _, nothing, all)) = (
      [],
      ap₂ (λ a b. a ++ b) all nothing,
      λ ops ms p. refused msg ops n j m ms run flushed why p,
    )

    send-Moved : (msg : Message) (n : State tls lib) → IsKept k n → Moved (send msg) n
    unfolding run_client_op
    send-Moved msg n h =
        let (ok, m, run, o) = send_usr_sctp_data-Outcome_total tls lib bio fit msg n in
        let kept =
          Post-done (λ (r : Bool × State tls lib). IsKept k r.1) run
            (send_usr_sctp_data-IsKept tls lib k (some msg) n h) in
        let (picked, e, passes) = Outcome-passed msg n m ok (bind_done _ run) o in
        (m, picked, bind_done _ run, kept, e, passes)

    run_client_op-Moved :
        (op : ClientOp) (n : State tls lib) → IsKept k n → IsDeaf op n ⊎ Moved op n
    run_client_op-Moved (send msg) n h = inr (send-Moved msg n h)
    run_client_op-Moved flush n h = inr (flush-Moved n h)
    run_client_op-Moved beats n h = inr (beats-Moved n h)
    run_client_op-Moved (datagram bytes) n h = elim (Bool-cases n.client.sctp_hand_shake_done) [
      | inl on ↦ inr (datagram-Moved bytes n h (inl on))
      | inr off ↦ elim (Bool-cases n.client.sock_closed) [
        | inl shut ↦ inl (off, shut)
        | inr usable ↦ inr (datagram-Moved bytes n h (inr usable))
      ]
    ]

    -- The operations come to a datagram for a client that cannot receive, all before it run.
    abbrev pub Deafens : List ClientOp → State tls lib → Type 0
    Deafens ops n =
        (first rest : List ClientOp) × (op : ClientOp) × (ops ≡ first ++ op ∷ rest)
        × (m : State tls lib) × (run_client_ops first n ≡ done m)
        × IsDeaf op m

    -- All operations have ended.
    abbrev pub Lasts : List ClientOp → State tls lib → Type 0
    Lasts ops n =
        (m : State tls lib) × (picked : List Message) × (run_client_ops ops n ≡ done m)
        × IsKept k m
        × Passes ops n picked
        × (passed m ≡ passed n ++ picked)

    -- Over memory BIOs, where `SSL_read` takes from what it has and usrsctp sends no overrunning heart beat,
    -- and for a client whose ring is valid and whose queue names clients that are there: over every
    -- sequence of a client's operations, unless they come to a datagram for a client that has no
    -- association and whose socket a failed send has closed, each ends without a fault, and leaves such
    -- a client. Behind what usrsctp had accepted and what was cached stand the messages sent since, in
    -- order and none twice, but for those that usrsctp refused when they were sent, by an error that is
    -- not EAGAIN, when the cache had been sent.
    pub run_client_ops-Passes :
        (ops : List ClientOp) (n : State tls lib) → IsKept k n → Deafens ops n ⊎ Lasts ops n
    unfolding run_client_ops
    run_client_ops-Passes [] n h = inr (n, [], refl, h, over n, sym (append-nil (passed n)))
    run_client_ops-Passes (op ∷ ops) n h = elim (run_client_op-Moved op n h) [
      | inl deaf ↦ inl ([], ops, op, refl, n, refl, deaf)
      | inr (j, some_sent, first, kept, e, passes) ↦ elim (run_client_ops-Passes ops j kept) [
        | inl (before, rest, last, split, m, run, deaf) ↦
            inl (op ∷ before, rest, last, ap (λ x. op ∷ x) split, m, bind_done _ first ∙ run, deaf)
        | inr (m, more_sent, rest, last, p, f) ↦ inr (
          m,
          some_sent ++ more_sent,
          bind_done _ first ∙ rest,
          last,
          passes ops more_sent p,
          f ∙ ap (λ x. x ++ more_sent) e ∙ append_assoc (passed n) some_sent more_sent,
        )
      ]
    ]
