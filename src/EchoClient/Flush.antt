-- ===== src/EchoClient/Flush.antt =====
-- examples/EchoClient.cpp, `SendPendingDtls` and `conn_output`: all that OpenSSL wants to send is sent.
use ruru.Base.{
  ℕ, zero, suc, ◌<◌, ◌≡◌, refl, List, [], ◌∷◌, ◌++◌, map, Option, none, some, arith, length, take,
  done, Bytes, length-take, take-append-drop, append_assoc, append-nil, lt→ltb, sym, ◌∙◌, ap,
  Bool-cases, true, inl, inr, ltb, ltb→lt, length-drop,
}
use ruru.Dtls.{Tls, MemBio}
use ruru.Sctp.Reading.{Consumes}
use ruru.EchoClient.{Peer, send_pending_step, send_pending, send_pending_dtls}

-- A series of datagrams, joined.
abbrev pub joined : List Bytes → Bytes
joined [] = []
joined (c ∷ cs) = c ++ joined cs

-- A packet, if `buf` is not null.
abbrev pub packet_list : Option Bytes → List Bytes
packet_list none = []
packet_list (some bytes) = bytes ∷ []

empty_of_length : (xs : Bytes) → length xs ≡ 0 → xs ≡ []
empty_of_length [] h = refl
empty_of_length (x ∷ xs) h = absurd (omega arith)

module _ (tls : Tls) (bio : MemBio tls) (takes : Consumes tls) {L : Type 0} where
  -- `m` is `p` after `bytes` have been sent to the server in some datagrams; the outgoing BIO is
  -- empty, and the incoming one has kept its bytes.
  pub record Flushed (p : Peer tls.State L) (bytes : Bytes) (m : Peer tls.State L) : Type 0 where
    pub chunks : List Bytes
    pub frame : m ≡ record p { ssl = m.ssl; sent = p.sent ++ map (λ c. (p.ser_addr, c)) chunks }
    pub whole : joined chunks ≡ bytes
    pub drained : tls.out_pending m.ssl ≡ 0
    pub input : tls.in_pending m.ssl ≡ tls.in_pending p.ssl

  Flushed-now :
      (p : Peer tls.State L) → tls.out_pending p.ssl ≡ 0 → Flushed p (bio.out_bytes p.ssl) p
  Flushed-now p h = record {
    chunks = [];
    frame = ap (λ s. record p { sent = s }) (sym (append-nil p.sent));
    whole = sym (empty_of_length (bio.out_bytes p.ssl) (sym (bio.pending p.ssl) ∙ h));
    drained = h;
    input = refl;
  }

  -- What a round does where there is something to send.
  abbrev after : Peer tls.State L → Peer tls.State L
  after p = record p {
    ssl = (tls.bio_read_out 4096 p.ssl).1;
    sent = p.sent ++ (p.ser_addr, take 4096 (bio.out_bytes p.ssl)) ∷ [];
  }

  send_pending_step_lem :
      (p : Peer tls.State L) → 0 < tls.out_pending p.ssl → send_pending_step tls p ≡ after p
  unfolding send_pending_step
  send_pending_step_lem p h =
      let front = bio.read_front 4096 p.ssl in
      let some_bytes : ltb 0 (length (take 4096 (bio.out_bytes p.ssl))) ≡ true =
        lt→ltb 0 _ (omega (arith, length-take 4096 (bio.out_bytes p.ssl), bio.pending p.ssl)) in
      rw (front, some_bytes) refl

  Flushed-after :
      (p m : Peer tls.State L)
      → Flushed (after p) (bio.out_bytes (after p).ssl) m
      → Flushed p (bio.out_bytes p.ssl) m
  Flushed-after p m f = record {
    chunks = take 4096 (bio.out_bytes p.ssl) ∷ f.chunks;
    frame = f.frame ∙ ap (λ s. record p { ssl = m.ssl; sent = s }) (append_assoc p.sent _ _);
    whole =
        ap (λ t. take 4096 (bio.out_bytes p.ssl) ++ t) (f.whole ∙ bio.read_rest 4096 p.ssl)
        ∙ take-append-drop 4096 (bio.out_bytes p.ssl);
    drained = f.drained;
    input = f.input ∙ takes.read_out_keeps 4096 p.ssl;
  }

  send_pending_more :
      (fuel : ℕ) (p : Peer tls.State L)
      → 0 < tls.out_pending p.ssl
      → send_pending tls (suc fuel) p ≡ send_pending tls fuel (after p)
  unfolding send_pending
  send_pending_more fuel p h = ground (arith, send_pending_step_lem p h)

  send_pending_over :
      (fuel : ℕ) (p : Peer tls.State L)
      → tls.out_pending p.ssl ≡ 0
      → send_pending tls (suc fuel) p ≡ done p
  unfolding send_pending
  send_pending_over fuel p h = ground arith

  send_pending-Flushed :
      (fuel : ℕ) (p : Peer tls.State L)
      → tls.out_pending p.ssl < fuel
      → (m : Peer tls.State L) × (send_pending tls fuel p ≡ done m)
        × Flushed p (bio.out_bytes p.ssl) m
  send_pending-Flushed zero p h = absurd (omega arith)
  send_pending-Flushed (suc fuel) p h = elim (Bool-cases (ltb 0 (tls.out_pending p.ssl))) [
    | inl more ↦
        let some_bytes = ltb→lt 0 (tls.out_pending p.ssl) more in
        let less : tls.out_pending (after p).ssl < fuel = omega (
          arith,
          bio.pending p.ssl,
          bio.pending (after p).ssl,
          ap length (bio.read_rest 4096 p.ssl),
          length-drop 4096 (bio.out_bytes p.ssl),
        ) in
        let (m, run, f) = send_pending-Flushed fuel (after p) less in
        (m, send_pending_more fuel p some_bytes ∙ run, Flushed-after p m f)
    | inr over ↦
        let none : tls.out_pending p.ssl ≡ 0 = ground (arith, over) in
        (p, send_pending_over fuel p none, Flushed-now p none)
  ]

  -- `SendPendingDtls` ends, and has sent all that the outgoing BIO held, in order, to the server.
  pub send_pending_dtls-Flushed :
      (p : Peer tls.State L)
      → (m : Peer tls.State L) × (send_pending_dtls tls p ≡ done m)
        × Flushed p (bio.out_bytes p.ssl) m
  unfolding send_pending_dtls
  send_pending_dtls-Flushed p = send_pending-Flushed (suc (tls.out_pending p.ssl)) p (omega arith)
