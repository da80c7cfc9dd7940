-- ===== src/Sctp/Stable.antt =====
-- RuruSctp.cpp: a property of the OpenSSL state that writing and flushing keep survives the functions
-- that usrsctp calls back.
use ruru.Base.{
  ◌≡◌, sym, ◌∙◌, if-true, if-false, done, done-injective, >>=-eq-done, ◌==◌, ◌||◌, List, Option,
  none, some, ℕ, zero, suc, arith, inl, inr, [], ◌∷◌, Bytes, Bool-cases, ltb, length,
}
use ruru.Event.{RcvInfo, Upcall, outbound, inbound}
use ruru.Sctp.{
  store_heart_beat, receive_into, push_client_recv_data, on_sctp_inbound_packet,
  on_sctp_outbound_packet, run_upcall, run_upcalls, chunk_type, sizeof_sctp_header,
}
use ruru.Dtls.{Tls}
use ruru.Client.{
  Node, send_to, client_send_data, client_send_pending_dtls, send_pending, send_pending_step,
  write_ssl,
}
use mathlib.Core.Path.{subst}

-- `SSL_write` and `BIO_read` on the outgoing BIO keep `P`.
pub record IsStable (tls : Tls) (P : tls.State → Type 0) : Type 0 where
  pub read_out : (size : ℕ) (s : tls.State) → P s → P (tls.bio_read_out size s).1
  pub write : (bytes : Bytes) (s : tls.State) → P s → P (tls.ssl_write bytes s)

module _ (tls : Tls) (P : tls.State → Type 0) (stable : IsStable tls P) {L : Type 0} where
  step-IsStable : (n : Node tls.State L) → P n.client.ssl → P (send_pending_step tls n).client.ssl
  unfolding send_pending_step send_to
  step-IsStable n p = elim (Bool-cases (ltb 0 (length (tls.bio_read_out 4096 n.client.ssl).0))) [
    | inl some_bytes ↦
        subst (λ (x : Node tls.State L). P x.client.ssl) (sym (if-true _ _ some_bytes))
          (stable.read_out 4096 n.client.ssl p)
    | inr no_bytes ↦
        subst (λ (x : Node tls.State L). P x.client.ssl) (sym (if-false _ _ no_bytes))
          (stable.read_out 4096 n.client.ssl p)
  ]

  send_pending-IsStable :
      (fuel : ℕ) (n m : Node tls.State L)
      → send_pending tls fuel n ≡ done m
      → P n.client.ssl
      → P m.client.ssl
  unfolding send_pending
  send_pending-IsStable zero n m h p = cc
  send_pending-IsStable (suc fuel) n m h p =
      elim (Bool-cases (ltb 0 (tls.out_pending n.client.ssl))) [
        | inl more ↦
            send_pending-IsStable fuel (send_pending_step tls n) m (ground (arith, h, more))
              (step-IsStable n p)
        | inr over ↦
            let e : n ≡ m = ground (arith, h, over) in
            subst (λ (x : Node tls.State L). P x.client.ssl) e p
      ]

  pub client_send_pending_dtls-IsStable :
      (n m : Node tls.State L)
      → client_send_pending_dtls tls n ≡ done m
      → P n.client.ssl
      → P m.client.ssl
  unfolding client_send_pending_dtls
  client_send_pending_dtls-IsStable n m h p = send_pending-IsStable _ n m h p

  client_send_data-IsStable :
      (bytes : Bytes) (n m : Node tls.State L)
      → client_send_data tls bytes n ≡ done m
      → P n.client.ssl
      → P m.client.ssl
  unfolding client_send_data write_ssl
  client_send_data-IsStable bytes n m h p = elim (Bool-cases n.client.dtls_hand_shake_done) [
    | inl on ↦
        client_send_pending_dtls-IsStable (write_ssl tls bytes n) m (sym (if-true _ _ on) ∙ h)
          (stable.write bytes n.client.ssl p)
    | inr off ↦ subst (λ x. P x.client.ssl) (done-injective (sym (if-false _ _ off) ∙ h)) p
  ]

  store_heart_beat-ssl :
      (packet : Bytes) (n m : Node tls.State L)
      → store_heart_beat packet n ≡ done m
      → m.client.ssl ≡ n.client.ssl
  unfolding store_heart_beat
  store_heart_beat-ssl packet n m h = ground arith

  on_sctp_inbound_packet-ssl :
      (packet : Option Bytes) (rcv : RcvInfo) (n : Node tls.State L)
      → (on_sctp_inbound_packet packet rcv n).client.ssl ≡ n.client.ssl
  unfolding on_sctp_inbound_packet push_client_recv_data receive_into
  on_sctp_inbound_packet-ssl packet rcv n = ground arith

  on_sctp_outbound_packet-IsStable :
      (packet : Option Bytes) (n m : Node tls.State L)
      → on_sctp_outbound_packet tls packet n ≡ done m
      → P n.client.ssl
      → P m.client.ssl
  unfolding on_sctp_outbound_packet
  on_sctp_outbound_packet-IsStable none n m h p = subst (λ x. P x.client.ssl) (done-injective h) p
  on_sctp_outbound_packet-IsStable (some packet) n m h p =
      elim (Bool-cases (ltb (length packet) sizeof_sctp_header)) [
        | inl short ↦ subst (λ x. P x.client.ssl) (done-injective (sym (if-true _ _ short) ∙ h)) p
        | inr whole ↦ elim (Bool-cases ((chunk_type packet == 4) || (chunk_type packet == 5))) [
          | inl beat ↦
              subst P
                (sym (
                  store_heart_beat-ssl packet n m
                    (sym (if-true _ _ beat) ∙ sym (if-false _ _ whole) ∙ h)))
                p
          | inr other ↦
              client_send_data-IsStable packet n m
                (sym (if-false _ _ other) ∙ sym (if-false _ _ whole) ∙ h) p
        ]
      ]

  -- Whatever usrsctp calls back, `P` holds of the client's `ssl` afterwards.
  pub run_upcalls-IsStable :
      (us : List Upcall) (n m : Node tls.State L)
      → run_upcalls tls us n ≡ done m
      → P n.client.ssl
      → P m.client.ssl
  unfolding run_upcalls run_upcall
  run_upcalls-IsStable [] n m h p = subst (λ x. P x.client.ssl) (done-injective h) p
  run_upcalls-IsStable (outbound packet ∷ us) n m h p =
      let (k, first, rest) = >>=-eq-done (on_sctp_outbound_packet tls packet n) _ h in
      run_upcalls-IsStable us k m rest (on_sctp_outbound_packet-IsStable packet n k first p)
  run_upcalls-IsStable (inbound packet rcv ∷ us) n m h p =
      run_upcalls-IsStable us (on_sctp_inbound_packet packet rcv n) m h
        (subst P (sym (on_sctp_inbound_packet-ssl packet rcv n)) p)
