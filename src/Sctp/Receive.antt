-- ===== src/Sctp/Receive.antt =====
-- RuruSctp.cpp, `RecvUsrSctpData`, and RuruClient.cpp, `HandleDtlsPacket`, which calls it.
use ruru.Base.{
  ℕ, zero, suc, true, false, Option, none, some, ◌==◌, if◌then◌else◌, Bytes, length, Run, done,
  fault, spin, ◌>>=◌, ltb, ℤ, leb_ℤ,
}
use ruru.Dtls.{Tls, ssl_error_want_read}
use ruru.Client.{set_ssl, client_send_pending_dtls}
use ruru.Sctp.{Usrsctp, run_upcalls}
use ruru.Sctp.Send.{State}

module _ (tls : Tls) (lib : Usrsctp) where
  -- What `RecvUsrSctpData` does with the result of `usrsctp_accept`: an association takes the place
  -- of the listening socket, which is closed.
  unfoldable pub take_association : Option ℕ → State tls lib → Run (State tls lib)
  take_association none n = done n
  take_association (some s) n =
      let (ups, stack) = lib.close n.client.sock n.stack in
      run_upcalls tls ups (record n { stack = stack }) >>= λ m.
      done (record m { client = record (m.client) { sock = some s; sctp_hand_shake_done = true } })

  -- `if (!bHandShakeDone)` of `RecvUsrSctpData`. A socket that `SendSctpCacheData` or `SendUsrSctpData`
  -- has closed must not be given to `usrsctp_accept`.
  unfoldable pub accept_association : State tls lib → Run (State tls lib)
  accept_association n =
      if n.client.sctp_hand_shake_done
      then done n
      else if n.client.sock_closed
      then fault
      else (let (s, stack) = lib.accept n.client.sock n.stack in
          take_association s (record n { stack = stack }))

  -- `RecvUsrSctpData`; `data` is the buffer of the caller, never null.
  unfoldable pub recv_usr_sctp_data : Bytes → State tls lib → Run (State tls lib)
  recv_usr_sctp_data bytes n = accept_association n >>= λ m.
      let (ups, stack) = lib.conninput bytes m.stack in
      run_upcalls tls ups (record m { stack = stack })

  -- A round of the reading loop in `HandleDtlsPacket`.
  unfoldable pub read_record : State tls lib → Run (State tls lib)
  read_record n =
      let (bytes, s) = tls.ssl_read 4096 n.client.ssl in
      if ltb 0 (length bytes) then recv_usr_sctp_data bytes (set_ssl s n) else done (set_ssl s n)

  -- `while (BIO_ctrl_pending(dtlsTransport.inBio) > 0)`
  unfoldable pub read_records : ℕ → State tls lib → Run (State tls lib)
  read_records zero n = spin
  read_records (suc fuel) n = elim (ltb 0 (tls.in_pending n.client.ssl)) [
    | true ↦ read_record n >>= read_records fuel
    | false ↦ done n
  ]

  -- A packet that arrives while the DTLS handshake is under way.
  unfoldable pub continue_hand_shake : State tls lib → Run (State tls lib)
  continue_hand_shake n =
      let (r, s) = tls.do_handshake n.client.ssl in
      let m = set_ssl s n in
      if leb_ℤ r (ℤ.pos 0)
      then if tls.get_error s r == ssl_error_want_read
        then client_send_pending_dtls tls m
        else done m
      else client_send_pending_dtls tls m

  -- `HandleDtlsPacket`, with `fuel` rounds of the reading loop. Where `SSL_get_error` says neither
  -- SSL_ERROR_WANT_READ nor SSL_ERROR_NONE the error is printed, and that is all.
  unfoldable pub handle_dtls_packet : ℕ → Bytes → State tls lib → Run (State tls lib)
  handle_dtls_packet fuel bytes n =
      let m = set_ssl (tls.bio_write_in bytes n.client.ssl) n in
      if tls.init_finished m.client.ssl
      then (client_send_pending_dtls tls
            (record m { client = record (m.client) { dtls_hand_shake_done = true } })
          >>= read_records fuel)
      else continue_hand_shake m
