-- ===== src/Sctp/Datagram.antt =====
-- RuruClient.cpp, `HandleDtlsPacket`: when its reading loop ends, and when it does not.
use ruru.Base.{
  sym, ◌&&◌, not, Bool, ◌≡◌, refl, ap, ◌∙◌, ◌⊎◌, inl, inr, true, false, ℕ, zero, suc, ◌<◌, ◌≤◌,
  arith, [], Bytes, length, ltb, done, spin, ◌>>=◌, if-true, if-false, Bool-cases, ◌==◌, ℤ, leb_ℤ,
}
use native.Mathlib.Decide.{dec_lt}
use mathlib.Core.Path.{subst}
use ruru.Dtls.{Tls, MemBio, ssl_error_want_read}
use ruru.Client.{set_ssl}
use ruru.Client.Flush.{Flushed, client_send_pending_dtls-Flushed}
use ruru.Sctp.{Usrsctp}
use ruru.Sctp.Total.{IsBounded}
use ruru.Sctp.Stable.{client_send_pending_dtls-IsStable}
use ruru.Sctp.Reading.{
  Consumes, AtMost, AtMost-IsStable, recv_usr_sctp_data-Taken, IsUsable, Taken-IsUsable,
}
use ruru.Sctp.Send.{State}
use ruru.Sctp.Receive.{read_record, read_records, continue_hand_shake, handle_dtls_packet}

-- OpenSSL states from which the incoming BIO never empties: it holds something, `SSL_read` gives
-- nothing, and neither that nor writing the outgoing BIO out leads away. `SSL_read` is so after the
-- peer's close_notify.
pub record IsStuck (tls : Tls) (P : tls.State → Type 0) : Type 0 where
  pub holds : (s : tls.State) → P s → 0 < tls.in_pending s
  pub read_nothing : (s : tls.State) → P s → (tls.ssl_read 4096 s).0 ≡ []
  pub read_stays : (s : tls.State) → P s → P (tls.ssl_read 4096 s).1
  pub read_out_stays : (size : ℕ) (s : tls.State) → P s → P (tls.bio_read_out size s).1
  pub write_stays : (bytes : Bytes) (s : tls.State) → P s → P (tls.ssl_write bytes s)

module _ (tls : Tls) (lib : Usrsctp) (bio : MemBio tls) where
  read_records-more :
      (fuel : ℕ) (n : State tls lib)
      → 0 < tls.in_pending n.client.ssl
      → read_records tls lib (suc fuel) n ≡ (read_record tls lib n >>= read_records tls lib fuel)
  unfolding read_records
  read_records-more fuel n h = ground arith

  read_records-over :
      (fuel : ℕ) (n : State tls lib)
      → tls.in_pending n.client.ssl ≡ 0
      → read_records tls lib (suc fuel) n ≡ done n
  unfolding read_records
  read_records-over fuel n h = ground arith

  -- The datagram in the incoming BIO, before anything is done with it.
  abbrev pub fed : Bytes → State tls lib → State tls lib
  fed bytes n = set_ssl (tls.bio_write_in bytes n.client.ssl) n

  -- The same, with `dtlsTransport.bHandShakeDone` set.
  abbrev pub ready : State tls lib → State tls lib
  ready n = record n { client = record (n.client) { dtls_hand_shake_done = true } }

  module _ (fit : IsBounded lib) (takes : Consumes tls) where
    read_record-Shrinks :
        (n : State tls lib)
        → 0 < tls.in_pending n.client.ssl
        → IsUsable n
        → (m : State tls lib) × (read_record tls lib n ≡ done m)
          × (tls.in_pending m.client.ssl < tls.in_pending n.client.ssl)
          × (m.client.dtls_hand_shake_done ≡ n.client.dtls_hand_shake_done)
          × (m.client.cache ≡ n.client.cache)
          × (m.accepted ≡ n.accepted)
          × IsUsable m
    unfolding read_record
    read_record-Shrinks n h usable =
        let bytes = (tls.ssl_read 4096 n.client.ssl).0 in
        let k : State tls lib = set_ssl (tls.ssl_read 4096 n.client.ssl).1 n in
        let less : tls.in_pending k.client.ssl < tls.in_pending n.client.ssl =
          takes.read_takes 4096 n.client.ssl (omega arith) h in
        elim (Bool-cases (ltb 0 (length bytes))) [
          | inl got ↦
              let bound = tls.in_pending k.client.ssl in
              let (m, e, t) =
                recv_usr_sctp_data-Taken tls lib bio fit (AtMost tls bound)
                  (AtMost-IsStable tls bound takes) bytes k usable in
              let kept = t.ssl (omega arith) in
              (
                m,
                if-true _ _ got ∙ e,
                omega arith,
                t.dtls,
                t.cache,
                t.accepted,
                Taken-IsUsable tls lib bio fit (AtMost tls bound) k m t usable,
              )
          | inr nothing ↦ (k, if-false _ _ nothing, less, refl, refl, refl, usable)
        ]

    read_records-Ends :
        (fuel : ℕ) (n : State tls lib)
        → tls.in_pending n.client.ssl < fuel
        → IsUsable n
        → (m : State tls lib) × (read_records tls lib fuel n ≡ done m)
          × (tls.in_pending m.client.ssl ≡ 0)
          × (m.client.dtls_hand_shake_done ≡ n.client.dtls_hand_shake_done)
          × (m.client.cache ≡ n.client.cache)
          × (m.accepted ≡ n.accepted)
          × IsUsable m
    read_records-Ends zero n h usable = absurd (omega arith)
    read_records-Ends (suc fuel) n h usable = elim (dec_lt 0 (tls.in_pending n.client.ssl)) [
      | yes more ↦
          let (k, first, less, d, c, a, still) = read_record-Shrinks n more usable in
          let (m, rest, none_left, d', c', a', o') = read_records-Ends fuel k (omega arith) still in
          (
            m,
            read_records-more fuel n more ∙ ap (λ r. r >>= read_records tls lib fuel) first ∙ rest,
            none_left,
            d' ∙ d,
            c' ∙ c,
            a' ∙ a,
            o',
          )
      | no over ↦
          let nothing : tls.in_pending n.client.ssl ≡ 0 = omega arith in
          (n, read_records-over fuel n nothing, nothing, refl, refl, refl, usable)
    ]

    -- OpenSSL's answer to `SSL_do_handshake` is an error other than SSL_ERROR_WANT_READ.
    abbrev pub gives_up : ℤ × tls.State → Bool
    gives_up (r, s) = leb_ℤ r (ℤ.pos 0) && not (tls.get_error s r == ssl_error_want_read)

    -- What a datagram during the DTLS handshake leaves: `SSL_do_handshake` has been called once, and
    -- what it has put into the outgoing BIO has been sent, unless it has failed for good.
    abbrev pub Continues : State tls lib → State tls lib → Type 0
    Continues n m =
        let k : State tls lib = set_ssl (tls.do_handshake n.client.ssl).1 n in
        ((gives_up (tls.do_handshake n.client.ssl) ≡ true) × (m ≡ k))
        ⊎ ((gives_up (tls.do_handshake n.client.ssl) ≡ false)
            × Flushed tls bio k (bio.out_bytes k.client.ssl) m)

    continue_hand_shake-Continues :
        (n : State tls lib)
        → IsUsable n
        → (m : State tls lib) × (continue_hand_shake tls lib n ≡ done m)
          × Continues n m
          × IsUsable m
    unfolding continue_hand_shake
    continue_hand_shake-Continues n usable =
        let r = (tls.do_handshake n.client.ssl).0 in
        let s = (tls.do_handshake n.client.ssl).1 in
        let (m, e, f) = client_send_pending_dtls-Flushed tls bio (set_ssl s n) in
        let same : IsUsable m = subst (λ (x : State tls lib). IsUsable x) (sym f.frame) usable in
        elim (Bool-cases (leb_ℤ r (ℤ.pos 0))) [
          | inl failed ↦ elim (Bool-cases (tls.get_error s r == ssl_error_want_read)) [
            | inl wants ↦ (
              m,
              if-true _ _ failed ∙ if-true _ _ wants ∙ e,
              inr (rw (failed, wants) refl, f),
              same,
            )
            | inr other ↦ (
              set_ssl s n,
              if-true _ _ failed ∙ if-false _ _ other,
              inl (rw (failed, other) refl, refl),
              usable,
            )
          ]
          | inr fine ↦ (m, if-false _ _ fine ∙ e, inr (rw fine refl, f), same)
        ]

    -- `HandleDtlsPacket` ends without a fault, over memory BIOs, if `SSL_read` takes at least a byte from
    -- an incoming BIO that holds any, usrsctp sends no overrunning heart beat, and an association is up
    -- or no failed send has closed `sock_`: one round for each byte that the BIO holds with the new
    -- datagram in it, and one more test, are enough. Once the DTLS handshake is over it leaves the
    -- incoming BIO empty and the client ready to send, and it touches neither the cache nor what
    -- usrsctp has accepted. Until then it calls `SSL_do_handshake` once and sends what that has put
    -- into the outgoing BIO, unless it fails for good, and changes nothing else.
    pub handle_dtls_packet-Ends :
        (bytes : Bytes) (n : State tls lib)
        → IsUsable n
        → (m : State tls lib) × (handle_dtls_packet tls lib
              (suc (tls.in_pending (fed bytes n).client.ssl))
              bytes
              n
            ≡ done m)
          × IsUsable m
          × ((tls.init_finished (fed bytes n).client.ssl ≡ true
                × tls.in_pending m.client.ssl ≡ 0
                × m.client.dtls_hand_shake_done ≡ true
                × m.client.cache ≡ n.client.cache
                × m.accepted ≡ n.accepted)
              ⊎ (tls.init_finished (fed bytes n).client.ssl ≡ false × Continues (fed bytes n) m))
    unfolding handle_dtls_packet
    handle_dtls_packet-Ends bytes n usable =
        elim (Bool-cases (tls.init_finished (fed bytes n).client.ssl)) [
          | inl finished ↦
              let bound = tls.in_pending (fed bytes n).client.ssl in
              let (k, flushed, f) =
                client_send_pending_dtls-Flushed tls bio (ready (fed bytes n)) in
              let same : tls.in_pending k.client.ssl ≤ bound =
                client_send_pending_dtls-IsStable tls (AtMost tls bound)
                  (AtMost-IsStable tls bound takes) (ready (fed bytes n)) k flushed (omega arith) in
              let still : IsUsable k =
                subst (λ (x : State tls lib). IsUsable x) (sym f.frame) usable in
              let (m, read, none_left, d, c, a, o) =
                read_records-Ends (suc bound) k (omega arith) still in
              (
                m,
                if-true _ _ finished
                    ∙ ap (λ r. r >>= read_records tls lib (suc bound)) flushed
                    ∙ read,
                o,
                inl (
                  finished,
                  none_left,
                  d ∙ ap (λ x. x.client.dtls_hand_shake_done) f.frame,
                  c ∙ ap (λ x. x.client.cache) f.frame,
                  a ∙ ap (λ x. x.accepted) f.frame,
                ),
              )
          | inr under_way ↦
              let (m, e, goes_on, o) = continue_hand_shake-Continues (fed bytes n) usable in
              (m, if-false _ _ under_way ∙ e, o, inr (under_way, goes_on))
        ]

  module _ (P : tls.State → Type 0) (stuck : IsStuck tls P) where
    read_records-spins :
        (fuel : ℕ) (n : State tls lib) → P n.client.ssl → read_records tls lib fuel n ≡ spin
    unfolding read_record read_records
    read_records-spins zero n p = refl
    read_records-spins (suc fuel) n p =
        let k : State tls lib = set_ssl (tls.ssl_read 4096 n.client.ssl).1 n in
        let nothing : ltb 0 (length (tls.ssl_read 4096 n.client.ssl).0) ≡ false =
          ap (λ b. ltb 0 (length b)) (stuck.read_nothing n.client.ssl p) in
        read_records-more fuel n (stuck.holds n.client.ssl p)
        ∙ ap (λ r. r >>= read_records tls lib fuel) (if-false _ _ nothing)
        ∙ read_records-spins fuel k (stuck.read_stays n.client.ssl p)

    -- `HandleDtlsPacket` never returns, whatever fuel it is given, if the datagram finds the DTLS
    -- handshake over and OpenSSL in a state in which `SSL_read` gives nothing and leaves the datagram
    -- in the incoming BIO.
    pub handle_dtls_packet-spins :
        (fuel : ℕ) (bytes : Bytes) (n : State tls lib)
        → tls.init_finished (tls.bio_write_in bytes n.client.ssl) ≡ true
        → P (tls.bio_write_in bytes n.client.ssl)
        → handle_dtls_packet tls lib fuel bytes n ≡ spin
    unfolding handle_dtls_packet
    handle_dtls_packet-spins fuel bytes n finished p =
        let (k, flushed, f) = client_send_pending_dtls-Flushed tls bio (ready (fed bytes n)) in
        let still : P k.client.ssl =
          client_send_pending_dtls-IsStable tls P
            (record { read_out = stuck.read_out_stays; write = stuck.write_stays })
            (ready (fed bytes n)) k flushed p in
        if-true _ _ finished
        ∙ ap (λ r. r >>= read_records tls lib fuel) flushed
        ∙ read_records-spins fuel k still
