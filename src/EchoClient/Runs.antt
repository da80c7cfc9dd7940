-- ===== src/EchoClient/Runs.antt =====
-- examples/EchoClient.cpp: `doHandeShake` ends.
use ruru.Base.{
  ℕ, zero, suc, ◌≤◌, ◌<◌, ◌≡◌, refl, sym, ap, ◌∙◌, ◌⊎◌, inl, inr, Bool, true, false, Option, none,
  some, ◌==◌, ltb, if◌then◌else◌, arith, length, ℤ, leb_ℤ, Run, done, bind_done, Bool-cases,
  if-true, if-false,
}
use mathlib.Core.Path.{subst}
use ruru.Dtls.{Tls, MemBio, ssl_error_none, ssl_error_want_read}
use ruru.Sctp.Reading.{Consumes}
use ruru.EchoClient.{Peer, send_pending_step, send_pending, send_pending_dtls}
use ruru.EchoClient.Flush.{send_pending_dtls-Flushed}
use ruru.EchoClient.HandShake.{
  Reception, UdpSocket, buff_len, take_in, after_hand_shake, hand_shake_round, next_round,
  do_hand_shake,
}

-- The state of OpenSSL behind a `recvfrom`.
abbrev pub heard : (tls : Tls) → Option Reception → tls.State → tls.State
heard tls none s = s
heard tls (some r) s = if ltb 0 (length r.payload) then tls.bio_write_in r.payload s else s

-- The server answers: only finitely many rounds find the handshake under way. `left` bounds them, and sending
-- what OpenSSL has ready adds none.
pub record IsAnswered (tls : Tls) {W : Type 0} (udp : UdpSocket W) : Type 0 where
  pub left : tls.State → W → ℕ
  pub nearer :
      (s : tls.State) (w : W)
      → let (r, w') = udp.recvfrom buff_len w in
        tls.init_finished (heard tls r s) ≡ false
        → left (tls.do_handshake (heard tls r s)).1 w' < left s w
  pub sending : (size : ℕ) (s : tls.State) (w : W) → left (tls.bio_read_out size s).1 w ≤ left s w

module _ (tls : Tls) (bio : MemBio tls) (takes : Consumes tls) (L : Type 0) where
  abbrev Here : Type 0
  Here = Peer tls.State L

  -- `SSL_do_handshake` in `s` has failed for good, and left `m`.
  abbrev pub Fails : tls.State → Here → Type 0
  Fails s m =
      let r = (tls.do_handshake s).0 in
      (leb_ℤ r (ℤ.pos 0) ≡ true)
      × (m.ssl ≡ (tls.do_handshake s).1)
      × ((tls.get_error m.ssl r == ssl_error_want_read) ≡ false)
      × ((tls.get_error m.ssl r == ssl_error_none) ≡ false)

  -- What the result of the handshake says.
  abbrev pub Says : Bool → Here → Type 0
  Says true m = tls.init_finished m.ssl ≡ true
  Says false m = (s : tls.State) × (tls.init_finished s ≡ false) × Fails s m

  module _ (P : tls.State → Type 0)
      (keep : (size : ℕ) (s : tls.State) → P s → P (tls.bio_read_out size s).1) where
    step-keeps : (p : Here) → P p.ssl → P (send_pending_step tls p).ssl
    unfolding send_pending_step
    step-keeps p h = elim (Bool-cases (ltb 0 (length (tls.bio_read_out 4096 p.ssl).0))) [
      | inl full ↦ subst (λ (x : Here). P x.ssl) (sym (if-true _ _ full)) (keep 4096 p.ssl h)
      | inr empty ↦ subst (λ (x : Here). P x.ssl) (sym (if-false _ _ empty)) (keep 4096 p.ssl h)
    ]

    send_pending-keeps :
        (fuel : ℕ) (p m : Here) → send_pending tls fuel p ≡ done m → P p.ssl → P m.ssl
    unfolding send_pending
    send_pending-keeps zero p m e h = cc
    send_pending-keeps (suc fuel) p m e h = elim (Bool-cases (ltb 0 (tls.out_pending p.ssl))) [
      | inl more ↦
          send_pending-keeps fuel (send_pending_step tls p) m (ground (arith, e, more))
            (step-keeps p h)
      | inr over ↦
          let same : p ≡ m = ground (arith, e, over) in subst (λ (x : Here). P x.ssl) same h
    ]

    -- How a round ends: the loop goes on, and `P` holds; or with the loop's result.
    abbrev Round : Here → Run (Option Bool × Here) → Type 0
    Round p x =
        (m : Here) × (m.printed ≡ p.printed)
        × (m.written ≡ p.written)
        × (((x ≡ done (none, m)) × P m.ssl) ⊎ ((b : Bool) × (x ≡ done (some b, m)) × Says b m))

    after_hand_shake-Round :
        (p : Here)
        → tls.init_finished p.ssl ≡ false
        → P (tls.do_handshake p.ssl).1
        → Round p (after_hand_shake tls (tls.do_handshake p.ssl) p)
    unfolding after_hand_shake send_pending_dtls
    after_hand_shake-Round p on h =
        let r = (tls.do_handshake p.ssl).0 in
        let s = (tls.do_handshake p.ssl).1 in
        let q : Here = record p { ssl = s } in
        elim (Bool-cases (leb_ℤ r (ℤ.pos 0))) [
          | inr good ↦ (q, refl, refl, inl (if-false _ _ good, h))
          | inl bad ↦ elim (Bool-cases (tls.get_error s r == ssl_error_want_read)) [
            | inl wait ↦
                let (m, run, f) = send_pending_dtls-Flushed tls bio takes q in
                (
                  m,
                  ap (λ (x : Here). x.printed) f.frame,
                  ap (λ (x : Here). x.written) f.frame,
                  inl (
                    if-true _ _ bad ∙ if-true _ _ wait ∙ bind_done _ run,
                    send_pending-keeps (suc (tls.out_pending s)) q m run h,
                  ),
                )
            | inr no_wait ↦ elim (Bool-cases (tls.get_error s r == ssl_error_none)) [
              | inl nothing ↦ (
                q,
                refl,
                refl,
                inl (if-true _ _ bad ∙ if-false _ _ no_wait ∙ if-true _ _ nothing, h),
              )
              | inr fatal ↦ (
                q,
                refl,
                refl,
                inr (
                  false,
                  if-true _ _ bad ∙ if-false _ _ no_wait ∙ if-false _ _ fatal,
                  (p.ssl, on, (bad, refl, no_wait, fatal)),
                ),
              )
            ]
          ]
        ]

    hand_shake_round-Round :
        (p : Here)
        → (tls.init_finished p.ssl ≡ false → P (tls.do_handshake p.ssl).1)
        → Round p (hand_shake_round tls p)
    unfolding hand_shake_round
    hand_shake_round-Round p h = elim (Bool-cases (tls.init_finished p.ssl)) [
      | inl over ↦ (p, refl, refl, inr (true, if-true _ _ over, over))
      | inr on ↦ subst (Round p) (sym (if-false _ _ on)) (after_hand_shake-Round p on (h on))
    ]

  module _ {W : Type 0} (udp : UdpSocket W) (answered : IsAnswered tls udp) where
    -- How the loop ends.
    abbrev pub HandShaken : Here → Run (Bool × Here × W) → Type 0
    HandShaken p x =
        (b : Bool) × (m : Here) × (w : W) × (x ≡ done (b, m, w))
        × Says b m
        × (m.printed ≡ p.printed)
        × (m.written ≡ p.written)

    take_in-heard : (r : Option Reception) (p : Here) → (take_in tls r p).ssl ≡ heard tls r p.ssl
    unfolding take_in
    take_in-heard none p = refl
    take_in-heard (some r) p = refl

    take_in-shows :
        (r : Option Reception) (p : Here)
        → ((take_in tls r p).printed ≡ p.printed) × ((take_in tls r p).written ≡ p.written)
    unfolding take_in
    take_in-shows none p = (refl, refl)
    take_in-shows (some r) p = (refl, refl)

    -- `doHandeShake` ends where the server answers at last, within as many rounds as find the handshake under
    -- way and one more, over memory BIOs and where `SSL_read` takes from what it has. It returns true with the
    -- handshake finished, and false only where the last `SSL_do_handshake` has given an error that is
    -- neither SSL_ERROR_WANT_READ nor SSL_ERROR_NONE. Nothing is printed or given to `SSL_write`.
    pub do_hand_shake-HandShaken :
        (fuel : ℕ) (p : Here) (w : W)
        → answered.left p.ssl w < fuel
        → HandShaken p (do_hand_shake tls udp fuel p w)
    unfolding do_hand_shake next_round
    do_hand_shake-HandShaken zero p w h = absurd (omega arith)
    do_hand_shake-HandShaken (suc fuel) p w h =
        let (r, w') = udp.recvfrom buff_len w in
        let q = take_in tls r p in
        let (shown, given) = take_in-shows r p in
        let near =
          subst (λ s. tls.init_finished s ≡ false → answered.left (tls.do_handshake s).1 w' < fuel)
            (sym (take_in-heard r p))
            (λ on. let less = answered.nearer p.ssl w on in omega arith) in
        let (m, a, b, ends) =
          hand_shake_round-Round (λ s. answered.left s w' < fuel)
            (λ size s lt. omega (arith, answered.sending size s w')) q near in
        elim ends [
          | inl (on, closer) ↦
              let (ok, n, v, run, says, c, d) = do_hand_shake-HandShaken fuel m w' closer in
              (ok, n, v, bind_done _ on ∙ run, says, c ∙ a ∙ shown, d ∙ b ∙ given)
          | inr (ok, over, says) ↦ (ok, m, w', bind_done _ over, says, a ∙ shown, b ∙ given)
        ]
