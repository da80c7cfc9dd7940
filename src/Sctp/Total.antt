-- ===== src/Sctp/Total.antt =====
-- RuruSctp.cpp: `SendSctpCacheData` and `SendUsrSctpData` come to an end.
use mathlib.Core.Path.{subst}
use ruru.Base.{
  ℕ, zero, suc, ◌<◌, ◌≡◌, refl, ap, ◌∙◌, sym, inl, inr, Bool, true, false, List, [], ◌∷◌, Option,
  some, arith, Bytes, Run, done, ◌>>=◌, length, ◌==◌, if-true, if-false, Bool-cases,
}
use ruru.Event.{Message}
use ruru.Dtls.{Tls, MemBio}
use ruru.Net.{swap32}
use ruru.Sctp.{Usrsctp, SendResult, sent, error, eagain}
use ruru.Sctp.Upcalls.{AreFitting, run_upcalls_done}
use ruru.Sctp.Send.{
  State, sendv, drop_socket, after_cached, next_round, send_cache, send_sctp_cache_data, after_sent,
  send_behind_cache, send_usr_sctp_data,
}
use ruru.Sctp.Outcome.{Outcome, send_usr_sctp_data-Outcome}
use ruru.Sctp.Fifo.{sendv-Kept, after_cached-Flushes, cache_nil, cache_cons}

-- usrsctp sends no heart beat that overruns the buffer while one of its functions runs.
pub record IsBounded (lib : Usrsctp) : Type 0 where
  pub sendv_fits :
      (s : Option ℕ) (bytes : Bytes) (sid ppid : ℕ) (stack : lib.Stack)
      → AreFitting (lib.sendv s bytes sid ppid stack).1
  pub close_fits : (s : Option ℕ) (stack : lib.Stack) → AreFitting (lib.close s stack).0
  pub conninput_fits :
      (bytes : Bytes) (stack : lib.Stack) → AreFitting (lib.conninput bytes stack).0

-- There is a result.
abbrev Ends {ℓ} : {A : Type ℓ} → Run A → Type ℓ
Ends {A = A} r = (a : A) × (r ≡ done a)

bind-Ends {ℓ κ} :
    {A : Type ℓ} {B : Type κ} (r : Run A) (f : A → Run B)
    → (a : A) → r ≡ done a
    → Ends (f a)
    → Ends (r >>= f)
bind-Ends r f a e (b, g) = (b, ap (λ x. x >>= f) e ∙ g)

module _ (tls : Tls) (lib : Usrsctp) (bio : MemBio tls) (fit : IsBounded lib) where
  sendv-Ends : (msg : Message) (n : State tls lib) → Ends (sendv tls lib msg n)
  unfolding sendv
  sendv-Ends msg n =
      let (m, e) =
        run_upcalls_done tls bio _ _
          (fit.sendv_fits n.client.sock msg.bytes msg.param.sid (swap32 msg.param.ppid) n.stack) in
      bind-Ends _ _ m e (_, refl)

  drop_socket-Ends : (n : State tls lib) → Ends (drop_socket tls lib n)
  unfolding drop_socket
  drop_socket-Ends n =
      let (m, e) = run_upcalls_done tls bio _ _ (fit.close_fits n.client.sock n.stack) in
      bind-Ends _ _ m e (_, refl)

  after_cached-Ends :
      (msg : Message) (res : SendResult) (n : State tls lib) → Ends (after_cached tls lib msg res n)
  unfolding after_cached
  after_cached-Ends msg sent n = (_, refl)
  after_cached-Ends msg (error errno) n = elim (Bool-cases (errno == eagain)) [
    | inl again ↦ (_, if-true _ _ again)
    | inr fatal ↦
        let (m, e) = drop_socket-Ends n in
        let (b, g) = bind-Ends (drop_socket tls lib n) (λ x. done (some false, x)) m e (_, refl) in
        (b, if-false _ _ fatal ∙ g)
  ]

  after_sent-Ends :
      (msg : Message) (res : SendResult) (n : State tls lib) → Ends (after_sent tls lib msg res n)
  unfolding after_sent
  after_sent-Ends msg sent n = (_, refl)
  after_sent-Ends msg (error errno) n = elim (Bool-cases (errno == eagain)) [
    | inl again ↦ (_, if-true _ _ again)
    | inr fatal ↦
        let (m, e) = drop_socket-Ends n in
        let (b, g) = bind-Ends (drop_socket tls lib n) (λ x. done (false, x)) m e (_, refl) in
        (b, if-false _ _ fatal ∙ g)
  ]

  -- One round of the loop takes a message off the cache, or ends the loop.
  round-Ends :
      (fuel : ℕ) (n : State tls lib) (cache : List Message)
      → ((k : State tls lib) → length k.client.cache < fuel → Ends (send_cache tls lib fuel k))
      → n.client.cache ≡ cache
      → length cache < suc fuel
      → Ends (send_cache tls lib (suc fuel) n)
  unfolding next_round
  round-Ends fuel n [] ih c h = (_, cache_nil tls lib fuel n c)
  round-Ends fuel n (msg ∷ rest) ih c h =
      let ((res, k), ran) = sendv-Ends msg n in
      let ((a, j), after) = after_cached-Ends msg res k in
      let (kept, _) = sendv-Kept tls lib msg n res k ran in
      let first : (sendv tls lib msg n >>= (λ r. after_cached tls lib msg r.0 r.1)) ≡ done (a, j) =
        ap (λ r. r >>= (λ r. after_cached tls lib msg r.0 r.1)) ran ∙ after in
      let stopped : (a ≡ some false) → Ends (next_round tls lib (send_cache tls lib fuel) (a, j)) =
        λ stop. ((false, j), ap (λ o. next_round tls lib (send_cache tls lib fuel) (o, j)) stop) in
      let (r, tail) : Ends (next_round tls lib (send_cache tls lib fuel) (a, j)) =
        elim (after_cached-Flushes tls lib msg rest res k j a (kept.cache ∙ c) after) [
          | inl (stop, _) ↦ stopped stop
          | inr (goes_on, _, popped, _) ↦
              let (b, e) = ih j (subst (λ q. length q < fuel) (sym popped) (omega arith)) in
              (b, ap (λ o. next_round tls lib (send_cache tls lib fuel) (o, j)) goes_on ∙ e)
        ] in
      (
        r,
        cache_cons tls lib fuel n msg rest c
            ∙ ap (λ x. x >>= next_round tls lib (send_cache tls lib fuel)) first
            ∙ tail,
      )

  send_cache-Ends :
      (fuel : ℕ) (n : State tls lib)
      → length n.client.cache < fuel
      → Ends (send_cache tls lib fuel n)
  send_cache-Ends zero n h = absurd (omega arith)
  send_cache-Ends (suc fuel) n h = round-Ends fuel n n.client.cache (send_cache-Ends fuel) refl h

  -- `SendSctpCacheData` ends: the loop over the cache makes at most one round for each message.
  pub send_sctp_cache_data-Ends : (n : State tls lib) → Ends (send_sctp_cache_data tls lib n)
  unfolding send_sctp_cache_data
  send_sctp_cache_data-Ends n = elim (Bool-cases n.client.sctp_hand_shake_done) [
    | inl on ↦
        let (r, e) = send_cache-Ends (suc (length n.client.cache)) n (omega arith) in
        (r, if-true _ _ on ∙ e)
    | inr off ↦ (_, if-false _ _ off)
  ]

  send_behind_cache-Ends :
      (msg : Message) (status : Bool) (n : State tls lib)
      → Ends (send_behind_cache tls lib (some msg) status n)
  unfolding send_behind_cache
  send_behind_cache-Ends msg false n = (_, refl)
  send_behind_cache-Ends msg true n = elim (Bool-cases n.client.sctp_hand_shake_done) [
    | inl on ↦
        let ((res, k), ran) = sendv-Ends msg n in
        let (r, e) = bind-Ends _ _ (res, k) ran (after_sent-Ends msg res k) in
        (r, if-true _ _ on ∙ e)
    | inr off ↦ (_, if-false _ _ off)
  ]

  -- `SendUsrSctpData` of a message ends without a fault, over memory BIOs and where usrsctp sends no
  -- heart beat that overruns the ring's buffer. Nothing it was given is lost, repeated or overtaken:
  -- on `true` usrsctp has accepted all that was cached and then `msg`, and the cache is empty. On
  -- `false` what is accepted and what is cached make up, in order, the old messages and `msg`; or
  -- else, in the state in which the cache has been sent, usrsctp gives an error for `msg` that is not
  -- EAGAIN, and then `msg` alone is dropped, all before it is accepted, the cache is empty, and the
  -- socket is closed, with the association counted as ended.
  pub send_usr_sctp_data-Outcome_total :
      (msg : Message) (n : State tls lib)
      → (ok : Bool) × (m : State tls lib) × (send_usr_sctp_data tls lib (some msg) n ≡ done (ok, m))
        × Outcome tls lib msg n ok m
  unfolding send_usr_sctp_data
  send_usr_sctp_data-Outcome_total msg n =
      let ((status, k), flushed) = send_sctp_cache_data-Ends n in
      let ((ok, m), e) =
        bind-Ends _ (λ r. send_behind_cache tls lib (some msg) r.0 r.1) (status, k) flushed
          (send_behind_cache-Ends msg status k) in
      (ok, m, e, send_usr_sctp_data-Outcome tls lib msg n m ok e)
