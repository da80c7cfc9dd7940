-- ===== src/Sctp/Outcome.antt =====
-- RuruSctp.cpp, `SendUsrSctpData`: what becomes of a message, where the function ends.
use ruru.Base.{
  ℕ, ◌≡◌, refl, ap, ◌∙◌, sym, ◌⊎◌, inl, inr, Bool, true, false, [], ◌∷◌, ◌++◌, some, arith, done,
  >>=-eq-done, done-injective, append-nil, append_assoc, ◌==◌, Bool-cases, if-false, if-true,
}
use ruru.Event.{Message}
use ruru.Dtls.{Tls}
use mathlib.Core.Path.{subst, ap₂}
use ruru.Sctp.{Usrsctp, SendResult, sent, error, eagain}
use ruru.Sctp.Send.{
  State, push_msg_2client_cache, sendv, drop_socket, send_sctp_cache_data, after_sent,
  send_behind_cache, send_usr_sctp_data,
}
use ruru.Net.{swap32}
use ruru.Sctp.Fifo.{
  sendv-result, sendv-Kept, drop_socket-Kept, Flushes, send_sctp_cache_data-Flushes,
}

module _ (tls : Tls) (lib : Usrsctp) where
  -- In `k`, in which the cache has been sent, usrsctp gives an error for `msg` other than EAGAIN.
  abbrev pub Refuses : Message → State tls lib → Type 0
  Refuses msg k =
      (errno : ℕ) × ((errno == eagain) ≡ false)
      × ((lib.sendv k.client.sock msg.bytes msg.param.sid (swap32 msg.param.ppid) k.stack).0
          ≡ error errno)

  -- What has become of `msg` and of the messages before it.
  abbrev pub Outcome : Message → State tls lib → Bool → State tls lib → Type 0
  Outcome msg n true m =
      (m.client.cache ≡ []) × (m.accepted ≡ n.accepted ++ n.client.cache ++ msg ∷ [])
  Outcome msg n false m =
      (m.accepted ++ m.client.cache ≡ n.accepted ++ n.client.cache ++ msg ∷ [])
      ⊎ (((k : State tls lib) × (send_sctp_cache_data tls lib n ≡ done (true, k)) × Refuses msg k)
          × (m.client.sctp_hand_shake_done ≡ false)
          × (m.client.sock_closed ≡ true)
          × (m.client.cache ≡ [])
          × (m.accepted ≡ n.accepted ++ n.client.cache))

  after_sent-Outcome :
      (msg : Message) (res : SendResult) (n k j m : State tls lib) (ok : Bool)
      → send_sctp_cache_data tls lib n ≡ done (true, k)
      → (lib.sendv k.client.sock msg.bytes msg.param.sid (swap32 msg.param.ppid) k.stack).0 ≡ res
      → j.client.cache ≡ []
      → j.accepted ≡ n.accepted ++ n.client.cache
      → after_sent tls lib msg res j ≡ done (ok, m)
      → Outcome msg n ok m
  unfolding after_sent push_msg_2client_cache
  after_sent-Outcome msg sent n k j m ok f r c a h =
      ground (arith, c, a, append_assoc n.accepted n.client.cache (msg ∷ []))
  after_sent-Outcome msg (error errno) n k j m ok f r c a h = elim (Bool-cases (errno == eagain)) [
    | inl again ↦
        subst (λ (p : Bool × State tls lib). Outcome msg n p.0 p.1)
          (done-injective (sym (if-true _ _ again) ∙ h))
          (inl (ap₂ (λ x y. x ++ (y ++ msg ∷ [])) a c))
    | inr fatal ↦
        let (d, ran, e) = >>=-eq-done (drop_socket tls lib j) _ (sym (if-false _ _ fatal) ∙ h) in
        let (kept, off, shut) = drop_socket-Kept tls lib j d ran in
        subst (λ (p : Bool × State tls lib). Outcome msg n p.0 p.1) (done-injective e)
          (inr ((k, f, (errno, fatal, r)), off, shut, kept.cache ∙ c, kept.accepted ∙ a))
  ]

  send_sctp_cache_data-true :
      (n m : State tls lib)
      → send_sctp_cache_data tls lib n ≡ done (true, m)
      → n.client.sctp_hand_shake_done ≡ true
  unfolding send_sctp_cache_data
  send_sctp_cache_data-true n m h = elim (Bool-cases n.client.sctp_hand_shake_done) [
    | inl on ↦ on
    | inr off ↦ let e = ap (λ p. p.0) (done-injective (sym (if-false _ _ off) ∙ h)) in cc
  ]

  send_behind_cache-Outcome :
      (msg : Message) (n k m : State tls lib) (status ok : Bool)
      → send_sctp_cache_data tls lib n ≡ done (status, k)
      → Flushes tls lib status n k
      → (status ≡ true → n.client.sctp_hand_shake_done ≡ true)
      → send_behind_cache tls lib (some msg) status k ≡ done (ok, m)
      → Outcome msg n ok m
  unfolding send_behind_cache push_msg_2client_cache
  send_behind_cache-Outcome msg n k m false ok run f on h =
      subst (λ (p : Bool × State tls lib). Outcome msg n p.0 p.1) (done-injective h)
        (inl (
          sym (append_assoc k.accepted k.client.cache (msg ∷ []))
          ∙ ap (λ x. x ++ msg ∷ []) f.whole))
  send_behind_cache-Outcome msg n k m true ok run f on h =
      let (empty, same) = f.all refl in
      let all_sent : k.accepted ≡ n.accepted ++ n.client.cache =
        sym (append-nil k.accepted) ∙ ap (λ x. k.accepted ++ x) (sym empty) ∙ f.whole in
      let ((res, j), ran, after) =
        >>=-eq-done (sendv tls lib msg k) _ (sym (if-true _ _ (same ∙ on refl)) ∙ h) in
      let (kept, _) = sendv-Kept tls lib msg k res j ran in
      after_sent-Outcome msg res n k j m ok run (sendv-result tls lib msg k res j ran)
        (kept.cache ∙ empty) (kept.accepted ∙ all_sent) after

  -- If `SendUsrSctpData` ends, this is what it has done.
  pub send_usr_sctp_data-Outcome :
      (msg : Message) (n m : State tls lib) (ok : Bool)
      → send_usr_sctp_data tls lib (some msg) n ≡ done (ok, m)
      → Outcome msg n ok m
  unfolding send_usr_sctp_data
  send_usr_sctp_data-Outcome msg n m ok h =
      let ((status, k), flushed, behind) = >>=-eq-done (send_sctp_cache_data tls lib n) _ h in
      send_behind_cache-Outcome msg n k m status ok flushed
        (send_sctp_cache_data-Flushes tls lib n status k flushed)
        (λ e. send_sctp_cache_data-true n k (flushed ∙ ap (λ s. done (s, k)) e)) behind
