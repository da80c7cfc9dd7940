-- ===== src/Sctp/Delivery.antt =====
-- RuruSctp.cpp: what a series of upcalls delivers to the program's queue.
use mathlib.Core.Path.{subst}
use ruru.Base.{
  ℕ, ◌<◌, ◌^◌, ◌≡◌, refl, ◌-◌, if◌then◌else◌, ap, ◌∙◌, sym, ◌⊎◌, inl, inr, Bool, true, false, List,
  [], ◌∷◌, ◌++◌, Option, none, some, arith, Bytes, done, >>=-eq-done, done-injective, length, ltb,
  if-true, if-false, Bool-cases, append-nil, append_assoc,
}
use ruru.Event.{RcvInfo, Upcall, outbound, inbound, heart_beat_size}
use ruru.Dtls.{Tls}
use ruru.Client.{Node, client_send_data}
use ruru.Sctp.{
  store_heart_beat, push_client_recv_data, on_sctp_inbound_packet, run_upcall, run_upcalls,
  on_sctp_outbound_packet,
}
use ruru.Sctp.Frame.{client_send_data-SendFrame}
use ruru.Sctp.Receipt.{
  IsStored, Received, queued, free, kept, fits, ReceivedIf, unchanged, unchanged-Received,
  push_client_recv_data-ReceivedIf,
}

-- Every packet that comes in has a length that `evt.length` can say.
abbrev pub AreShort : List Upcall → Type 0
AreShort [] = Unit {0}
AreShort (outbound packet ∷ us) = AreShort us
AreShort (inbound none rcv ∷ us) = AreShort us
AreShort (inbound (some packet) rcv ∷ us) = (length packet < 2 ^ 16) × AreShort us

module _ (tls : Tls) {L : Type 0} where
  store_heart_beat-Received :
      (packet : Bytes) (n m : Node tls.State L)
      → IsStored n
      → store_heart_beat packet n ≡ done m
      → Received n [] (free n.arena) m
  unfolding store_heart_beat
  store_heart_beat-Received packet n m s h =
      elim (Bool-cases (ltb heart_beat_size (length packet))) [
        | inl long ↦ let e = sym (if-true _ _ long) ∙ h in cc
        | inr short ↦
            let e = done-injective (sym (if-false _ _ short) ∙ h) in
            subst (λ x. Received n [] (free n.arena) x) e
              (unchanged-Received n _ _ s refl refl (tt, tt) (λ _. refl) refl)
      ]

  outbound_cases :
      (packet : Bytes) (n m : Node tls.State L)
      → on_sctp_outbound_packet tls (some packet) n ≡ done m
      → (n ≡ m) ⊎ (store_heart_beat packet n ≡ done m) ⊎ (client_send_data tls packet n ≡ done m)
  unfolding on_sctp_outbound_packet
  outbound_cases packet n m h = ground arith

  -- A packet that goes out leaves what was received alone.
  outbound-Received :
      (packet : Option Bytes) (n m : Node tls.State L)
      → IsStored n
      → on_sctp_outbound_packet tls packet n ≡ done m
      → Received n [] (free n.arena) m
  unfolding on_sctp_outbound_packet
  outbound-Received none n m s h =
      subst (λ x. Received n [] (free n.arena) x) (done-injective h) (unchanged n s)
  outbound-Received (some packet) n m s h = elim (outbound_cases packet n m h) [
    | inl same ↦ subst (λ x. Received n [] (free n.arena) x) same (unchanged n s)
    | inr (inl stored) ↦ store_heart_beat-Received packet n m s stored
    | inr (inr sent) ↦
        let f = client_send_data-SendFrame tls packet n sent in
        unchanged-Received n m [] s (ap (λ x. x.arena) f)
          (ap (λ x. x.que) f ∙ sym (append-nil n.que)) tt (λ _. refl)
          (ap (λ x. x.client.attached) f)
  ]

  abbrev Delivers : Node tls.State L → List Bytes → Node tls.State L → Type 0
  Delivers n packets m = IsStored m × (queued m ≡ queued n ++ packets)

  Delivers-after :
      {n k m : Node tls.State L} {xs : List Bytes} {room : ℕ} (ys : List Bytes)
      → Received n xs room k
      → Delivers k ys m
      → Delivers n (xs ++ ys) m
  Delivers-after {n} {k} {m} {xs} ys r d =
      (d.0, d.1 ∙ ap (λ t. t ++ ys) r.data_kept ∙ append_assoc (queued n) xs ys)

  IsStored-by :
      (packet : Bytes) (rcv : RcvInfo) (n k : Node tls.State L) (s : IsStored n) (b : Bool)
      → ReceivedIf packet rcv n s b k
      → IsStored k
  IsStored-by packet rcv n k s true r = r.stored
  IsStored-by packet rcv n k s false r = r.stored

  inbound_step :
      (packet : Bytes) (rcv : RcvInfo) (us : List Upcall) (n k m : Node tls.State L)
      (s : IsStored n) (b : Bool)
      → ReceivedIf packet rcv n s b k
      → Delivers k (kept (free k.arena) us) m
      → Delivers n
          (if b then packet ∷ kept (free n.arena - length packet) us else kept (free n.arena) us)
          m
  inbound_step packet rcv us n k m s true r d =
      Delivers-after (kept (free n.arena - length packet) us) r
        (subst (λ room. Delivers k (kept room us) m) r.left d)
  inbound_step packet rcv us n k m s false r d =
      Delivers-after (kept (free n.arena) us) r
        (subst (λ room. Delivers k (kept room us) m) r.left d)

  -- What usrsctp hands up during a call is queued in the order in which it comes, each packet whole
  -- and as it was received, behind all that was queued and not yet read, which stays as it is; only
  -- a packet that is empty or finds no room in the arena is left out. Heart beats and packets that
  -- go out in between change none of it. It holds if the queue's data lies in the used part of a
  -- valid arena, which it does again afterwards, and the packets are shorter than 65536 bytes.
  pub run_upcalls-Delivers :
      (us : List Upcall) (n m : Node tls.State L)
      → IsStored n
      → AreShort us
      → run_upcalls tls us n ≡ done m
      → Delivers n (kept (free n.arena) us) m
  unfolding run_upcalls run_upcall on_sctp_inbound_packet
  run_upcalls-Delivers [] n m s short h =
      subst (λ x. Delivers n [] x) (done-injective h) (s, sym (append-nil (queued n)))
  run_upcalls-Delivers (outbound packet ∷ us) n m s short h =
      let (k, first, rest) = >>=-eq-done (on_sctp_outbound_packet tls packet n) _ h in
      let r = outbound-Received packet n k s first in
      Delivers-after (kept (free n.arena) us) r (
        subst (λ room. Delivers k (kept room us) m) r.left
          (run_upcalls-Delivers us k m r.stored short rest))
  run_upcalls-Delivers (inbound none rcv ∷ us) n m s short h = run_upcalls-Delivers us n m s short h
  run_upcalls-Delivers (inbound (some packet) rcv ∷ us) n m s short h =
      let k = push_client_recv_data packet rcv n in
      let r = push_client_recv_data-ReceivedIf packet rcv n s short.0 in
      inbound_step packet rcv us n k m s (fits (free n.arena) packet) r (
        run_upcalls-Delivers us k m (IsStored-by packet rcv n k s (fits (free n.arena) packet) r)
          short.1 h)
