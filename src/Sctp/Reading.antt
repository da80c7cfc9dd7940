-- ===== src/Sctp/Reading.antt =====
-- RuruSctp.cpp, `RecvUsrSctpData`, and RuruClient.cpp, `HandleDtlsPacket`: what a datagram does.
use ruru.Base.{
  ◌≡◌, refl, ap, ◌∙◌, ◌⊎◌, inl, inr, Bool, true, false, ℕ, ◌<◌, ◌≤◌, arith, Option, none, some,
  Bytes, done, ◌>>=◌, if-true, if-false, Bool-cases,
}
use mathlib.Core.Path.{subst}
use ruru.Client.{Client, Node}
use ruru.Dtls.{Tls, MemBio}
use ruru.Sctp.{Usrsctp, run_upcalls}
use ruru.Sctp.Frame.{run_upcalls-UpcallFrame}
use ruru.Sctp.Upcalls.{run_upcalls_done}
use ruru.Sctp.Total.{IsBounded}
use ruru.Sctp.Stable.{IsStable, run_upcalls-IsStable}
use ruru.Sctp.Send.{State}
use ruru.Sctp.Receive.{take_association, accept_association, recv_usr_sctp_data}

-- The incoming BIO: what is written out does not touch it, and `SSL_read` takes at least a byte of it
-- where it holds any.
pub record Consumes (tls : Tls) : Type 0 where
  pub read_out_keeps :
      (size : ℕ) (s : tls.State) → tls.in_pending (tls.bio_read_out size s).1 ≡ tls.in_pending s
  pub write_keeps :
      (bytes : Bytes) (s : tls.State) → tls.in_pending (tls.ssl_write bytes s) ≡ tls.in_pending s
  pub read_takes :
      (size : ℕ) (s : tls.State)
      → 0 < size
      → 0 < tls.in_pending s
      → tls.in_pending (tls.ssl_read size s).1 < tls.in_pending s

-- The incoming BIO holds no more than `k` bytes.
abbrev pub AtMost : (tls : Tls) → ℕ → tls.State → Type 0
AtMost tls k s = tls.in_pending s ≤ k

pub AtMost-IsStable : (tls : Tls) (k : ℕ) → Consumes tls → IsStable tls (AtMost tls k)
AtMost-IsStable tls k c = record {
  read_out = λ size s p. omega (arith, c.read_out_keeps size s);
  write = λ bytes s p. omega (arith, c.write_keeps bytes s);
}

-- The client's socket and its state after a packet: what `usrsctp_accept` gives takes the place of
-- the listening socket, once.
abbrev pub Associated : Option ℕ → Option ℕ → Bool → Option ℕ → Bool → Type 0
Associated accepted sock true sock' up = (sock' ≡ sock) × (up ≡ true)
Associated none sock false sock' up = (sock' ≡ sock) × (up ≡ false)
Associated (some s) sock false sock' up = (sock' ≡ some s) × (up ≡ true)

-- An association is up, or no failed send has closed `sock_`.
abbrev pub CanReceive : {S : Type 0} → Client S → Type 0
CanReceive c = (c.sctp_hand_shake_done ≡ true) ⊎ (c.sock_closed ≡ false)

module _ {S L : Type 0} where
  abbrev pub IsUsable : Node S L → Type 0
  IsUsable n = (n.client.sctp_hand_shake_done ≡ true) ⊎ (n.client.sock_closed ≡ false)

  still_open :
      (n : Node S L)
      → IsUsable n
      → n.client.sctp_hand_shake_done ≡ false
      → n.client.sock_closed ≡ false
  still_open n (inl on) off = cc
  still_open n (inr o) off = o

module _ (tls : Tls) (lib : Usrsctp) (bio : MemBio tls) (fit : IsBounded lib) where
  -- What a packet leaves as it is, and what becomes of the association.
  pub record Taken (P : tls.State → Type 0) (n m : State tls lib) : Type 0 where
    pub ssl : P n.client.ssl → P m.client.ssl
    pub cache : m.client.cache ≡ n.client.cache
    pub accepted : m.accepted ≡ n.accepted
    pub dtls : m.client.dtls_hand_shake_done ≡ n.client.dtls_hand_shake_done
    pub closed : m.client.sock_closed ≡ n.client.sock_closed
    pub association :
        Associated
          (lib.accept n.client.sock n.stack).0
          n.client.sock
          n.client.sctp_hand_shake_done
          m.client.sock
          m.client.sctp_hand_shake_done

  pub Taken-IsUsable :
      (P : tls.State → Type 0) (n m : State tls lib) → Taken P n m → IsUsable n → IsUsable m
  Taken-IsUsable P n m t (inr o) = inr (t.closed ∙ o)
  Taken-IsUsable P n m t (inl on) =
      inl
        (subst
          (λ up.
            Associated (lib.accept n.client.sock n.stack).0 n.client.sock up m.client.sock
              m.client.sctp_hand_shake_done)
          on t.association).1

  module _ (P : tls.State → Type 0) (stable : IsStable tls P) where
    take_association-Taken :
        (s : Option ℕ) (n : State tls lib) (stack : lib.Stack)
        → (lib.accept n.client.sock n.stack).0 ≡ s
        → n.client.sctp_hand_shake_done ≡ false
        → (m : State tls lib) × (take_association tls lib s (record n { stack = stack }) ≡ done m)
          × Taken P n m
    unfolding take_association
    take_association-Taken none n stack e off = (
      record n { stack = stack },
      refl,
      record {
        ssl = λ p. p;
        cache = refl;
        accepted = refl;
        dtls = refl;
        closed = refl;
        association = rw (e, off) ((refl, refl));
      },
    )
    take_association-Taken (some s) n stack e off =
        let n' : State tls lib = record n { stack = (lib.close n.client.sock stack).1 } in
        let ups = (lib.close n.client.sock stack).0 in
        let (k, ran) = run_upcalls_done tls bio ups n' (fit.close_fits n.client.sock stack) in
        let f = run_upcalls-UpcallFrame tls ups n' ran in
        (
          record k { client = record (k.client) { sock = some s; sctp_hand_shake_done = true } },
          ap
              (λ r. r >>= λ (m : State tls lib). done (record m {
                client = record (m.client) { sock = some s; sctp_hand_shake_done = true };
              }))
              ran,
          record {
            ssl = run_upcalls-IsStable tls P stable ups n' k ran;
            cache = ap (λ x. x.client.cache) f;
            accepted = ap (λ x. x.accepted) f;
            dtls = ap (λ x. x.client.dtls_hand_shake_done) f;
            closed = ap (λ x. x.client.sock_closed) f;
            association = rw (e, off) ((refl, refl));
          },
        )

    accept_association-Taken :
        (n : State tls lib)
        → IsUsable n
        → (m : State tls lib) × (accept_association tls lib n ≡ done m) × Taken P n m
    unfolding accept_association
    accept_association-Taken n usable = elim (Bool-cases n.client.sctp_hand_shake_done) [
      | inl on ↦ (
        n,
        if-true _ _ on,
        record {
          ssl = λ p. p;
          cache = refl;
          accepted = refl;
          dtls = refl;
          closed = refl;
          association = rw on ((refl, refl));
        },
      )
      | inr off ↦
          let (m, e, t) =
            take_association-Taken (lib.accept n.client.sock n.stack).0 n
              (lib.accept n.client.sock n.stack).1 refl off in
          (m, if-false _ _ off ∙ if-false _ _ (still_open n usable off) ∙ e, t)
    ]

    -- `RecvUsrSctpData` ends without a fault, over memory BIOs, where usrsctp sends no overrunning heart
    -- beat, and where an association is up or no failed send has closed `sock_`. With an association
    -- up it accepts no other; with none it takes over what `usrsctp_accept` gives, if anything. The
    -- cache, what usrsctp has accepted and the DTLS state stay, and so does every property of `ssl`
    -- that writing and flushing keep.
    pub recv_usr_sctp_data-Taken :
        (bytes : Bytes) (n : State tls lib)
        → IsUsable n
        → (m : State tls lib) × (recv_usr_sctp_data tls lib bytes n ≡ done m) × Taken P n m
    unfolding recv_usr_sctp_data
    recv_usr_sctp_data-Taken bytes n usable =
        let (k, accepted, t) = accept_association-Taken n usable in
        let ups = (lib.conninput bytes k.stack).0 in
        let k' : State tls lib = record k { stack = (lib.conninput bytes k.stack).1 } in
        let (m, ran) = run_upcalls_done tls bio ups k' (fit.conninput_fits bytes k.stack) in
        let f = run_upcalls-UpcallFrame tls ups k' ran in
        (
          m,
          ap
                (λ r. r >>= λ (m : State tls lib).
                  run_upcalls tls (lib.conninput bytes m.stack).0
                    (record m { stack = (lib.conninput bytes m.stack).1 }))
                accepted
              ∙ ran,
          record {
            ssl = λ p. run_upcalls-IsStable tls P stable ups k' m ran (t.ssl p);
            cache = ap (λ x. x.client.cache) f ∙ t.cache;
            accepted = ap (λ x. x.accepted) f ∙ t.accepted;
            dtls = ap (λ x. x.client.dtls_hand_shake_done) f ∙ t.dtls;
            closed = ap (λ x. x.client.sock_closed) f ∙ t.closed;
            association =
                rw (ap (λ x. x.client.sock) f, ap (λ x. x.client.sctp_hand_shake_done) f)
                  t.association;
          },
        )
