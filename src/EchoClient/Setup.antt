-- ===== src/EchoClient/Setup.antt =====
-- examples/EchoClient.cpp: `opensslLabInit`, `dtlsTransInit` and `socketCreateSet`.
use ruru.Base.{
  ℕ, ◌+◌, ◌^◌, ◌≡◌, refl, sym, ap, ◌∙◌, ◌⊎◌, inl, inr, Bool, true, false, [], ◌∷◌, Option, none,
  some, if◌then◌else◌, arith, Bytes, to_unsigned, Run, done, fault, Option-cases,
}
use mathlib.Core.Path.{subst}
use ruru.OpenSsl.{
  Kind, context, session, curve, ctx_set_read_ahead, ctx_set_ecdh_auto, ssl_set_connect_state,
  ssl_set_tmp_ecdh, set_single_ecdh_use, OpenSsl, run_calls, one, one?, Owes, run_calls-owed,
}
use ruru.Dtls.Context.{init_library}
use ruru.Dtls.Session.{new_mem_bio, new_mem_bio-owed}
use ruru.Net.{swap16}
use ruru.Net.Decimal.{atoi}
use ruru.Net.Sockets.{Sys, set_non_blocking}
use ruru.EchoClient.{SockAddr}

-- `ctx`, `ssl`, `inBio` and `outBio`
pub record Globals : Type 0 where
  pub ctx : ℕ
  pub ssl : ℕ
  pub in_bio : ℕ
  pub out_bio : ℕ

module _ {W : Type 0} (ssl : OpenSsl W) where
  -- `opensslLabInit`, which returns true.
  unfoldable pub openssl_lab_init : W → W
  openssl_lab_init w = init_library ssl w

  -- The end of `dtlsTransInit`, from `SSL_set_connect_state` on.
  unfoldable pub connect_settings : ℕ → W → W
  connect_settings s w =
      let (c, w) = ssl.make curve (ssl.call (ssl_set_connect_state s) w) in
      run_calls ssl (ssl_set_tmp_ecdh s c ∷ set_single_ecdh_use s ∷ []) w

  -- From what `SSL_new` gave: `SSL_set_bio` follows the pointer.
  unfoldable pub with_ssl : ℕ → Option ℕ × W → Run (Globals × W)
  with_ssl c (none, w) = fault
  with_ssl c (some s, w) =
      let (i, w) = new_mem_bio ssl w in
      let (o, w) = new_mem_bio ssl w in
      done (
        record { ctx = c; ssl = s; in_bio = i; out_bio = o },
        connect_settings s (ssl.ssl_set_bio s i o w),
      )

  -- From what `SSL_CTX_new` gave: `SSL_CTX_set_read_ahead` follows the pointer. The result of
  -- `SSL_CTX_set_cipher_list` is not looked at.
  unfoldable pub with_ctx : Option ℕ × W → Run (Globals × W)
  with_ctx (none, w) = fault
  with_ctx (some c, w) =
      let (_, w) =
        ssl.set_cipher_list c
          (run_calls ssl (ctx_set_read_ahead c 1 ∷ ctx_set_ecdh_auto c 1 ∷ []) w) in
      with_ssl c (ssl.ssl_new (some c) w)

  -- `dtlsTransInit`, which returns true.
  unfoldable pub dtls_trans_init : W → Run (Globals × W)
  dtls_trans_init w = with_ctx (ssl.ctx_new w)

-- An address for `bind` or `sendto`.
unfoldable pub sock_addr : (Bytes → ℕ) → Bytes → Bytes → SockAddr
sock_addr inet_addr ip port = record {
  s_addr = inet_addr ip;
  sin_port = swap16 (to_unsigned (2 ^ 16) (atoi port));
}

module _ {W : Type 0} (sys : Sys W) where
  -- `bind`, and `SetNonBlocking`, whose result is not looked at.
  unfoldable pub bind_client : SockAddr → ℕ → W → Bool × W
  bind_client a fd w =
      let (ok, w) = sys.bind fd a.s_addr a.sin_port w in
      if ok then (true, (set_non_blocking sys fd w).1) else (false, w)

  unfoldable pub with_socket : SockAddr → Option ℕ × W → Bool × Option ℕ × W
  with_socket a (none, w) = (false, none, w)
  with_socket a (some fd, w) = let (ok, w) = bind_client a fd w in (ok, some fd, w)

  -- `socketCreateSet`: `ser_addr`, what it returns, and `fd`, where `none` is -1.
  unfoldable pub socket_create_set :
      Bytes → Bytes → Bytes → Bytes → W → SockAddr × Bool × Option ℕ × W
  socket_create_set lip lport rip rport w =
      let (ok, fd, w) = with_socket (sock_addr sys.inet_addr lip lport) (sys.datagram_socket w) in
      (sock_addr sys.inet_addr rip rport, ok, fd, w)

module _ {W : Type 0} (sys : Sys W) where
  with_socket-fd :
      (a : SockAddr) (o : Option ℕ) (w : W) (n : ℕ)
      → o ≡ some n
      → (with_socket sys a (o, w)).1 ≡ some n
  unfolding with_socket
  with_socket-fd a none w n e = cc
  with_socket-fd a (some fd) w n e = e

  -- `fd` is what `socket` gave, whatever became of it behind that.
  pub socket_create_set-fd :
      (lip lport rip rport : Bytes) (w : W) (n : ℕ)
      → (sys.datagram_socket w).0 ≡ some n
      → (socket_create_set sys lip lport rip rport w).2 ≡ some n
  unfolding socket_create_set
  socket_create_set-fd lip lport rip rport w n e =
      with_socket-fd (sock_addr sys.inet_addr lip lport) (sys.datagram_socket w).0
        (sys.datagram_socket w).1 n e

module _ {W : Type 0} (ssl : OpenSsl W) where
  -- Some call gives a null pointer.
  abbrev pub Nulls : W → Type 0
  Nulls w = ((ssl.ctx_new w).0 ≡ none) ⊎ ((c : ℕ) × (w' : W) × ((ssl.ssl_new (some c) w').0 ≡ none))

module _ {W : Type 0} (ssl : OpenSsl W) (owes : Owes ssl) (k : Kind) (q : ℕ) where
  abbrev owed : W → ℕ
  owed w = owes.owed w k q

  -- What the client never frees: its context, its session and a curve.
  abbrev pub Holds : ℕ → Run (Globals × W) → Type 0
  Holds n r =
      (g : Globals) × (w : W) × (c : ℕ) × (r ≡ done (g, w))
      × (owed w ≡ n + one context g.ctx k q + one session g.ssl k q + one curve c k q)

  connect_settings-owed :
      (s : ℕ) (w : W) → (c : ℕ) × (owed (connect_settings ssl s w) ≡ owed w + one curve c k q)
  unfolding connect_settings
  connect_settings-owed s w =
      let w1 = ssl.call (ssl_set_connect_state s) w in
      let (c, w2) = ssl.make curve w1 in
      (
        c,
        omega (
          arith,
          owes.calls (ssl_set_connect_state s) w k q,
          owes.makes curve w1 k q,
          run_calls-owed ssl owes (ssl_set_tmp_ecdh s c ∷ set_single_ecdh_use s ∷ []) w2 k q,
        ),
      )

  with_ssl-Holds :
      (c s n : ℕ) (w : W)
      → owed w ≡ n + one context c k q + one session s k q
      → Holds n (with_ssl ssl c (some s, w))
  unfolding with_ssl
  with_ssl-Holds c s n w e =
      let (i, w1) = new_mem_bio ssl w in
      let (o, w2) = new_mem_bio ssl w1 in
      let w3 = ssl.ssl_set_bio s i o w2 in
      let (curve_key, last) = connect_settings-owed s w3 in
      (
        _,
        connect_settings ssl s w3,
        curve_key,
        refl,
        omega (
          arith,
          new_mem_bio-owed ssl owes k q w,
          new_mem_bio-owed ssl owes k q w1,
          owes.sets_bio s i o w2 k q,
        ),
      )

  with_ctx-Holds :
      (c : ℕ) (w : W)
      → ((w' : W) × ((ssl.ssl_new (some c) w').0 ≡ none) × (with_ctx ssl (some c, w) ≡ fault))
        ⊎ ((n : ℕ) → owed w ≡ n + one context c k q → Holds n (with_ctx ssl (some c, w)))
  unfolding with_ctx with_ssl
  with_ctx-Holds c w =
      let w1 = run_calls ssl (ctx_set_read_ahead c 1 ∷ ctx_set_ecdh_auto c 1 ∷ []) w in
      let w2 = (ssl.set_cipher_list c w1).1 in
      let (o, w3) = ssl.ssl_new (some c) w2 in
      elim (Option-cases (ssl.ssl_new (some c) w2).0) [
        | inl null ↦ inl (w2, null, ap (λ o. with_ssl ssl c (o, w3)) null)
        | inr (s, given) ↦ inr λ n e.
            let owes_both : owed w3 ≡ n + one context c k q + one session s k q =
              owes.makes_session (some c) w2 k q
              ∙ ap (λ o. owed w2 + one? session o k q) given
              ∙ ap (λ m. m + one session s k q)
                  (owes.sets_ciphers c w1 k q
                    ∙ run_calls-owed ssl owes (ctx_set_read_ahead c 1 ∷ ctx_set_ecdh_auto c 1 ∷ [])
                        w k q
                    ∙ e) in
            subst (λ o. Holds n (with_ssl ssl c (o, w3))) (sym given)
              (with_ssl-Holds c s n w3 owes_both)
      ]

  -- `dtlsTransInit` faults where a null pointer is given for the context or the session, neither of
  -- which it tests. Otherwise the context, the session with its two BIOs, and an EC_KEY are left to be
  -- freed, and nothing else.
  pub dtls_trans_init-Holds :
      (w : W)
      → (Nulls ssl w × (dtls_trans_init ssl w ≡ fault)) ⊎ Holds (owed w) (dtls_trans_init ssl w)
  unfolding dtls_trans_init with_ctx
  dtls_trans_init-Holds w =
      let (o, w1) = ssl.ctx_new w in
      elim (Option-cases (ssl.ctx_new w).0) [
        | inl null ↦ inl (inl null, ap (λ o. with_ctx ssl (o, w1)) null)
        | inr (c, given) ↦
            let owes_it : owed w1 ≡ owed w + one context c k q =
              owes.makes_context w k q ∙ ap (λ o. owed w + one? context o k q) given in
            elim (with_ctx-Holds c w1) [
              | inl (w', null, bad) ↦
                  inl (inr (c, w', null), ap (λ o. with_ctx ssl (o, w1)) given ∙ bad)
              | inr holds ↦ inr (
                  subst (λ o. Holds (owed w) (with_ctx ssl (o, w1))) (sym given)
                    (holds (owed w) owes_it))
            ]
      ]
