-- ===== src/Dtls/Session.antt =====
-- RuruDtls.h and RuruDtls.cpp: `RuruDtls`, the DTLS session of one client.
use ruru.Base.{
  ℕ, ◌+◌, ◌≡◌, refl, ap, ◌∙◌, ◌⊎◌, inl, inr, Bool, false, [], ◌∷◌, Option, none, some, arith, Run,
  done, fault,
}
use ruru.OpenSsl.{
  Kind, session, bio, curve, bio_set_mem_eof_return, set_single_ecdh_use, set_no_resumption,
  ssl_set_tmp_ecdh, ssl_set_accept_state, ssl_set_mtu, OpenSsl, run_calls, one, one?, Owes,
  run_calls-owed,
}

-- `RuruDtls`; `none` is a null pointer.
pub record Dtls : Type 0 where
  pub ssl : Option ℕ
  pub in_bio : Option ℕ
  pub out_bio : Option ℕ
  pub hand_shake_done : Bool

module _ {W : Type 0} (ssl : OpenSsl W) where
  -- `BIO_new(BIO_s_mem())` and `BIO_set_mem_eof_return(..., -1)`
  abbrev pub new_mem_bio : W → ℕ × W
  new_mem_bio w = let (b, w) = ssl.make bio w in (b, ssl.call (bio_set_mem_eof_return b) w)

  -- The two options, the curve and the rest of the settings.
  unfoldable pub set_options : ℕ → W → W
  set_options s w =
      let w = run_calls ssl (set_single_ecdh_use s ∷ set_no_resumption s ∷ []) w in
      let (c, w) = ssl.make curve w in
      run_calls ssl
        (ssl_set_tmp_ecdh s c
          ∷ ssl_set_accept_state s
          ∷ ssl_set_mtu s 1400
          ∷ ssl_set_accept_state s
          ∷ [])
        w

  -- From `SSL_set_bio` on, which follows the pointer that `SSL_new` gave.
  unfoldable pub with_session : Option ℕ → ℕ → ℕ → W → Run (Dtls × W)
  with_session none i o w = fault
  with_session (some s) i o w = done (
    record { ssl = some s; in_bio = some i; out_bio = some o; hand_shake_done = false },
    set_options s (ssl.ssl_set_bio s i o w),
  )

  -- `RuruDtls(dtlsCtx)`, given `dtlsCtx->ctx`.
  unfoldable pub new_dtls : Option ℕ → W → Run (Dtls × W)
  new_dtls ctx w =
      let (s, w) = ssl.ssl_new ctx w in
      let (i, w) = new_mem_bio w in let (o, w) = new_mem_bio w in with_session s i o w

  unfoldable pub free_session : Option ℕ → W → W
  free_session none w = w
  free_session (some s) w = ssl.free session s w

  -- `~RuruDtls()`
  unfoldable pub delete_dtls : Dtls → W → Dtls × W
  delete_dtls d w = (record d { ssl = none; in_bio = none; out_bio = none }, free_session d.ssl w)

module _ {W : Type 0} (ssl : OpenSsl W) (owes : Owes ssl) where
  abbrev owed : W → Kind → ℕ → ℕ
  owed w k q = owes.owed w k q

  -- The curve that `set_options` makes stays owed.
  set_options-owed :
      (s : ℕ) (w : W)
      → (c : ℕ) × ((k : Kind) (q : ℕ)
          → owed (set_options ssl s w) k q ≡ owed w k q + one curve c k q)
  unfolding set_options
  set_options-owed s w =
      let before = set_single_ecdh_use s ∷ set_no_resumption s ∷ [] in
      let (c, w2) = ssl.make curve (run_calls ssl before w) in
      let after =
        ssl_set_tmp_ecdh s c
        ∷ ssl_set_accept_state s
        ∷ ssl_set_mtu s 1400
        ∷ ssl_set_accept_state s
        ∷ [] in
      (
        c,
        λ k q.
            run_calls-owed ssl owes after w2 k q
            ∙ owes.makes curve (run_calls ssl before w) k q
            ∙ ap (λ n. n + one curve c k q) (run_calls-owed ssl owes before w k q),
      )

  pub new_mem_bio-owed :
      (k : Kind) (q : ℕ) (w : W)
      → owed (new_mem_bio ssl w).1 k q ≡ owed w k q + one bio (new_mem_bio ssl w).0 k q
  new_mem_bio-owed k q w =
      let (b, w1) = ssl.make bio w in
      owes.calls (bio_set_mem_eof_return b) w1 k q ∙ owes.makes bio w k q

  -- What the constructor leaves behind a session and two BIOs, where `n` was owed before: the key is one
  -- for all objects.
  abbrev pub Sets : (Kind → ℕ → ℕ) → Run (Dtls × W) → Type 0
  Sets n r =
      (d : Dtls) × (w : W) × (c : ℕ) × (r ≡ done (d, w))
      × ((k : Kind) (q : ℕ) → owed w k q ≡ n k q + one? session d.ssl k q + one curve c k q)
      × ((k : Kind) (q : ℕ) → owed (delete_dtls ssl d w).1 k q ≡ n k q + one curve c k q)

  with_session-Sets :
      (s i o : ℕ) (n : Kind → ℕ → ℕ) (w : W)
      → ((k : Kind) (q : ℕ)
          → owed w k q ≡ n k q + one session s k q + one bio i k q + one bio o k q)
      → Sets n (with_session ssl (some s) i o w)
  unfolding with_session delete_dtls free_session
  with_session-Sets s i o n w e =
      let w1 = ssl.ssl_set_bio s i o w in
      let (c, set) = set_options-owed s w1 in
      let w2 = set_options ssl s w1 in
      let left : (k : Kind) (q : ℕ) → owed w2 k q ≡ n k q + one session s k q + one curve c k q =
        λ k q. omega (arith, e k q, set k q, owes.sets_bio s i o w k q) in
      (_, w2, c, refl, left, λ k q. omega (arith, left k q, owes.frees session s w2 k q))

  with_session-cases :
      (s : Option ℕ) (i o : ℕ) (n : Kind → ℕ → ℕ) (w : W)
      → ((k : Kind) (q : ℕ)
          → owed w k q ≡ n k q + one? session s k q + one bio i k q + one bio o k q)
      → ((s ≡ none) × (with_session ssl s i o w ≡ fault)) ⊎ Sets n (with_session ssl s i o w)
  unfolding with_session
  with_session-cases none i o n w e = inl (refl, refl)
  with_session-cases (some s) i o n w e = inr (with_session-Sets s i o n w e)

  -- The constructor of RuruDtls faults where `SSL_new` gives null. Otherwise the session, with its two
  -- BIOs, and one EC_KEY are left to be freed, beside all that was before, and the destructor frees all
  -- of it but the EC_KEY.
  pub new_dtls-Sets :
      (ctx : Option ℕ) (w : W)
      → (((ssl.ssl_new ctx w).0 ≡ none) × (new_dtls ssl ctx w ≡ fault))
        ⊎ Sets (owed w) (new_dtls ssl ctx w)
  unfolding new_dtls
  new_dtls-Sets ctx w =
      let (s, w1) = ssl.ssl_new ctx w in
      let (i, w2) = new_mem_bio ssl w1 in
      let (o, w3) = new_mem_bio ssl w2 in
      with_session-cases s i o (owed w) w3 λ k q.
        omega
          (arith, owes.makes_session ctx w k q, new_mem_bio-owed k q w1, new_mem_bio-owed k q w2)
