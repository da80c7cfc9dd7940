-- ===== src/Dtls/Context.antt =====
-- RuruDtls.h and RuruDtls.cpp: `RuruDtlsCtx`, the context that all clients share.
use ruru.Base.{
  ℕ, ◌+◌, ◌-◌, ◌≡◌, refl, sym, ap, ◌∙◌, Bool, true, false, List, [], ◌∷◌, Option, none, some, arith,
  if◌then◌else◌, Bytes, length, ◌++◌,
}
use mathlib.Core.Path.{subst}
use ruru.OpenSsl.{
  Kind, context, Call, library_init, load_error_strings, load_bio_strings, load_crypto_strings,
  add_all_algorithms, print_errors, ctx_set_verify, OpenSsl, run_calls, one?, Owes, run_calls-owed,
}
use ruru.Cert.{finger_print, colon_text, finger_print_lem}
use ruru.Cert.Objects.{Cert, new_cert, delete_cert, delete_cert-new_cert}

-- `RuruDtlsCtx`; `none` is a null `ctx`, and a `certFingerPrint` that is not initialised.
pub record DtlsCtx : Type 0 where
  pub ctx : Option ℕ
  pub cert_finger_print : Option Bytes

abbrev pub library_calls : List Call
library_calls =
    library_init ∷ load_error_strings ∷ load_bio_strings ∷ load_crypto_strings ∷ add_all_algorithms
    ∷ []

module _ {W : Type 0} (ssl : OpenSsl W) where
  -- The five calls that start the library.
  abbrev pub init_library : W → W
  init_library w = run_calls ssl library_calls w

  -- `ERR_print_errors_fp(stderr); return;`
  abbrev pub fail : Option ℕ → W → DtlsCtx × W
  fail c w = (record { ctx = c; cert_finger_print = none }, ssl.call print_errors w)

  -- `if (call != 1){ ERR_print_errors_fp(stderr); return; }` and what is behind it.
  unfoldable pub or_fail : ℕ → Bool × W → (W → DtlsCtx × W) → DtlsCtx × W
  or_fail c r rest = if r.0 then rest r.1 else fail (some c) r.1

  -- From `SSL_CTX_use_PrivateKey` on.
  unfoldable pub use_cert : ℕ → Cert → W → DtlsCtx × W
  use_cert c cert w = or_fail c (ssl.use_private_key c cert.key w) λ w.
      or_fail c (ssl.use_certificate c cert.x509 w) λ w.
        or_fail c (ssl.check_private_key c w)
          λ w. (record { ctx = some c; cert_finger_print = some cert.finger_print }, w)

  -- The local `cert` is made, and destroyed at each `return` behind it.
  unfoldable pub with_cert : Bytes → ℕ → W → DtlsCtx × W
  with_cert memory c w =
      let (cert, w) = new_cert ssl memory (ssl.call (ctx_set_verify c) w) in
      let (d, w) = use_cert c cert w in (d, delete_cert ssl cert w)

  -- From what `SSL_CTX_new` gave.
  unfoldable pub with_ctx : Bytes → Option ℕ × W → DtlsCtx × W
  with_ctx memory (none, w) = fail none w
  with_ctx memory (some c, w) = or_fail c (ssl.set_cipher_list c w) (with_cert memory c)

  -- `RuruDtlsCtx()`, with what is in the certificate's `fingerPrint` before.
  unfoldable pub new_dtls_ctx : Bytes → W → DtlsCtx × W
  new_dtls_ctx memory w = with_ctx memory (ssl.ctx_new (init_library w))

  -- `~RuruDtlsCtx()`
  unfoldable pub delete_ctx : Option ℕ → W → Option ℕ × W
  delete_ctx none w = (none, w)
  delete_ctx (some c) w = (none, ssl.free context c w)

  unfoldable pub delete_dtls_ctx : DtlsCtx → W → DtlsCtx × W
  delete_dtls_ctx d w = let (c, w) = delete_ctx d.ctx w in (record d { ctx = c }, w)

module _ {W : Type 0} (ssl : OpenSsl W) (owes : Owes ssl) (k : Kind) (q : ℕ) where
  abbrev owed : W → ℕ
  owed w = owes.owed w k q

  -- What a part of the constructor leaves: the context, if there is one, is owed beside `n`.
  abbrev Leaves : ℕ → Option ℕ → DtlsCtx × W → Type 0
  Leaves n c (d, w) = (owed w ≡ n) × (d.ctx ≡ c)

  or_fail-Leaves :
      (n c : ℕ) (r : Bool × W) (rest : W → DtlsCtx × W)
      → owed r.1 ≡ n
      → ((w : W) → owed w ≡ n → Leaves n (some c) (rest w))
      → Leaves n (some c) (or_fail ssl c r rest)
  unfolding or_fail
  or_fail-Leaves n c (true, w) rest e on = on w e
  or_fail-Leaves n c (false, w) rest e on = (owes.calls print_errors w k q ∙ e, refl)

  use_cert-Leaves : (c : ℕ) (cert : Cert) (w : W) → Leaves (owed w) (some c) (use_cert ssl c cert w)
  unfolding use_cert
  use_cert-Leaves c cert w = or_fail-Leaves (owed w) c _ _ (owes.uses_key c cert.key w k q) λ w e.
      or_fail-Leaves _ c _ _ (owes.uses_certificate c cert.x509 w k q ∙ e)
        λ w e. or_fail-Leaves _ c _ _ (owes.checks c w k q ∙ e) λ w e. (e, refl)

  with_cert-Leaves :
      (memory : Bytes) (c : ℕ) (w : W) → Leaves (owed w) (some c) (with_cert ssl memory c w)
  unfolding with_cert
  with_cert-Leaves memory c w =
      let w1 = ssl.call (ctx_set_verify c) w in
      let (cert, w2) = new_cert ssl memory w1 in
      let (same, here) = use_cert-Leaves c cert w2 in
      (
        delete_cert-new_cert ssl owes k q memory w1 (use_cert ssl c cert w2).1 same
            ∙ owes.calls (ctx_set_verify c) w k q,
        here,
      )

  with_ctx-Leaves :
      (memory : Bytes) (o : Option ℕ) (w : W) → Leaves (owed w) o (with_ctx ssl memory (o, w))
  unfolding with_ctx
  with_ctx-Leaves memory none w = (owes.calls print_errors w k q, refl)
  with_ctx-Leaves memory (some c) w =
      or_fail-Leaves (owed w) c (ssl.set_cipher_list c w) (with_cert ssl memory c)
        (owes.sets_ciphers c w k q)
        λ w' e.
          subst (λ n. Leaves n (some c) (with_cert ssl memory c w')) e
            (with_cert-Leaves memory c w')

  pub delete_ctx-owed :
      (o : Option ℕ) (w : W) → owed (delete_ctx ssl o w).1 ≡ owed w - one? context o k q
  unfolding delete_ctx
  delete_ctx-owed none w = omega arith
  delete_ctx-owed (some c) w = owes.frees context c w k q

  -- However the constructor of RuruDtlsCtx returns, all that it has made is freed but for `ctx`, and
  -- the destructor frees that.
  pub delete_dtls_ctx-new_dtls_ctx :
      (memory : Bytes) (w : W)
      → let (d, w') = new_dtls_ctx ssl memory w in
        (owed w' ≡ owed w + one? context d.ctx k q) × (owed (delete_dtls_ctx ssl d w').1 ≡ owed w)
  unfolding new_dtls_ctx delete_dtls_ctx
  delete_dtls_ctx-new_dtls_ctx memory w =
      let start = init_library ssl w in
      let (d, w') = with_ctx ssl memory (ssl.ctx_new start) in
      let (same, here) = with_ctx-Leaves memory (ssl.ctx_new start).0 (ssl.ctx_new start).1 in
      let kept : owed w' ≡ owed w + one? context d.ctx k q =
        same
        ∙ owes.makes_context start k q
        ∙ ap (λ c. owed start + one? context c k q) (sym here)
        ∙ ap (λ n. n + one? context d.ctx k q) (run_calls-owed ssl owes library_calls w k q) in
      (kept, omega (arith, kept, delete_ctx-owed d.ctx w'))

-- The text of some digest of 32 bytes, with a zero that ends it.
abbrev pub IsPrint : Bytes → Type 0
IsPrint text =
    (b : ℕ) × (bs : Bytes) × (length (b ∷ bs) ≡ 32) × (text ≡ colon_text (b ∷ bs) ++ 0 ∷ [])

abbrev pub HasPrint : Option Bytes → Type 0
HasPrint none = Unit
HasPrint (some text) = IsPrint text

module _ {W : Type 0} (ssl : OpenSsl W)
    (sha_256 : (x : ℕ) (w : W) → length (ssl.digest x w).0 ≡ 32) where
  finger_print-IsPrint :
      (digest memory : Bytes)
      → length digest ≡ 32
      → length memory ≡ 96
      → IsPrint (finger_print digest memory)
  finger_print-IsPrint [] memory d m = absurd (omega arith)
  finger_print-IsPrint (b ∷ bs) memory d m = (b, bs, d, finger_print_lem b bs memory d m)

  new_cert-IsPrint :
      (memory : Bytes) (w : W) → length memory ≡ 96 → IsPrint (new_cert ssl memory w).0.finger_print
  unfolding new_cert
  new_cert-IsPrint memory w m = finger_print-IsPrint _ memory (sha_256 _ _) m

  or_fail-HasPrint :
      (c : ℕ) (r : Bool × W) (rest : W → DtlsCtx × W)
      → ((w : W) → HasPrint (rest w).0.cert_finger_print)
      → HasPrint (or_fail ssl c r rest).0.cert_finger_print
  unfolding or_fail
  or_fail-HasPrint c (true, w) rest on = on w
  or_fail-HasPrint c (false, w) rest on = tt

  with_ctx-HasPrint :
      (memory : Bytes) (r : Option ℕ × W)
      → length memory ≡ 96
      → HasPrint (with_ctx ssl memory r).0.cert_finger_print
  unfolding with_ctx with_cert use_cert
  with_ctx-HasPrint memory (none, w) m = tt
  with_ctx-HasPrint memory (some c, w) m = or_fail-HasPrint c _ _ λ w. or_fail-HasPrint c _ _ λ w'.
      or_fail-HasPrint c _ _
        λ w'. or_fail-HasPrint c _ _ λ w'. new_cert-IsPrint memory (ssl.call (ctx_set_verify c) w) m

  -- However the constructor of RuruDtlsCtx returns, what it has stored in `certFingerPrint`, if anything, is
  -- a digest of 32 bytes as pairs of hexadecimal digits with colons between them, and a zero.
  pub new_dtls_ctx-HasPrint :
      (memory : Bytes) (w : W)
      → length memory ≡ 96
      → HasPrint (new_dtls_ctx ssl memory w).0.cert_finger_print
  unfolding new_dtls_ctx
  new_dtls_ctx-HasPrint memory w m = with_ctx-HasPrint memory _ m
