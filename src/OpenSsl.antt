-- ===== src/OpenSsl.antt =====
-- The functions of OpenSSL with which RuruCert.cpp, RuruDtls.cpp and examples/EchoClient.cpp set keys,
-- certificates and sessions up, taken as an interface, and who frees what they make.
use ruru.Base.{
  ℕ, ◌+◌, ◌-◌, ◌≡◌, refl, ◌∙◌, Bool, ◌&&◌, List, [], ◌∷◌, Option, none, some, ◌==◌, if◌then◌else◌,
  Bytes,
}

-- The kinds of object that the program makes. `curve` is an EC_KEY.
pub data Kind : Type 0 where
  pkey x509 bignum rsa name context session bio curve : Kind

abbrev pub kind_index : Kind → ℕ
kind_index pkey = 0
kind_index x509 = 1
kind_index bignum = 2
kind_index rsa = 3
kind_index name = 4
kind_index context = 5
kind_index session = 6
kind_index bio = 7
kind_index curve = 8

-- Calls whose result the program does not look at, and which take no object over. An object is a
-- number; of an X509_NAME entry it is the common name that is set.
pub data Call : Type 0 where
  library_init load_error_strings load_bio_strings load_crypto_strings add_all_algorithms : Call
  bn_set_word : ℕ → ℕ → Call
  rsa_generate_key_ex : ℕ → ℕ → ℕ → Call
  x509_set_pubkey : ℕ → ℕ → Call
  bn_pseudo_rand : ℕ → ℕ → Call
  -- `BN_to_ASN1_INTEGER` into `X509_get_serialNumber`
  set_serial_number : ℕ → ℕ → Call
  x509_set_version : ℕ → ℕ → Call
  add_common_name : ℕ → Bytes → Call
  x509_set_subject_name x509_set_issuer_name : ℕ → ℕ → Call
  -- `X509_gmtime_adj` of the two dates
  adjust_not_before adjust_not_after : ℕ → ℕ → Call
  -- with SHA-1
  x509_sign : ℕ → ℕ → Call
  print_errors : Call
  -- with SSL_VERIFY_NONE
  ctx_set_verify : ℕ → Call
  ctx_set_read_ahead ctx_set_ecdh_auto : ℕ → ℕ → Call
  ctx_set_ciphers : ℕ → Call
  bio_set_mem_eof_return : ℕ → Call
  set_single_ecdh_use set_no_resumption : ℕ → Call
  ssl_set_tmp_ecdh : ℕ → ℕ → Call
  ssl_set_accept_state ssl_set_connect_state : ℕ → Call
  ssl_set_mtu : ℕ → ℕ → Call

-- `none` is a null pointer, and `false` a result other than 1. The functions that make an object of
-- a `Kind` without a test of the pointer are taken to give one.
pub record OpenSsl (W : Type 0) : Type 0 where
  pub make : Kind → W → ℕ × W
  pub free : Kind → ℕ → W → W
  pub call : Call → W → W
  -- `EVP_PKEY_assign_RSA(key, rsa)`
  pub assign_rsa : ℕ → ℕ → W → W
  -- `X509_digest` with SHA-256
  pub digest : ℕ → W → Bytes × W
  -- `SSL_CTX_new(DTLS_method())`
  pub ctx_new : W → Option ℕ × W
  -- `SSL_CTX_set_cipher_list` to "ALL:!ADH:!LOW:!EXP:!MD5:@STRENGTH"
  pub set_cipher_list : ℕ → W → Bool × W
  pub use_private_key : ℕ → ℕ → W → Bool × W
  pub use_certificate : ℕ → ℕ → W → Bool × W
  pub check_private_key : ℕ → W → Bool × W
  -- `SSL_new`, also of a null context
  pub ssl_new : Option ℕ → W → Option ℕ × W
  -- `SSL_set_bio(ssl, inBio, outBio)`
  pub ssl_set_bio : ℕ → ℕ → ℕ → W → W

module _ {W : Type 0} (ssl : OpenSsl W) where
  -- Calls one behind the other.
  abbrev pub run_calls : List Call → W → W
  run_calls [] w = w
  run_calls (c ∷ cs) w = run_calls cs (ssl.call c w)

-- 1 for the object `p` of kind `j`, 0 for any other.
unfoldable pub one : Kind → ℕ → Kind → ℕ → ℕ
one j p k q = if (kind_index j == kind_index k) && (p == q) then 1 else 0

abbrev pub one? : Kind → Option ℕ → Kind → ℕ → ℕ
one? j none k q = 0
one? j (some p) k q = one j p k q

-- Who frees what, as OpenSSL documents it: `owed w k q` is 1 where the program is the one that has to
-- free object `q` of kind `k`. EVP_PKEY_assign_RSA and SSL_set_bio take their objects over, and
-- SSL_set_tmp_ecdh, a mere `call`, does not.
pub record Owes {W : Type 0} (ssl : OpenSsl W) : Type 0 where
  pub owed : W → Kind → ℕ → ℕ
  pub makes :
      (j : Kind) (w : W) (k : Kind) (q : ℕ)
      → owed (ssl.make j w).1 k q ≡ owed w k q + one j (ssl.make j w).0 k q
  pub frees :
      (j : Kind) (p : ℕ) (w : W) (k : Kind) (q : ℕ)
      → owed (ssl.free j p w) k q ≡ owed w k q - one j p k q
  pub calls : (c : Call) (w : W) (k : Kind) (q : ℕ) → owed (ssl.call c w) k q ≡ owed w k q
  pub assigns :
      (key r : ℕ) (w : W) (k : Kind) (q : ℕ)
      → owed (ssl.assign_rsa key r w) k q ≡ owed w k q - one rsa r k q
  pub digests : (x : ℕ) (w : W) (k : Kind) (q : ℕ) → owed (ssl.digest x w).1 k q ≡ owed w k q
  pub makes_context :
      (w : W) (k : Kind) (q : ℕ)
      → owed (ssl.ctx_new w).1 k q ≡ owed w k q + one? context (ssl.ctx_new w).0 k q
  pub sets_ciphers :
      (c : ℕ) (w : W) (k : Kind) (q : ℕ) → owed (ssl.set_cipher_list c w).1 k q ≡ owed w k q
  -- SSL_CTX_use_PrivateKey and SSL_CTX_use_certificate count a reference of their own.
  pub uses_key :
      (c key : ℕ) (w : W) (k : Kind) (q : ℕ) → owed (ssl.use_private_key c key w).1 k q ≡ owed w k q
  pub uses_certificate :
      (c x : ℕ) (w : W) (k : Kind) (q : ℕ) → owed (ssl.use_certificate c x w).1 k q ≡ owed w k q
  pub checks :
      (c : ℕ) (w : W) (k : Kind) (q : ℕ) → owed (ssl.check_private_key c w).1 k q ≡ owed w k q
  pub makes_session :
      (c : Option ℕ) (w : W) (k : Kind) (q : ℕ)
      → owed (ssl.ssl_new c w).1 k q ≡ owed w k q + one? session (ssl.ssl_new c w).0 k q
  pub sets_bio :
      (s i o : ℕ) (w : W) (k : Kind) (q : ℕ)
      → owed (ssl.ssl_set_bio s i o w) k q ≡ owed w k q - one bio i k q - one bio o k q

module _ {W : Type 0} (ssl : OpenSsl W) (owes : Owes ssl) where
  pub run_calls-owed :
      (cs : List Call) (w : W) (k : Kind) (q : ℕ)
      → owes.owed (run_calls ssl cs w) k q ≡ owes.owed w k q
  run_calls-owed [] w k q = refl
  run_calls-owed (c ∷ cs) w k q = run_calls-owed cs (ssl.call c w) k q ∙ owes.calls c w k q
