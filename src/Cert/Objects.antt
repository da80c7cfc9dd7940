-- ===== src/Cert/Objects.antt =====
-- RuruCert.h and RuruCert.cpp: the constructor and the destructor, over OpenSSL.
use ruru.Base.{ℕ, ◌+◌, ◌-◌, ◌*◌, ◌≡◌, [], ◌∷◌, arith, Bytes}
use ruru.OpenSsl.{
  Kind, pkey, x509, bignum, rsa, name, bn_set_word, rsa_generate_key_ex, x509_set_pubkey,
  bn_pseudo_rand, set_serial_number, x509_set_version, add_common_name, x509_set_subject_name,
  x509_set_issuer_name, adjust_not_before, adjust_not_after, x509_sign, OpenSsl, run_calls, one,
  Owes, run_calls-owed,
}
use ruru.Cert.{finger_print}

-- `RuruCert`
pub record Cert : Type 0 where
  pub key : ℕ
  pub x509 : ℕ
  pub finger_print : Bytes

-- "rurusocket"
abbrev pub common_name : Bytes
common_name = 114 ∷ 117 ∷ 114 ∷ 117 ∷ 115 ∷ 111 ∷ 99 ∷ 107 ∷ 101 ∷ 116 ∷ []

abbrev pub rsa_f4 : ℕ
rsa_f4 = 65537

module _ {W : Type 0} (ssl : OpenSsl W) where
  -- From `RSA_new` to `X509_set_pubkey`: an RSA key of 1024 bits, which `key` takes over.
  unfoldable pub make_key : ℕ → ℕ → ℕ → W → W
  make_key key x exponent w =
      let (r, w) = ssl.make rsa w in
      let w =
        run_calls ssl (bn_set_word exponent rsa_f4 ∷ rsa_generate_key_ex r 1024 exponent ∷ []) w in
      ssl.call (x509_set_pubkey x key) (ssl.assign_rsa key r w)

  -- From `BN_pseudo_rand` to `X509_set_version`
  abbrev pub number_certificate : ℕ → ℕ → W → W
  number_certificate x serial w =
      run_calls ssl
        (bn_pseudo_rand serial 64 ∷ set_serial_number x serial ∷ x509_set_version x 0 ∷ []) w

  -- From `X509_NAME_add_entry_by_NID` to `X509_sign`
  abbrev pub sign_certificate : ℕ → ℕ → ℕ → W → W
  sign_certificate key x n w =
      run_calls ssl
        (add_common_name n common_name
          ∷ x509_set_subject_name x n
          ∷ x509_set_issuer_name x n
          ∷ adjust_not_before x 0
          ∷ adjust_not_after x (365 * 24 * 3600)
          ∷ x509_sign x key
          ∷ [])
        w

  -- `RuruCert()`, with what is in `fingerPrint` before.
  unfoldable pub new_cert : Bytes → W → Cert × W
  new_cert memory w =
      let (key, w) = ssl.make pkey w in
      let (x, w) = ssl.make x509 w in
      let (exponent, w) = ssl.make bignum w in
      let w = make_key key x exponent w in
      let (serial, w) = ssl.make bignum w in
      let w = number_certificate x serial w in
      let (n, w) = ssl.make name w in
      let (digest, w) = ssl.digest x (sign_certificate key x n w) in
      (
        record { key = key; x509 = x; finger_print = finger_print digest memory },
        ssl.free name n (ssl.free bignum serial (ssl.free bignum exponent w)),
      )

  -- `~RuruCert()`
  unfoldable pub delete_cert : Cert → W → W
  delete_cert c w = ssl.free x509 c.x509 (ssl.free pkey c.key w)

module _ {W : Type 0} (ssl : OpenSsl W) (owes : Owes ssl) (k : Kind) (q : ℕ) where
  abbrev owed : W → ℕ
  owed w = owes.owed w k q

  make_key-owed : (key x exponent : ℕ) (w : W) → owed (make_key ssl key x exponent w) ≡ owed w
  unfolding make_key
  make_key-owed key x exponent w =
      let (r, w1) = ssl.make rsa w in
      let w2 =
        run_calls ssl (bn_set_word exponent rsa_f4 ∷ rsa_generate_key_ex r 1024 exponent ∷ []) w1 in
      omega (
        arith,
        owes.makes rsa w k q,
        run_calls-owed ssl owes
            (bn_set_word exponent rsa_f4 ∷ rsa_generate_key_ex r 1024 exponent ∷ []) w1 k q,
        owes.assigns key r w2 k q,
        owes.calls (x509_set_pubkey x key) (ssl.assign_rsa key r w2) k q,
      )

  -- Of all that the constructor makes, the key and the certificate are left.
  pub new_cert-owed :
      (memory : Bytes) (w : W)
      → let (c, w') = new_cert ssl memory w in
        owed w' ≡ owed w + one pkey c.key k q + one x509 c.x509 k q
  unfolding new_cert
  new_cert-owed memory w =
      let (key, w1) = ssl.make pkey w in
      let (x, w2) = ssl.make x509 w1 in
      let (exponent, w3) = ssl.make bignum w2 in
      let w4 = make_key ssl key x exponent w3 in
      let (serial, w5) = ssl.make bignum w4 in
      let w6 = number_certificate ssl x serial w5 in
      let (n, w7) = ssl.make name w6 in
      let w8 = sign_certificate ssl key x n w7 in
      let w9 = (ssl.digest x w8).1 in
      let w10 = ssl.free bignum exponent w9 in
      let w11 = ssl.free bignum serial w10 in
      omega (
        arith,
        owes.makes pkey w k q,
        owes.makes x509 w1 k q,
        owes.makes bignum w2 k q,
        make_key-owed key x exponent w3,
        owes.makes bignum w4 k q,
        run_calls-owed ssl owes _ w5 k q,
        owes.makes name w6 k q,
        run_calls-owed ssl owes _ w7 k q,
        owes.digests x w8 k q,
        owes.frees bignum exponent w9 k q,
        owes.frees bignum serial w10 k q,
        owes.frees name n w11 k q,
      )

  delete_cert-owed :
      (c : Cert) (w : W)
      → owed (delete_cert ssl c w) ≡ owed w - one pkey c.key k q - one x509 c.x509 k q
  unfolding delete_cert
  delete_cert-owed c w =
      omega (arith, owes.frees pkey c.key w k q, owes.frees x509 c.x509 (ssl.free pkey c.key w) k q)

  -- A certificate that is made, worked with by calls that make and take nothing, and destroyed leaves
  -- nothing behind.
  pub delete_cert-new_cert :
      (memory : Bytes) (w w' : W)
      → owed w' ≡ owed (new_cert ssl memory w).1
      → owed (delete_cert ssl (new_cert ssl memory w).0 w') ≡ owed w
  delete_cert-new_cert memory w w' same =
      omega (arith, new_cert-owed memory w, delete_cert-owed (new_cert ssl memory w).0 w')
