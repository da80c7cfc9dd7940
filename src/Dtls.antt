-- ===== src/Dtls.antt =====
-- RuruDtls.h: the OpenSSL objects of one client, `ssl` with its two memory BIOs, taken as an interface.
pub mod Context
pub mod Session
use ruru.Base.{ℕ, Bool, ℤ, Bytes, ◌≡◌, length, take, drop}

-- The functions of OpenSSL that the program calls. Where a function returns a count and fills a
-- buffer, the list of bytes is what it filled in, empty for a count that is not positive.
pub record Tls : Type 1 where
  pub State : Type 0
  -- `BIO_write(inBio, ...)`
  pub bio_write_in : Bytes → State → State
  -- `BIO_ctrl_pending(inBio)`
  pub in_pending : State → ℕ
  -- `BIO_ctrl_pending(outBio)`
  pub out_pending : State → ℕ
  -- `BIO_read(outBio, buffer, size)`
  pub bio_read_out : ℕ → State → Bytes × State
  -- `SSL_is_init_finished`
  pub init_finished : State → Bool
  -- `SSL_do_handshake`
  pub do_handshake : State → ℤ × State
  -- `SSL_get_error`
  pub get_error : State → ℤ → ℕ
  -- `SSL_read(ssl, buffer, size)`
  pub ssl_read : ℕ → State → Bytes × State
  -- `SSL_write`
  pub ssl_write : Bytes → State → State

-- From openssl/ssl.h.
abbrev pub ssl_error_none : ℕ
ssl_error_none = 0

abbrev pub ssl_error_want_read : ℕ
ssl_error_want_read = 2

-- A memory BIO is a FIFO of bytes: `BIO_ctrl_pending` counts what it holds, and `BIO_read` takes as
-- much from the front as the buffer has room for.
pub record MemBio (tls : Tls) : Type 0 where
  pub out_bytes : tls.State → Bytes
  pub pending : (s : tls.State) → tls.out_pending s ≡ length (out_bytes s)
  pub read_front : (n : ℕ) (s : tls.State) → (tls.bio_read_out n s).0 ≡ take n (out_bytes s)
  pub read_rest :
      (n : ℕ) (s : tls.State) → out_bytes (tls.bio_read_out n s).1 ≡ drop n (out_bytes s)
