-- ===== src/Tests/Keys.antt =====
-- An OpenSSL that hands out numbers and keeps what is owed, and the certificate, the context and the
-- session over it.
use ruru.Base.{ℕ, suc, ◌+◌, ◌-◌, ◌≡◌, refl, ◌⊎◌, [], Option, none, some, true, replicate, fault}
use ruru.OpenSsl.{Kind, rsa, context, session, bio, OpenSsl, one, one?, Owes}
use ruru.Dtls.Context.{new_dtls_ctx, delete_dtls_ctx, delete_dtls_ctx-new_dtls_ctx}
use ruru.Dtls.Session.{new_dtls, Sets, new_dtls-Sets}

pub record Ledger : Type 0 where
  pub next : ℕ
  pub owed : Kind → ℕ → ℕ

abbrev pub ledger_ssl : OpenSsl Ledger
ledger_ssl = record {
  make = λ j w. (w.next, record { next = suc w.next; owed = λ k q. w.owed k q + one j w.next k q });
  free = λ j p w. record w { owed = λ k q. w.owed k q - one j p k q };
  call = λ c w. w;
  assign_rsa = λ key r w. record w { owed = λ k q. w.owed k q - one rsa r k q };
  digest = λ x w. (replicate 32 7, w);
  ctx_new = λ w. (
    some w.next,
    record { next = suc w.next; owed = λ k q. w.owed k q + one context w.next k q },
  );
  set_cipher_list = λ c w. (true, w);
  use_private_key = λ c key w. (true, w);
  use_certificate = λ c x w. (true, w);
  check_private_key = λ c w. (true, w);
  ssl_new = λ c w. (
    some w.next,
    record { next = suc w.next; owed = λ k q. w.owed k q + one session w.next k q },
  );
  ssl_set_bio = λ s i o w. record w { owed = λ k q. w.owed k q - one bio i k q - one bio o k q };
}

abbrev pub ledger : Owes ledger_ssl
ledger = record {
  owed = λ w k q. w.owed k q;
  makes = λ j w k q. refl;
  frees = λ j p w k q. refl;
  calls = λ c w k q. refl;
  assigns = λ key r w k q. refl;
  digests = λ x w k q. refl;
  makes_context = λ w k q. refl;
  sets_ciphers = λ c w k q. refl;
  uses_key = λ c key w k q. refl;
  uses_certificate = λ c x w k q. refl;
  checks = λ c w k q. refl;
  makes_session = λ c w k q. refl;
  sets_bio = λ s i o w k q. refl;
}

abbrev pub nothing_owed : Ledger
nothing_owed = record { next = 5; owed = λ k q. 0 }

delete_dtls_ctx-new_dtls_ctx_example :
    let (d, w) = new_dtls_ctx ledger_ssl [] nothing_owed in
    (w.owed context 5 ≡ 0 + one? context d.ctx context 5)
    × ((delete_dtls_ctx ledger_ssl d w).1.owed context 5 ≡ 0)
delete_dtls_ctx-new_dtls_ctx_example =
    delete_dtls_ctx-new_dtls_ctx ledger_ssl ledger context 5 [] nothing_owed

abbrev pub no_session : Option ℕ
no_session = none

new_dtls-Sets_example :
    ((some 5 ≡ no_session) × (new_dtls ledger_ssl (some 3) nothing_owed ≡ fault))
    ⊎ Sets ledger_ssl ledger (λ k q. 0) (new_dtls ledger_ssl (some 3) nothing_owed)
new_dtls-Sets_example = new_dtls-Sets ledger_ssl ledger (some 3) nothing_owed
