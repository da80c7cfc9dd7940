-- ===== src/Tests/Setups.antt =====
-- A usrsctp that keeps the registered addresses, and whose sockets cannot be bound.
use ruru.Base.{◌≡◌, ◌≢◌, refl, Bool, true, false, not, ◌&&◌, ◌||◌, ◌==◌, some, arith}
use ruru.Sctp.Setup.{Pointer, sctp_of, client_of, SetupCalls, Usr, new_sctp}
use ruru.Sctp.Setup.Registry.{Registry, Opened, new_sctp-Opened, new_sctp-Knows}

abbrev same : Pointer → Pointer → Bool
same (sctp_of i) (sctp_of j) = i == j
same (client_of i) (client_of j) = i == j
same _ _ = false

same_self : (p : Pointer) → same p p ≡ true
same_self (sctp_of i) = ground arith
same_self (client_of i) = ground arith

same_other : (p q : Pointer) → p ≢ q → same q p ≡ false
same_other (sctp_of i) (sctp_of j) h = ground arith
same_other (sctp_of i) (client_of j) h = refl
same_other (client_of i) (sctp_of j) h = refl
same_other (client_of i) (client_of j) h = ground arith

abbrev pub unbound : SetupCalls (Pointer → Bool)
unbound = record {
  start = λ s. s;
  socket = λ s. (some 3, s);
  register = λ p s q. s q || same p q;
  deregister = λ p s q. s q && not (same p q);
  set_non_blocking = λ sock s. (true, s);
  setsockopt = λ sock o s. s;
  bind = λ sock port at s. (false, s);
  listen = λ sock s. (true, s);
  close = λ sock s. s;
  finish = λ s. (true, s);
}

abbrev unbound_registry : Registry unbound
unbound_registry = record {
  Knows = λ s p. s p ≡ true;
  adds = λ p s. ground (arith, same_self p);
  leaves_others = λ p q s h k. rw (k, same_other p q h) refl;
  set_non_blocking = λ sock s p k. k;
  setsockopt = λ sock o s p k. k;
  bind = λ sock port at s p k. k;
  listen = λ sock s p k. k;
  close = λ sock s p k. k;
}

abbrev pub nothing_known : Pointer → Bool
nothing_known p = false

abbrev pub fresh : Usr unbound
fresh = record { usrsctp_init = false; stack = nothing_known }

new_sctp-Opened_example : Opened (new_sctp unbound 0 fresh).0
new_sctp-Opened_example = new_sctp-Opened unbound 0 fresh

new_sctp-Knows_example : (new_sctp unbound 0 fresh).1.stack (sctp_of 0) ≡ true
new_sctp-Knows_example = new_sctp-Knows unbound unbound_registry 0 3 fresh refl
