-- ===== src/Poll/Accepting.antt =====
-- RuruLoop.cpp, `EpollWait`: the loop that accepts connections.
use ruru.Base.{
  ℕ, zero, suc, ◌<◌, ◌≤◌, ◌≡◌, refl, sym, ap, ◌∙◌, ◌⊎◌, inl, inr, List, [], ◌∷◌, ◌++◌, map, Bool,
  true, false, if◌then◌else◌, length, Option, none, some, arith, Run, done, append-nil,
  append_assoc, Bool-cases, if-true, if-false,
}
use mathlib.Core.Path.{subst}
use mathlib.Core.List.{map-append}
use ruru.Dtls.{Tls}
use ruru.Sctp.{Usrsctp}
use ruru.Net.Sockets.{Sys, with_flags, set_non_blocking}
use ruru.Http.Body.{Json}
use ruru.Poll.{
  Kernel, new_cell, Descriptors, Here, watch_connection, add_connection, after_accept, accept_all,
}

-- No one connects while the loop accepts: a connection that is accepted waits no more, and what the
-- loop does with it makes none wait.
pub record IsPatient {W : Type 0} (sys : Sys W) (kernel : Kernel W) : Type 0 where
  pub accepts :
      (n : ℕ) (w : W)
      → ((kernel.accept n w).0 ≡ none) ⊎ (kernel.backlog (kernel.accept n w).1 < kernel.backlog w)
  pub reads_flags : (n : ℕ) (w : W) → kernel.backlog (sys.get_flags n w).1 ≤ kernel.backlog w
  pub sets_flags : (n f : ℕ) (w : W) → kernel.backlog (sys.set_flags n f w).1 ≤ kernel.backlog w
  pub adds : (e n p : ℕ) (w : W) → kernel.backlog (sys.epoll_add e n p w).1 ≤ kernel.backlog w
  pub closes : (n : ℕ) (w : W) → kernel.backlog (sys.close n w) ≤ kernel.backlog w

module _ (tls : Tls) (lib : Usrsctp) (json : Json) {W : Type 0} (sys : Sys W) (kernel : Kernel W)
    (fds : Descriptors) where
  -- A connection for each of some descriptors is made; the loop and the documents are as before.
  pub record Grown (r t : Here tls lib json sys kernel fds) : Type 0 where
    pub loop : t.loop ≡ r.loop
    pub heap : t.heap ≡ r.heap
    pub accepted : List ℕ
    pub cells : t.cells ≡ r.cells ++ map (λ n. some (new_cell n)) accepted

  Grown-refl : (r : Here tls lib json sys kernel fds) (w : W) → Grown r (record r { world = w })
  Grown-refl r w = record {
    loop = refl;
    heap = refl;
    accepted = [];
    cells = sym (append-nil r.cells);
  }

  Grown-compose : (r s t : Here tls lib json sys kernel fds) → Grown r s → Grown s t → Grown r t
  Grown-compose r s t a b = record {
    loop = b.loop ∙ a.loop;
    heap = b.heap ∙ a.heap;
    accepted = a.accepted ++ b.accepted;
    cells =
        b.cells
        ∙ ap (λ x. x ++ map (λ n. some (new_cell n)) b.accepted) a.cells
        ∙ append_assoc r.cells _ _
        ∙ ap (λ x. r.cells ++ x) (sym (map-append (λ n. some (new_cell n)) a.accepted b.accepted));
  }

  module _ (patient : IsPatient sys kernel) where
    -- What a round leaves.
    abbrev Added : Here tls lib json sys kernel fds → Here tls lib json sys kernel fds → Type 0
    Added r t = Grown r t × (kernel.backlog t.world ≤ kernel.backlog r.world)

    watched-backlog :
        (cfd : ℕ) (ok : Bool) (w : W)
        → kernel.backlog (if ok then w else sys.close cfd w) ≤ kernel.backlog w
    watched-backlog cfd true w = omega arith
    watched-backlog cfd false w = patient.closes cfd w

    watch_connection-Added :
        (cfd : ℕ) (r : Here tls lib json sys kernel fds)
        → Added r (watch_connection tls lib json sys kernel fds cfd r)
    unfolding watch_connection
    watch_connection-Added cfd r =
        let (ok, w) = sys.epoll_add fds.epfd cfd (length r.cells) r.world in
        let grown : Grown r (watch_connection tls lib json sys kernel fds cfd r) = record {
          loop = refl;
          heap = refl;
          accepted = cfd ∷ [];
          cells = refl;
        } in
        (
          grown,
          omega
              (arith, watched-backlog cfd ok w, patient.adds fds.epfd cfd (length r.cells) r.world),
        )

    flags-backlog :
        (n : ℕ) (o : Option ℕ) (w : W)
        → kernel.backlog (with_flags sys n (o, w)).1 ≤ kernel.backlog w
    unfolding with_flags
    flags-backlog n none w = omega arith
    flags-backlog n (some f) w = patient.sets_flags n (sys.add_non_block f) w

    set_non_blocking-backlog :
        (n : ℕ) (w : W) → kernel.backlog (set_non_blocking sys n w).1 ≤ kernel.backlog w
    unfolding set_non_blocking
    set_non_blocking-backlog n w = omega (
      arith,
      flags-backlog n (sys.get_flags n w).0 (sys.get_flags n w).1,
      patient.reads_flags n w,
    )

    add_connection-Added :
        (cfd : ℕ) (r : Here tls lib json sys kernel fds)
        → Added r (add_connection tls lib json sys kernel fds cfd r)
    unfolding add_connection
    add_connection-Added cfd r =
        let (ok, w) = set_non_blocking sys cfd r.world in
        let less = set_non_blocking-backlog cfd r.world in
        elim (Bool-cases (set_non_blocking sys cfd r.world).0) [
          | inl on ↦
              let (grown, le) = watch_connection-Added cfd (record r { world = w }) in
              subst (Added r) (sym (if-true _ _ on)) (
                record {
                  loop = grown.loop;
                  heap = grown.heap;
                  accepted = grown.accepted;
                  cells = grown.cells;
                },
                omega arith,
              )
          | inr off ↦
              subst (Added r) (sym (if-false _ _ off))
                (Grown-refl r (sys.close cfd w), omega (arith, patient.closes cfd w))
        ]

    -- How the loop ends.
    abbrev pub Accepts :
        Here tls lib json sys kernel fds → Run (Here tls lib json sys kernel fds) → Type 0
    Accepts r x = (t : Here tls lib json sys kernel fds) × (x ≡ done t) × Grown r t

    after_accept-Accepts :
        (fuel : ℕ) (r : Here tls lib json sys kernel fds) (o : Option ℕ × W)
        → ((cfd : ℕ) → o.0 ≡ some cfd → kernel.backlog o.1 < fuel)
        → ((s : Here tls lib json sys kernel fds)
            → kernel.backlog s.world < fuel
            → Accepts s (accept_all tls lib json sys kernel fds fuel s))
        → Accepts r (
            after_accept tls lib json sys kernel fds
              (accept_all tls lib json sys kernel fds fuel)
              r
              o)
    unfolding after_accept
    after_accept-Accepts fuel r (none, w) h ih = (_, refl, Grown-refl r w)
    after_accept-Accepts fuel r (some cfd, w) h ih =
        let s : Here tls lib json sys kernel fds = record r { world = w } in
        let (grown, le) = add_connection-Added cfd s in
        let enough = h cfd refl in
        let (t, run, more) = ih (add_connection tls lib json sys kernel fds cfd s) (omega arith) in
        let all = Grown-compose s _ t grown more in
        (
          t,
          run,
          record { loop = all.loop; heap = all.heap; accepted = all.accepted; cells = all.cells },
        )

    -- The accepting loop ends, where no one connects meanwhile, within as many rounds as connections
    -- wait and one more. It leaves clients, events and documents alone, and adds an object for each
    -- descriptor that it has made non-blocking.
    pub accept_all-Accepts :
        (fuel : ℕ) (r : Here tls lib json sys kernel fds)
        → kernel.backlog r.world < fuel
        → Accepts r (accept_all tls lib json sys kernel fds fuel r)
    unfolding accept_all
    accept_all-Accepts zero r h = absurd (omega arith)
    accept_all-Accepts (suc fuel) r h =
        after_accept-Accepts fuel r (kernel.accept fds.tcpfd r.world)
          (λ cfd e. elim (patient.accepts fds.tcpfd r.world) [
            | inl nobody ↦ absurd (ground (arith, e, nobody))
            | inr less ↦ omega arith
          ])
          (accept_all-Accepts fuel)
