-- ===== src/Http/Handle.antt =====
-- RuruLoop.cpp, `HttpRequestHandle`: its loop, over a peer that closes at last, over one that falls
-- silent, and the bounds of the buffer.
use ruru.Base.{
  true, ◌+◌, blit, length, bind_done, bind_fault, if◌then◌else◌, ℕ, zero, suc, ◌<◌, ◌≤◌, ◌≡◌, refl,
  sym, ap, ◌∙◌, ◌⊎◌, inl, inr, false, [], ◌∷◌, Option, none, some, arith, Bytes, Run, done, fault,
  ◌==◌, Bool-cases, if-true, if-false, ◌-◌, take,
}
use mathlib.Core.Path.{subst}
use ruru.Net.Write.{IsStream}
use ruru.Sctp.Setup.{SetupCalls}
use ruru.Http.Body.{Json}
use ruru.Http.{
  ReadResult, got, again, broken, partial, Http, Connection, http_max_size, Fresh, wait_for_more,
  read_some, inspect, look, after_read, next_read, http_request_handle,
}
use ruru.Http.Reply.{Hazard, Frees, IsPeer, State, Served, inspect-Inspected}

module _ {S : Type 0} {W : Type 0} (http : Http W) (json : Json) (inet_addr : Bytes → ℕ)
    {L : Type 0} (calls : SetupCalls L) (fresh : Fresh S) where
  abbrev Here : Type 0
  Here = State http json inet_addr calls fresh

  abbrev IsServed : Here → Here → Type 0
  IsServed = Served http json inet_addr calls fresh

  abbrev handle : ℕ → Connection → Here → Run Here
  handle = http_request_handle http json inet_addr calls fresh

  abbrev round : ReadResult → Connection → Here → Run (Option Here × Connection)
  round = after_read http json inet_addr calls fresh

  module _ (is : IsStream http.stream) (frees : Frees json) where
    -- The buffer behind a `read`.
    abbrev pub fetched : ReadResult → Connection → Connection
    fetched (got bytes) con = record {
      bytes = blit con.bytes con.length bytes;
      length = con.length + length bytes;
    }
    fetched again con = record con { length = con.length - 1 }
    fetched broken con = con

    -- What makes a round with the result `r` of `read` fault: EAGAIN where no byte is left to take off;
    -- or, for a request that is then whole, a `SSL_new` that gives null, or a body that no zero ends.
    abbrev pub Bad : ReadResult → Connection → Type 0
    Bad r con =
        let c = fetched r con in
        ((r ≡ again) × ((con.length == 0) ≡ true))
        ⊎ Hazard http json inet_addr calls fresh is frees c
            (http.parse_request (take c.length c.bytes) con.length)

    -- How a round ends.
    abbrev Round : ReadResult → Connection → Here → Run (Option Here × Connection) → Type 0
    Round r con s x =
        ((x ≡ fault) × Bad r con)
        ⊎ ((c : Connection) × (x ≡ done (none, c)))
        ⊎ ((t : Here) × (c : Connection) × (x ≡ done (some t, c)) × IsServed s t)

    look-Round :
        (con : Connection) (last : ℕ) (s : Here)
        → let x = look http json inet_addr calls fresh con last s in
          ((x ≡ fault)
            × Hazard http json inet_addr calls fresh is frees con
                (http.parse_request (take con.length con.bytes) last))
          ⊎ ((c : Connection) × (x ≡ done (none, c)))
          ⊎ ((t : Here) × (c : Connection) × (x ≡ done (some t, c)) × IsServed s t)
    unfolding look
    look-Round con last s =
        let p = http.parse_request (take con.length con.bytes) last in
        elim (inspect-Inspected http json inet_addr calls fresh is frees con p s) [
          | inl (bad, why) ↦ inl (bind_fault _ bad, why)
          | inr (inl on) ↦ inr (inl (con, bind_done _ on))
          | inr (inr (t, e, served)) ↦ inr (inr (t, con, bind_done _ e, served))
        ]

    after_read-Round :
        (r : ReadResult) (con : Connection) (s : Here) → Round r con s (round r con s)
    unfolding after_read
    after_read-Round broken con s =
        inr (inr (_, con, refl, record { closes = refl; heap = refl; loop = inl refl }))
    after_read-Round (got []) con s =
        inr (inr (_, con, refl, record { closes = refl; heap = refl; loop = inl refl }))
    after_read-Round (got (b ∷ bs)) con s =
        elim (look-Round (fetched (got (b ∷ bs)) con) con.length s) [
          | inl (bad, why) ↦ inl (bad, inr why)
          | inr rest ↦ inr rest
        ]
    after_read-Round again con s = elim (Bool-cases (con.length == 0)) [
      | inl start ↦ inl (if-true _ _ start, inl (refl, start))
      | inr later ↦
          subst (λ (r : Run (Option Here × Connection)). Round again con s r)
            (sym (if-false _ _ later))
            (elim (look-Round (fetched again con) con.length s) [
              | inl (bad, why) ↦ inl (bad, inr why)
              | inr rest ↦ inr rest
            ])
    ]

    abbrev reading : Connection → Here → ReadResult × Here
    reading = read_some http json inet_addr calls fresh

    -- The loop goes on, round after round, from one buffer and state to another.
    pub data Reaches : Connection → Here → Connection → Here → Type 0 where
      at_first : (con : Connection) (s : Here) → Reaches con s con s
      behind :
          (con : Connection) (s : Here) (c d : Connection) (t : Here)
          → round (reading con s).0 con (reading con s).1 ≡ done (none, c)
          → Reaches c (reading con s).1 d t
          → Reaches con s d t

    -- A round that the loop comes to has a reason to fault.
    abbrev pub Fails : Connection → Here → Type 0
    Fails con s = (d : Connection) × (t : Here) × Reaches con s d t × Bad (reading d t).0 d

    abbrev Ends : Connection → Here → Run Here → Type 0
    Ends con s r = ((r ≡ fault) × Fails con s) ⊎ ((t : Here) × (r ≡ done t) × IsServed s t)

    stops :
        (fuel : ℕ) (con : Connection) (s : Here) (r : ReadResult) (fd : W)
        → http.read (http_max_size - con.length) s.fd ≡ (r, fd)
        → (r ≡ got []) ⊎ (r ≡ broken)
        → Ends con s (handle (suc fuel) con s)
    unfolding http_request_handle after_read next_read read_some
    stops fuel con s r fd e (inl closed) =
        rw (e, closed) (inr (_, refl, record { closes = refl; heap = refl; loop = inl refl }))
    stops fuel con s r fd e (inr lost) =
        rw (e, lost) (inr (_, refl, record { closes = refl; heap = refl; loop = inl refl }))

    goes_on :
        (fuel : ℕ) (con : Connection) (s : Here)
        → ((c : Connection)
            → round (reading con s).0 con (reading con s).1 ≡ done (none, c)
            → Ends con s (handle fuel c (reading con s).1))
        → Ends con s (handle (suc fuel) con s)
    unfolding http_request_handle next_read read_some
    goes_on fuel con s rest = elim (after_read-Round (reading con s).0 con (reading con s).1) [
      | inl (bad, why) ↦ inl (bind_fault _ bad, (con, s, at_first con s, why))
      | inr (inl (c, e)) ↦ subst (λ (x : Run Here). Ends con s x) (sym (bind_done _ e)) (rest c e)
      | inr (inr (t, c, e, served)) ↦ inr (
        t,
        bind_done _ e,
        record { closes = served.closes; heap = served.heap; loop = served.loop },
      )
    ]

    pub http_request_handle-Served :
        (peer : IsPeer http) (fuel : ℕ) (con : Connection) (s : Here)
        → peer.left s.fd < fuel
        → Ends con s (handle fuel con s)
    unfolding read_some
    http_request_handle-Served peer zero con s h = absurd (omega arith)
    http_request_handle-Served peer (suc fuel) con s h =
        elim (peer.read_ends (http_max_size - con.length) s.fd) [
          | inl closed ↦ stops fuel con s _ _ refl (inl closed)
          | inr (inl lost) ↦ stops fuel con s _ _ refl (inr lost)
          | inr (inr less) ↦ goes_on fuel con s λ c e.
              elim (http_request_handle-Served peer fuel c (reading con s).1 (omega arith)) [
                | inl (bad, (d, t, way, why)) ↦ inl (bad, (d, t, behind con s c d t e way, why))
                | inr (t, run, served) ↦ inr (
                  t,
                  run,
                  record { closes = served.closes; heap = served.heap; loop = served.loop },
                )
              ]
        ]

  module _ (Silent : W → Type 0) where
    idle_round :
        (fuel : ℕ) (con : Connection) (s : Here) (fd : W)
        → http.read (http_max_size - con.length) s.fd ≡ (again, fd)
        → con.length ≤ http_max_size
        → http.parse_request (take (con.length - 1) con.bytes) con.length ≡ partial
        → handle (suc fuel) con s ≡ (
            if con.length == 0
            then fault
            else handle fuel (record con { length = con.length - 1 }) (record s { fd = fd }))
    unfolding http_request_handle read_some after_read look inspect wait_for_more next_read
    idle_round fuel con s fd e bound p = elim (Bool-cases (con.length == 0)) [
      | inl start ↦ rw (e, start) refl
      | inr later ↦
          let room : (con.length - 1 == http_max_size) ≡ false = ground (arith, bound) in
          rw (e, later, p, room) refl
    ]

    -- The peer of a request that is not whole falls silent: every further `read` says EAGAIN.
    -- Then `HttpRequestHandle` faults, within as many rounds as it has received bytes and one.
    pub http_request_handle-silent :
        (size : (n : ℕ) (fd : W)
          → Silent fd
          → ((http.read n fd).0 ≡ again) × Silent (http.read n fd).1)
        (fuel : ℕ) (con : Connection) (s : Here)
        → Silent s.fd
        → con.length ≤ http_max_size
        → ((k last : ℕ) → k ≤ con.length → http.parse_request (take k con.bytes) last ≡ partial)
        → con.length < fuel
        → handle fuel con s ≡ fault
    http_request_handle-silent silent zero con s q bound p h = absurd (omega arith)
    http_request_handle-silent silent (suc fuel) con s q bound p h =
        let (says, stays) = silent (http_max_size - con.length) s.fd q in
        let fd = (http.read (http_max_size - con.length) s.fd).1 in
        let one =
          idle_round fuel con s fd (ap (λ r. (r, fd)) says) bound
            (p (con.length - 1) con.length (omega arith)) in
        elim (Bool-cases (con.length == 0)) [
          | inl start ↦ one ∙ if-true _ _ start
          | inr later ↦
              one
              ∙ if-false _ _ later
              ∙ http_request_handle-silent silent fuel (record con { length = con.length - 1 })
                  (record s { fd = fd }) stays (omega arith) (λ k last i. p k last (omega arith))
                  (ground (arith, h, later))
        ]
