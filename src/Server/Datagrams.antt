-- ===== src/Server/Datagrams.antt =====
-- RuruLoop.cpp, `EpollWait`: datagrams reach the client that they are for.
use ruru.Base.{
  ◌++◌, lt→ltb, Option-cases, ℕ, zero, suc, ◌≡◌, ◌≢◌, refl, sym, ap, ◌∙◌, inl, inr, List, [], ◌∷◌,
  Option, none, some, arith, Bytes, Run, done, ◌>>=◌, >>=-eq-done, done-injective, get_elem?, set,
  take, length, ltb, Bool-cases, if◌then◌else◌,
}
use mathlib.Core.Path.{subst}
use mathlib.Core.Option.{some-injective}
use ruru.Event.{Address}
use ruru.Dtls.{Tls, MemBio}
use ruru.Net.{swap32, swap16}
use ruru.Client.{Client, Node}
use ruru.Sctp.{Usrsctp}
use ruru.Sctp.Total.{IsBounded}
use ruru.Sctp.Reading.{Consumes, CanReceive}
use ruru.Sctp.Receive.{handle_dtls_packet}
use ruru.Sctp.Datagram.{handle_dtls_packet-Ends}
use ruru.Loop.{Loop, client_node, put_node, find_client_by_address}
use ruru.Loop.Clients.{Found, find_client_by_address-Found}
use ruru.Server.{
  Received, packet_fuel, call_through, hand_to_client, Here, on_client, receive_datagram,
  receive_datagrams,
}
use ruru.Server.Echo.{on_client-found}

get-set_other :
    {A : Type 0} (xs : List A) (i j : ℕ) (a : A) → j ≢ i → get_elem? (set xs i a) j ≡ get_elem? xs j
get-set_other [] i j a ne = refl
get-set_other (x ∷ xs) zero zero a ne = absurd (ne refl)
get-set_other (x ∷ xs) zero (suc j) a ne = refl
get-set_other (x ∷ xs) (suc i) zero a ne = refl
get-set_other (x ∷ xs) (suc i) (suc j) a ne = get-set_other xs i j a (λ e. ne (ap suc e))

-- A client that is there is reached.
pub client_node-some :
    {S L : Type 0} (l : Loop S L) (i : ℕ) (c : Client S)
    → get_elem? l.client_mgr i ≡ some c
    → (n : Node S L) × (client_node l i ≡ some n)
unfolding client_node
client_node-some l i c e = elim (Option-cases (client_node l i)) [
  | inl gone ↦ absurd (ground (arith, e, gone))
  | inr found ↦ found
]

module _ {S L : Type 0} where
  pub node_parts :
      (l : Loop S L) (i : ℕ) (n : Node S L)
      → client_node l i ≡ some n
      → (n.que ≡ l.que) × (n.self ≡ i) × (get_elem? l.client_mgr i ≡ some n.client)
  unfolding client_node
  node_parts l i n h = ground arith

-- Each client can receive: it has an association, or no failed send has closed its socket.
abbrev pub AllReceive : {S : Type 0} → List (Client S) → Type 0
AllReceive [] = Unit
AllReceive (c ∷ cs) = CanReceive c × AllReceive cs

pub AllReceive-get :
    {S : Type 0} (cs : List (Client S)) (i : ℕ) (c : Client S)
    → AllReceive cs
    → get_elem? cs i ≡ some c
    → CanReceive c
AllReceive-get [] i c h e = cc
AllReceive-get (d ∷ cs) zero c (r, h) e = subst CanReceive (some-injective d c e) r
AllReceive-get (d ∷ cs) (suc i) c (r, h) e = AllReceive-get cs i c h e

AllReceive-set :
    {S : Type 0} (cs : List (Client S)) (i : ℕ) (c : Client S)
    → AllReceive cs
    → CanReceive c
    → AllReceive (set cs i c)
AllReceive-set [] i c h r = tt
AllReceive-set (d ∷ cs) zero c (_, h) r = (r, h)
AllReceive-set (d ∷ cs) (suc i) c (r', h) r = (r', AllReceive-set cs i c h r)

pub AllReceive-append :
    {S : Type 0} (cs ds : List (Client S)) → AllReceive cs → AllReceive ds → AllReceive (cs ++ ds)
AllReceive-append [] ds a b = b
AllReceive-append (c ∷ cs) ds (r, a) b = (r, AllReceive-append cs ds a b)

-- What the loop over the datagrams leaves in the socket: what is behind the first empty one.
abbrev pub behind_empty : List Received → List Received
behind_empty [] = []
behind_empty (d ∷ ds) = if ltb 0 (length d.payload) then behind_empty ds else ds

take-nonempty : (p : Bytes) → ltb 0 (length (take 4096 p)) ≡ ltb 0 (length p)
take-nonempty [] = refl
take-nonempty (x ∷ xs) = lt→ltb _ _ (omega arith) ∙ sym (lt→ltb _ _ (omega arith))

module _ (tls : Tls) (lib : Usrsctp) where
  call_through-others :
      (call : Node tls.State lib.Stack → Run (Node tls.State lib.Stack)) (i : ℕ)
      (l m : Here tls lib) (n : Option (Node tls.State lib.Stack))
      → call_through tls lib call i l n ≡ done m
      → (j : ℕ) → j ≢ i
      → get_elem? m.client_mgr j ≡ get_elem? l.client_mgr j
  unfolding put_node
  call_through-others call i l m none h j ne = cc
  call_through-others call i l m (some n) h j ne =
      let (k, _, e) = >>=-eq-done (call n) _ h in
      ap (λ x. get_elem? x.client_mgr j) (sym (done-injective e))
      ∙ get-set_other l.client_mgr i j k.client ne

  on_client-others :
      (call : Node tls.State lib.Stack → Run (Node tls.State lib.Stack)) (i : ℕ)
      (l m : Here tls lib)
      → on_client tls lib call i l ≡ done m
      → (j : ℕ) → j ≢ i
      → get_elem? m.client_mgr j ≡ get_elem? l.client_mgr j
  unfolding on_client
  on_client-others call i l m h = call_through-others call i l m (client_node l i) h

  -- Where a datagram has gone: to no client, and nothing has changed; or client `i`, which is there, has
  -- handled it, and no other client has changed.
  abbrev pub Routed : Bytes → Option ℕ → Here tls lib → Here tls lib → Type 0
  Routed bytes none l m = m ≡ l
  Routed bytes (some i) l m =
      (n k : Node tls.State lib.Stack) × (client_node l i ≡ some n)
      × (handle_dtls_packet tls lib (packet_fuel tls lib bytes n) bytes n ≡ done k)
      × (m ≡ put_node l (record k { self = i }))
      × ((j : ℕ) → j ≢ i → get_elem? m.client_mgr j ≡ get_elem? l.client_mgr j)

  module _ (bio : MemBio tls) (fit : IsBounded lib) (takes : Consumes tls) where
    hand_to_client-Routed :
        (bytes : Bytes) (a : Address) (o : Option ℕ) (l : Here tls lib)
        → AllReceive l.client_mgr
        → Found a 0 l.client_mgr o
        → (m : Here tls lib) × (hand_to_client tls lib bytes o l ≡ done m)
          × Routed bytes o l m
          × AllReceive m.client_mgr
    unfolding hand_to_client put_node
    hand_to_client-Routed bytes a none l r f = (l, refl, refl, r)
    hand_to_client-Routed bytes a (some i) l r (k, at, (c, there, _), _) =
        let same : k ≡ i = omega arith in
        let (n, e) = client_node-some l i c (ap (get_elem? l.client_mgr) (sym same) ∙ there) in
        let (_, _, here) = node_parts l i n e in
        let (m, run, usable, _) =
          handle_dtls_packet-Ends tls lib bio fit takes bytes n
            (AllReceive-get l.client_mgr i n.client r here) in
        let call = λ (x : Node tls.State lib.Stack).
          handle_dtls_packet tls lib (packet_fuel tls lib bytes x) bytes x in
        let reached = on_client-found tls lib call i l n m e run in
        (
          put_node l (record m { self = i }),
          reached,
          (n, m, e, run, refl, on_client-others call i l _ reached),
          AllReceive-set l.client_mgr i m.client r usable,
        )

    -- A datagram from an address that no client has changes nothing. Any other is handled, by
    -- `HandleDtlsPacket` with all its bytes, by the first client with the address, and no other client
    -- changes. It ends without a fault either way, over memory BIOs, where `SSL_read` takes from what it
    -- has, usrsctp sends no overrunning heart beat, and each client has an association or a socket that
    -- no failed send has closed; and then that is so behind it.
    pub receive_datagram-Routed :
        (s_addr sin_port : ℕ) (bytes : Bytes) (l : Here tls lib)
        → AllReceive l.client_mgr
        → (m : Here tls lib) × (receive_datagram tls lib s_addr sin_port bytes l ≡ done m)
          × Routed bytes
              (find_client_by_address l (record { host = swap32 s_addr; port = swap16 sin_port }))
              l
              m
          × AllReceive m.client_mgr
    unfolding receive_datagram
    receive_datagram-Routed s_addr sin_port bytes l r =
        let a : Address = record { host = swap32 s_addr; port = swap16 sin_port } in
        hand_to_client-Routed bytes a (find_client_by_address l a) l r
          (find_client_by_address-Found l a)

    -- The loop over the socket's datagrams ends, and leaves none in the socket unless one is empty: then
    -- those behind it stay there. That is over memory BIOs, where `SSL_read` takes from what it has,
    -- usrsctp sends no overrunning heart beat, and each client has an association or a socket that no
    -- failed send has closed; and then that is so behind it.
    pub receive_datagrams-behind_empty :
        (ds : List Received) (l : Here tls lib)
        → AllReceive l.client_mgr
        → (m : Here tls lib) × (receive_datagrams tls lib ds l ≡ done (behind_empty ds, m))
          × AllReceive m.client_mgr
    unfolding receive_datagrams
    receive_datagrams-behind_empty [] l r = (l, refl, r)
    receive_datagrams-behind_empty (d ∷ ds) l r = elim (Bool-cases (ltb 0 (length d.payload))) [
      | inl full ↦
          let (k, first, _, r') =
            receive_datagram-Routed d.s_addr d.sin_port (take 4096 d.payload) l r in
          let (m, rest, last) = receive_datagrams-behind_empty ds k r' in
          (
            m,
            rw (take-nonempty d.payload, full)
                (ap (λ x. x >>= receive_datagrams tls lib ds) first ∙ rest),
            last,
          )
      | inr empty ↦ (l, rw (take-nonempty d.payload, empty) refl, r)
    ]
