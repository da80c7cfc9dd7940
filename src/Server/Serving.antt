-- ===== src/Server/Serving.antt =====
-- examples/EchoServer.cpp and RuruLoop.cpp: what the handlers of events and datagrams keep, and that the
-- handlers end.
use ruru.Base.{
  false, drop, fault, ◌>>=◌, bind_fault, done-injective, ℕ, zero, suc, ◌<◌, ◌≡◌, refl, sym, ap, ◌∙◌,
  ◌⊎◌, inl, inr, Bool, List, [], ◌∷◌, ◌++◌, Option, none, some, arith, Bytes, length, length-set,
  get_elem?, set, take, ltb, Run, done, bind_done, Post-done, Bool-cases, if-true, if-false,
}
use mathlib.Core.Path.{subst}
use mathlib.Core.Option.{some-injective}
use ruru.Event.{
  Event, EventType, evt_none, evt_recv_client_data, evt_heart_beat, evt_send_cache_data, Address,
  Message, is_terminated,
}
use ruru.Dtls.{Tls, MemBio}
use ruru.Ring.Inv.{IsValid}
use ruru.Client.{Client, Node}
use ruru.Client.HeartBeat.{client_send_heart_beat_data-Drained}
use ruru.Sctp.{Usrsctp}
use ruru.Sctp.Total.{IsBounded, send_sctp_cache_data-Ends, send_usr_sctp_data-Outcome_total}
use ruru.Sctp.Sound.{Names, AreNamed, IsKept}
use ruru.Sctp.Keeping.{
  send_sctp_cache_data-IsKept, send_usr_sctp_data-IsKept, handle_dtls_packet-IsKept,
}
use ruru.Loop.{Loop, client_node, put_node, find_client_by_address}
use ruru.Sctp.Reading.{Consumes}
use ruru.Sctp.Datagram.{handle_dtls_packet-Ends}
use ruru.Net.{swap32, swap16}
use ruru.Loop.Clients.{Found, find_client_by_address-Found}
use ruru.Server.Echo.{on_client-found}
use ruru.Server.Datagrams.{
  client_node-some, node_parts, AllReceive, AllReceive-get, receive_datagram-Routed,
}
use ruru.Server.{
  Here, Received, on_client, echo_2client, send_client_cache_data, send_heart_beat, dispatch,
  echo_message, print_data, hand_to_client, receive_datagram, receive_datagrams,
}

-- The ring of each client is valid.
abbrev pub HaveRings : {S : Type 0} → List (Client S) → Type 0
HaveRings [] = Unit
HaveRings (c ∷ cs) = IsValid c.heart_beat_ring × HaveRings cs

HaveRings-get :
    {S : Type 0} (cs : List (Client S)) (i : ℕ) (c : Client S)
    → HaveRings cs
    → get_elem? cs i ≡ some c
    → IsValid c.heart_beat_ring × (i < length cs)
HaveRings-get [] i c h e = cc
HaveRings-get (d ∷ ds) zero c (v, h) e =
    (subst (λ x. IsValid x.heart_beat_ring) (some-injective d c e) v, omega arith)
HaveRings-get (d ∷ ds) (suc i) c (v, h) e =
    let (w, lt) = HaveRings-get ds i c h e in (w, omega arith)

HaveRings-set :
    {S : Type 0} (cs : List (Client S)) (i : ℕ) (c : Client S)
    → HaveRings cs
    → IsValid c.heart_beat_ring
    → HaveRings (set cs i c)
HaveRings-set [] i c h v = tt
HaveRings-set (d ∷ ds) zero c (w, h) v = (v, h)
HaveRings-set (d ∷ ds) (suc i) c (w, h) v = (w, HaveRings-set ds i c h v)

pub HaveRings-append :
    {S : Type 0} (cs ds : List (Client S)) → HaveRings cs → HaveRings ds → HaveRings (cs ++ ds)
HaveRings-append [] ds a b = b
HaveRings-append (c ∷ cs) ds (v, a) b = (v, HaveRings-append cs ds a b)

-- The loop's invariant: all rings are valid, and each event in the queue names a client that is there.
pub record IsServing {S L : Type 0} (l : Loop S L) : Type 0 where
  pub rings : HaveRings l.client_mgr
  pub named : AreNamed (length l.client_mgr) l.que

-- An event that the program may handle.
abbrev pub IsProper : ℕ → Event → Type 0
IsProper k evt = (evt.kind ≡ evt_none) ⊎ Names k evt.client

get_elem?-some :
    {A : Type 0} (xs : List A) (i : ℕ) → i < length xs → (a : A) × (get_elem? xs i ≡ some a)
get_elem?-some [] i h = absurd (omega arith)
get_elem?-some (x ∷ xs) zero h = (x, refl)
get_elem?-some (x ∷ xs) (suc i) h = get_elem?-some xs i (omega arith)

module _ {S L : Type 0} where
  -- A client that is there, as a node.
  node-IsKept :
      (l : Loop S L) (i : ℕ) (n : Node S L)
      → IsServing l
      → client_node l i ≡ some n
      → IsKept (length l.client_mgr) n
  node-IsKept l i n h e =
      let (que, self, here) = node_parts l i n e in
      let (ring, lt) = HaveRings-get l.client_mgr i n.client h.rings here in
      record {
        ring = ring;
        named = subst (AreNamed (length l.client_mgr)) (sym que) h.named;
        self = subst (λ j. j < length l.client_mgr) (sym self) lt;
      }

  -- The loop behind a call on a client.
  put_node-IsServing :
      (l : Loop S L) (m : Node S L)
      → IsServing l
      → IsKept (length l.client_mgr) m
      → IsServing (put_node l m) × (length (put_node l m).client_mgr ≡ length l.client_mgr)
  unfolding put_node
  put_node-IsServing l m h k =
      let same = length-set l.client_mgr m.self m.client in
      (
        record {
          rings = HaveRings-set l.client_mgr m.self m.client h.rings k.ring;
          named = subst (λ n. AreNamed n m.que) (sym same) k.named;
        },
        same,
      )

-- What the program prints of an event is no text: no zero ends it in the arena.
abbrev pub IsOpen : Option ℕ → Bytes → Type 0
IsOpen none memory = Unit
IsOpen (some off) memory = is_terminated (drop off memory) ≡ false

module _ (tls : Tls) (lib : Usrsctp) where
  -- What a handler leaves.
  abbrev pub Serves : Here tls lib → Run (Here tls lib) → Type 0
  Serves l r =
      (m : Here tls lib) × (r ≡ done m) × IsServing m × (length m.client_mgr ≡ length l.client_mgr)

  on_client-Serves :
      (call : Node tls.State lib.Stack → Run (Node tls.State lib.Stack)) (i : ℕ) (l : Here tls lib)
      → i < length l.client_mgr
      → IsServing l
      → ((n : Node tls.State lib.Stack)
          → client_node l i ≡ some n
          → IsKept (length l.client_mgr) n
          → (m : Node tls.State lib.Stack) × (call n ≡ done m) × IsKept (length l.client_mgr) m)
      → Serves l (on_client tls lib call i l)
  on_client-Serves call i l lt h on =
      let (c, there) = get_elem?-some l.client_mgr i lt in
      let (n, e) = client_node-some l i c there in
      let (m, run, kept) = on n e (node-IsKept l i n h e) in
      let placed : Node tls.State lib.Stack = record m { self = i } in
      let (serving, same) =
        put_node-IsServing l placed h
          (record { ring = kept.ring; named = kept.named; self = lt }) in
      (put_node l placed, on_client-found tls lib call i l n m e run, serving, same)

  module _ (bio : MemBio tls) (fit : IsBounded lib) where
    echo-Serves :
        (o : Option ℕ) (msg : Message) (l : Here tls lib)
        → Names (length l.client_mgr) o
        → IsServing l
        → Serves l (echo_2client tls lib o msg l)
    unfolding echo_2client
    echo-Serves none msg l n h = absurd n
    echo-Serves (some i) msg l n h = on_client-Serves _ i l n h λ x at k.
        let (ok, m, run, _) = send_usr_sctp_data-Outcome_total tls lib bio fit msg x in
        (
          m,
          bind_done _ run,
          Post-done (λ (r : Bool × Node tls.State lib.Stack). IsKept (length l.client_mgr) r.1) run
              (send_usr_sctp_data-IsKept tls lib (length l.client_mgr) (some msg) x k),
        )

    cache-Serves :
        (o : Option ℕ) (l : Here tls lib)
        → IsServing l
        → Names (length l.client_mgr) o
        → Serves l (send_client_cache_data tls lib o l)
    unfolding send_client_cache_data
    cache-Serves none l h n = absurd n
    cache-Serves (some i) l h n = on_client-Serves _ i l n h λ x at k.
        let ((ok, m), run) = send_sctp_cache_data-Ends tls lib bio fit x in
        (
          m,
          bind_done _ run,
          Post-done (λ (r : Bool × Node tls.State lib.Stack). IsKept (length l.client_mgr) r.1) run
              (send_sctp_cache_data-IsKept tls lib (length l.client_mgr) x k),
        )

    beat-Serves :
        (o : Option ℕ) (l : Here tls lib)
        → IsServing l
        → Names (length l.client_mgr) o
        → Serves l (send_heart_beat tls lib o l)
    unfolding send_heart_beat
    beat-Serves none l h n = absurd n
    beat-Serves (some i) l h n = on_client-Serves _ i l n h λ x at k.
        let (m, run, d) = client_send_heart_beat_data-Drained tls bio x k.ring in
        (
          m,
          run,
          record {
            ring = d.valid;
            named = subst (AreNamed (length l.client_mgr)) (sym (ap (λ x. x.que) d.frame)) k.named;
            self = subst (λ j. j < length l.client_mgr) (sym (ap (λ x. x.self) d.frame)) k.self;
          },
        )

    -- How an event is handled: the print of its data faults, or it is handled to its end.
    abbrev pub Handled : EventType → Event → Here tls lib → Type 0
    Handled kind evt l =
        ((kind ≡ evt_recv_client_data)
          × IsOpen evt.bytes l.arena.memory
          × (dispatch tls lib kind evt l ≡ fault))
        ⊎ Serves l (dispatch tls lib kind evt l)

    recv-Handled :
        (o : Option ℕ) (msg : Message) (e : Option ℕ) (l : Here tls lib)
        → Names (length l.client_mgr) o
        → IsServing l
        → let x = print_data tls lib e l >>= echo_2client tls lib o msg in
          (IsOpen e l.arena.memory × (x ≡ fault)) ⊎ Serves l x
    unfolding print_data
    recv-Handled o msg none l n h = inl (tt, refl)
    recv-Handled o msg (some off) l n h =
        elim (Bool-cases (is_terminated (drop off l.arena.memory))) [
          | inr open_text ↦ inl (open_text, bind_fault _ (if-false _ _ open_text))
          | inl ended ↦
              inr
                (subst (Serves l) (sym (bind_done _ (if-true _ _ ended))) (echo-Serves o msg l n h))
        ]

    -- The program handles any event that the loop may give it to its end, without a fault, but for a print
    -- of data that no zero ends. All rings are valid behind it, and each event in the queue names a
    -- client that is there.
    pub dispatch-Handled :
        (kind : EventType) (evt : Event) (l : Here tls lib)
        → (kind ≡ evt_none) ⊎ Names (length l.client_mgr) evt.client
        → IsServing l
        → Handled kind evt l
    unfolding dispatch
    dispatch-Handled evt_none evt l p h = inr (l, refl, h, refl)
    dispatch-Handled evt_recv_client_data evt l (inl e) h = cc
    dispatch-Handled evt_recv_client_data evt l (inr n) h =
        elim (recv-Handled evt.client (echo_message tls lib evt l) evt.bytes l n h) [
          | inl (open_text, bad) ↦ inl (refl, open_text, bad)
          | inr served ↦ inr served
        ]
    dispatch-Handled evt_heart_beat evt l (inl e) h = cc
    dispatch-Handled evt_heart_beat evt l (inr n) h = inr (beat-Serves evt.client l h n)
    dispatch-Handled evt_send_cache_data evt l (inl e) h = cc
    dispatch-Handled evt_send_cache_data evt l (inr n) h = inr (cache-Serves evt.client l h n)

    module _ (takes : Consumes tls) where
      hand-Serves :
          (bytes : Bytes) (o : Option ℕ) (a : Address) (l : Here tls lib)
          → Found a 0 l.client_mgr o
          → IsServing l
          → AllReceive l.client_mgr
          → Serves l (hand_to_client tls lib bytes o l)
      unfolding hand_to_client
      hand-Serves bytes none a l f h r = (l, refl, h, refl)
      hand-Serves bytes (some i) a l (j, at, (c, there, _), _) h r =
          let (_, inside) = HaveRings-get l.client_mgr j c h.rings there in
          on_client-Serves _ i l (omega arith) h λ x at k.
            let (m, run, _, _) =
              handle_dtls_packet-Ends tls lib bio fit takes bytes x
                (AllReceive-get l.client_mgr i x.client r (node_parts l i x at).2) in
            (
              m,
              run,
              Post-done (IsKept (length l.client_mgr)) run
                  (handle_dtls_packet-IsKept tls lib (length l.client_mgr) _ bytes x k),
            )

      receive_datagram-Serves :
          (s_addr sin_port : ℕ) (bytes : Bytes) (l : Here tls lib)
          → IsServing l
          → AllReceive l.client_mgr
          → Serves l (receive_datagram tls lib s_addr sin_port bytes l)
      unfolding receive_datagram
      receive_datagram-Serves s_addr sin_port bytes l h r =
          let a : Address = record { host = swap32 s_addr; port = swap16 sin_port } in
          hand-Serves bytes (find_client_by_address l a) a l (find_client_by_address-Found l a) h r

      pub receive_datagrams-Serves :
          (ds : List Received) (l : Here tls lib)
          → IsServing l
          → AllReceive l.client_mgr
          → (left : List Received) × (m : Here tls lib) × (receive_datagrams tls lib ds l
              ≡ done (left, m))
            × IsServing m
            × (length m.client_mgr ≡ length l.client_mgr)
            × AllReceive m.client_mgr
      unfolding receive_datagrams
      receive_datagrams-Serves [] l h r = ([], l, refl, h, refl, r)
      receive_datagrams-Serves (d ∷ ds) l h r =
          elim (Bool-cases (ltb 0 (length (take 4096 d.payload)))) [
            | inr empty ↦ (ds, l, if-false _ _ empty, h, refl, r)
            | inl full ↦
                let (j, first, g, same) =
                  receive_datagram-Serves d.s_addr d.sin_port (take 4096 d.payload) l h r in
                let (i, again_run, _, r') =
                  receive_datagram-Routed tls lib bio fit takes d.s_addr d.sin_port
                    (take 4096 d.payload) l r in
                let still : AllReceive j.client_mgr =
                  subst (λ (x : Here tls lib). AllReceive x.client_mgr)
                    (done-injective (sym again_run ∙ first)) r' in
                let (left, m, rest, last, more, r'') = receive_datagrams-Serves ds j g still in
                (left, m, if-true _ _ full ∙ bind_done _ first ∙ rest, last, more ∙ same, r'')
          ]
