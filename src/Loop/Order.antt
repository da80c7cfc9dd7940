-- ===== src/Loop/Order.antt =====
-- RuruLoop.cpp, `UpdateEvent`, and RuruSctp.cpp, `PushClientRecvData`: polls and arrivals in any order.
use mathlib.Core.Path.{subst, subst₂, ap₂}
use mathlib.Core.Option.{some-injective, none-ne-some}
use Prim.Native.Nat.{zero-le}
use ruru.Base.{
  ℕ, zero, suc, ◌≡◌, refl, ap, ◌∙◌, sym, true, List, [], ◌∷◌, ◌++◌, none, some, arith, Bytes, done,
  get_elem?, set, append-nil, append_assoc,
}
use ruru.Event.{Event, Upcall}
use ruru.Arena.{arena_reset}
use ruru.Arena.Bounds.{IsValid}
use ruru.Dtls.{Tls}
use ruru.Client.{Client, Node}
use ruru.Sctp.{run_upcalls}
use ruru.Sctp.Receipt.{block_at, read_que, Below, IsStored, free, kept}
use ruru.Sctp.Delivery.{AreShort, run_upcalls-Delivers}
use ruru.Loop.{Loop, client_node, put_node, take_event, update_event}

-- `AttachClientInfo` has been called for every client.
abbrev pub AreAttached : {S : Type 0} → List (Client S) → Type 0
AreAttached [] = Unit {0}
AreAttached (c ∷ cs) = (c.attached ≡ true) × AreAttached cs

AreAttached-get :
    {S : Type 0} (cs : List (Client S)) (i : ℕ) (c : Client S)
    → AreAttached cs
    → get_elem? cs i ≡ some c
    → c.attached ≡ true
AreAttached-get [] i c a e = cc
AreAttached-get (d ∷ ds) zero c a e = ap (λ x. x.attached) (some-injective c d (sym e)) ∙ a.0
AreAttached-get (d ∷ ds) (suc i) c a e = AreAttached-get ds i c a.1 e

AreAttached-set :
    {S : Type 0} (cs : List (Client S)) (i : ℕ) (c : Client S)
    → AreAttached cs
    → c.attached ≡ true
    → AreAttached (set cs i c)
AreAttached-set [] i c a e = tt
AreAttached-set (d ∷ ds) zero c a e = (e, a.1)
AreAttached-set (d ∷ ds) (suc i) c a e = (a.0, AreAttached-set ds i c a.1 e)

-- The loop's invariant: the data of all queued events lies in the used part of a valid arena.
pub record IsSound {S L : Type 0} (l : Loop S L) : Type 0 where
  pub arena : IsValid l.arena
  pub data_below : Below l.arena.pos l.que
  pub attached : AreAttached l.client_mgr

-- What the queue holds for the program, in order.
abbrev pub waiting : {S L : Type 0} → Loop S L → List Bytes
waiting l = read_que l.arena.memory l.que

module _ (tls : Tls) {L : Type 0} where
  -- A history of the loop from `s` on: the data that the program has been handed, at the time of each
  -- `UpdateEvent`, and the packets that usrsctp has handed up and that found room in the arena.
  pub data History (s : Loop tls.State L)
      : List Bytes → List Bytes → Loop tls.State L → Type 0 where
    start : History s [] [] s
    -- `UpdateEvent` returns true
    poll :
        {handed arrived : List Bytes} {l : Loop tls.State L} (e : Event) (l' : Loop tls.State L)
        → History s handed arrived l
        → update_event l ≡ (some e, l')
        → History s (handed ++ block_at l'.arena.memory e.bytes e.length) arrived l'
    -- `UpdateEvent` returns false, and has reset the arena
    idle :
        {handed arrived : List Bytes} {l : Loop tls.State L} (l' : Loop tls.State L)
        → History s handed arrived l
        → update_event l ≡ (none, l')
        → History s handed arrived l'
    -- usrsctp makes some upcalls for client `i`
    upcalls :
        {handed arrived : List Bytes} {l : Loop tls.State L} (i : ℕ) (us : List Upcall)
        (n m : Node tls.State L)
        → History s handed arrived l
        → client_node l i ≡ some n
        → AreShort us
        → run_upcalls tls us n ≡ done m
        → History s handed (arrived ++ kept (free l.arena) us) (put_node l m)

  abbrev pub Accounts : Loop tls.State L → List Bytes → List Bytes → Loop tls.State L → Type 0
  Accounts s handed arrived l = IsSound l × (handed ++ waiting l ≡ waiting s ++ arrived)

  poll_step :
      (que : List Event) (l l' : Loop tls.State L) (e : Event)
      → l.que ≡ que
      → IsSound l
      → take_event que l ≡ (some e, l')
      → IsSound l' × (waiting l ≡ block_at l'.arena.memory e.bytes e.length ++ waiting l')
  unfolding take_event
  poll_step [] l l' e q v h = absurd (none-ne-some e (ap (λ p. p.0) h))
  poll_step (evt ∷ rest) l l' e q v h =
      let same : evt ≡ e = some-injective evt e (ap (λ p. p.0) h) in
      let below = subst (Below l.arena.pos) q v.data_below in
      let sound : IsSound (record l { que = rest }) = record {
        arena = v.arena;
        data_below = below.1;
        attached = v.attached;
      } in
      let split : waiting l
          ≡ block_at l.arena.memory evt.bytes evt.length ++ read_que l.arena.memory rest =
        ap (read_que l.arena.memory) q in
      let at_evt : IsSound l'
          × (waiting l ≡ block_at l'.arena.memory evt.bytes evt.length ++ waiting l') =
        subst
          (λ x. IsSound x × (waiting l ≡ block_at x.arena.memory evt.bytes evt.length ++ waiting x))
          (ap (λ p. p.1) h) (sound, split) in
      subst
        (λ (x : Event).
          IsSound l' × (waiting l ≡ block_at l'.arena.memory x.bytes x.length ++ waiting l'))
        same at_evt

  idle_step :
      (que : List Event) (l l' : Loop tls.State L)
      → l.que ≡ que
      → IsSound l
      → take_event que l ≡ (none, l')
      → IsSound l' × (waiting l' ≡ waiting l)
  unfolding take_event arena_reset
  idle_step [] l l' q v h =
      subst (λ x. IsSound x × (waiting x ≡ waiting l)) (ap (λ p. p.1) h)
        (
          record {
            arena = record { storage = v.arena.storage; inside = zero-le; int32 = v.arena.int32 };
            data_below = subst (Below 0) (sym q) tt;
            attached = v.attached;
          },
          refl,
        )
  idle_step (evt ∷ rest) l l' q v h = absurd (none-ne-some evt (ap (λ p. p.0) (sym h)))

  client_node_lem :
      (l : Loop tls.State L) (i : ℕ) (n : Node tls.State L)
      → client_node l i ≡ some n
      → (n.que ≡ l.que) × (n.arena ≡ l.arena) × (get_elem? l.client_mgr i ≡ some n.client)
  unfolding client_node
  client_node_lem l i n h = ground arith

  -- One client's operations see the loop's queue and arena, and give them back.
  upcalls_step :
      (l : Loop tls.State L) (i : ℕ) (us : List Upcall) (n m : Node tls.State L)
      → IsSound l
      → client_node l i ≡ some n
      → AreShort us
      → run_upcalls tls us n ≡ done m
      → IsSound (put_node l m) × (waiting (put_node l m) ≡ waiting l ++ kept (free l.arena) us)
  unfolding put_node
  upcalls_step l i us n m v at short h =
      let (que, arena, here) = client_node_lem l i n at in
      let stored : IsStored n = record {
        arena = subst IsValid (sym arena) v.arena;
        data_below = subst₂ (λ a q. Below a.pos q) (sym arena) (sym que) v.data_below;
        attached = AreAttached-get l.client_mgr i n.client v.attached here;
      } in
      let (stored', more) = run_upcalls-Delivers tls us n m stored short h in
      (
        record {
          arena = stored'.arena;
          data_below = stored'.data_below;
          attached = AreAttached-set l.client_mgr m.self m.client v.attached stored'.attached;
        },
        more ∙ ap₂ (λ a q. read_que a.memory q ++ kept (free a) us) arena que,
      )

  -- From a state whose queued data lies in the used part of a valid arena (an empty queue, say), and
  -- however polls, polls of an empty queue (which reset the arena) and upcalls for any clients are
  -- interleaved: what the program has been handed, followed by what still waits in the queue, is what
  -- waited at the start followed by every packet that found room, in the order of arrival and byte
  -- for byte; and the state is such a state again. It holds for packets shorter than 65536 bytes.
  pub History-Accounts :
      {s l : Loop tls.State L} {handed arrived : List Bytes}
      → IsSound s
      → History s handed arrived l
      → Accounts s handed arrived l
  unfolding update_event
  History-Accounts v start = (v, sym (append-nil _))
  History-Accounts v (poll {handed} {arrived} {l} e l' h step) =
      let (sound, total) = History-Accounts v h in
      let (sound', split) = poll_step l.que l l' e refl sound step in
      (sound', append_assoc handed _ _ ∙ ap (λ t. handed ++ t) (sym split) ∙ total)
  History-Accounts v (idle {handed} {arrived} {l} l' h step) =
      let (sound, total) = History-Accounts v h in
      let (sound', same) = idle_step l.que l l' refl sound step in
      (sound', ap (λ t. handed ++ t) same ∙ total)
  History-Accounts {s} v (upcalls {handed} {arrived} {l} i us n m h at short ran) =
      let (sound, total) = History-Accounts v h in
      let (sound', more) = upcalls_step l i us n m sound at short ran in
      (
        sound',
        ap (λ t. handed ++ t) more
            ∙ sym (append_assoc handed _ _)
            ∙ ap (λ t. t ++ kept (free l.arena) us) total
            ∙ append_assoc (waiting s) arrived _,
      )
