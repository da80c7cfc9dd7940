-- ===== src/Tests/Serving.antt =====
-- The echo server: an event is answered, and a datagram finds its client.
use ruru.Base.{◌⊎◌, inl, true, false, fault, ℕ, ◌≡◌, refl, Bool, [], ◌∷◌, done, Bytes}
use ruru.Event.{evt_recv_client_data, Address}
use ruru.Client.{Node}
use ruru.Sctp.Outcome.{Outcome}
use ruru.Net.{swap32, swap16}
use ruru.Loop.{Loop, put_node, find_client_by_address}
use ruru.Server.{Received, dispatch, receive_datagram, receive_datagrams}
use ruru.Server.Echo.{dispatch-Outcome}
use ruru.Server.Datagrams.{
  AllReceive, Routed, receive_datagram-Routed, receive_datagrams-behind_empty,
}
use ruru.Tests.World.{Session, plain_tls, plain_bio, small_stack, small_stack-IsBounded, node}
use ruru.Tests.Loops.{loop, loop-node, packet_event}
use ruru.Tests.Receiving.{plain_tls-Consumes}

dispatch-Outcome_example :
    ((true ≡ false)
      × (dispatch plain_tls small_stack evt_recv_client_data packet_event loop ≡ fault))
    ⊎ ((true ≡ true)
        × ((ok : Bool) × (m : Node Session ℕ) × (dispatch plain_tls small_stack evt_recv_client_data
                packet_event loop
              ≡ done (put_node loop (record m { self = 0 })))
            × Outcome plain_tls small_stack
                (record { bytes = 0 ∷ 0 ∷ []; param = record { sid = 1; ppid = 0 } })
                node
                ok
                m))
dispatch-Outcome_example =
    dispatch-Outcome plain_tls small_stack plain_bio small_stack-IsBounded 0 0 packet_event loop
      node refl refl loop-node

abbrev local : Address
local = record { host = 2130706433; port = 5000 }

receive_datagram-Routed_example :
    (m : Loop Session ℕ) × (receive_datagram plain_tls small_stack 16777343 34835 (1 ∷ 2 ∷ []) loop
      ≡ done m)
    × Routed plain_tls small_stack (1 ∷ 2 ∷ []) (find_client_by_address loop local) loop m
    × AllReceive m.client_mgr
unfolding swap32 swap16
receive_datagram-Routed_example =
    receive_datagram-Routed plain_tls small_stack plain_bio small_stack-IsBounded plain_tls-Consumes
      16777343 34835 (1 ∷ 2 ∷ []) loop (inl refl, tt)

abbrev received : Bytes → Received
received bytes = record { s_addr = 16777343; sin_port = 34835; payload = bytes }

receive_datagrams-behind_empty_example :
    (m : Loop Session ℕ) × (receive_datagrams plain_tls small_stack
        (received (1 ∷ []) ∷ received [] ∷ received (2 ∷ []) ∷ [])
        loop
      ≡ done (received (2 ∷ []) ∷ [], m))
    × AllReceive m.client_mgr
receive_datagrams-behind_empty_example =
    receive_datagrams-behind_empty plain_tls small_stack plain_bio small_stack-IsBounded
      plain_tls-Consumes (received (1 ∷ []) ∷ received [] ∷ received (2 ∷ []) ∷ []) loop
      (inl refl, tt)
