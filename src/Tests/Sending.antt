-- ===== src/Tests/Sending.antt =====
-- What one client sends and receives.
use ruru.Base.{
  ℕ, ◌≡◌, refl, ◌⊎◌, Bool, true, false, List, [], ◌∷◌, some, arith, Bytes, done, fault, replicate,
}
use ruru.Event.{Upcall, outbound, inbound}
use ruru.Arena.{arena_alloc, arena_copy}
use ruru.Ring.{ring_write}
use ruru.Sctp.{store_heart_beat}
use ruru.Ring.Inv
use ruru.Client.{Node, client_send_heart_beat_data}
use ruru.Client.HeartBeat.{Drained, client_send_heart_beat_data-Drained}
use ruru.Sctp.{
  run_upcalls, on_sctp_outbound_packet, run_upcall, on_sctp_inbound_packet, push_client_recv_data,
  receive_into,
}
use ruru.Sctp.Receipt.{IsStored, queued}
use ruru.Sctp.Delivery.{run_upcalls-Delivers}
use ruru.Sctp.Upcalls.{overruns, on_sctp_outbound_packet-overruns}
use ruru.Sctp.Send.{send_usr_sctp_data}
use ruru.Sctp.Outcome.{Outcome}
use ruru.Sctp.Total.{send_usr_sctp_data-Outcome_total}
use ruru.Tests.World.{
  small_stack-IsBounded, Session, plain_tls, plain_bio, packet_of, rcv_info, small_stack, beats,
  hello, node, result_or,
}

beats-IsValid : Inv.IsValid beats
beats-IsValid = omega arith

client_send_heart_beat_data-Drained_example :
    (m : Node Session ℕ) × (client_send_heart_beat_data plain_tls node ≡ done m) × Drained node m
client_send_heart_beat_data-Drained_example =
    client_send_heart_beat_data-Drained plain_tls plain_bio node beats-IsValid

abbrev long_beat : Bytes
long_beat = packet_of 4 (replicate 1100 0)

on_sctp_outbound_packet-overruns_example :
    ((overruns long_beat ≡ true)
      × (on_sctp_outbound_packet plain_tls (some long_beat) node ≡ fault))
    ⊎ ((overruns long_beat ≡ false)
        × ((m : Node Session ℕ) × (on_sctp_outbound_packet plain_tls (some long_beat) node
              ≡ done m)))
on_sctp_outbound_packet-overruns_example =
    on_sctp_outbound_packet-overruns plain_tls plain_bio long_beat node

abbrev arrivals : List Upcall
arrivals =
    inbound (some (1 ∷ 2 ∷ [])) rcv_info
    ∷ outbound (some (packet_of 5 []))
    ∷ inbound (some (3 ∷ [])) rcv_info
    ∷ []

abbrev after_arrivals : Node Session ℕ
after_arrivals = result_or (run_upcalls plain_tls arrivals node) node

node-IsStored : IsStored node
node-IsStored = record { arena = omega arith; data_below = tt; attached = refl }

arrivals_end : run_upcalls plain_tls arrivals node ≡ done after_arrivals
unfolding run_upcalls run_upcall on_sctp_inbound_packet on_sctp_outbound_packet
    push_client_recv_data receive_into arena_alloc arena_copy store_heart_beat ring_write
arrivals_end = refl

run_upcalls-Delivers_example :
    IsStored after_arrivals × (queued after_arrivals ≡ (1 ∷ 2 ∷ []) ∷ (3 ∷ []) ∷ [])
run_upcalls-Delivers_example =
    run_upcalls-Delivers plain_tls arrivals node after_arrivals node-IsStored (omega arith)
      arrivals_end

send_usr_sctp_data-Outcome_total_example :
    (ok : Bool) × (m : Node Session ℕ) × (send_usr_sctp_data plain_tls small_stack (some hello) node
      ≡ done (ok, m))
    × Outcome plain_tls small_stack hello node ok m
send_usr_sctp_data-Outcome_total_example =
    send_usr_sctp_data-Outcome_total plain_tls small_stack plain_bio small_stack-IsBounded hello
      node
