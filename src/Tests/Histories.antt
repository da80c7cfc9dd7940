-- ===== src/Tests/Histories.antt =====
-- Sequences of calls: of a ring, of a client, and rounds of the program; and a client's whole life.
use ruru.Base.{◌≡◌, ◌⊎◌, List, [], ◌∷◌, some, arith, Run}
use ruru.Event.{HeartBeatData}
use ruru.Client.Life.{dts_ctx, Stage, client_life}
use ruru.Ring.Inv
use ruru.Ring.Traces.{RingOp, reset, is_empty, read, write, ring_ops, queue_ops, ring_ops-queue_ops}
use ruru.Ring.Refine.{contents}
use ruru.Sctp.Sound.{IsKept}
use ruru.Sctp.History.{
  ClientOp, send, flush, beats, datagram, Deafens, Lasts, run_client_ops-Passes,
}
use ruru.Dtls.Context.{DtlsCtx}
use ruru.Tests.World
use ruru.Tests.World.{
  Session, plain_tls, plain_bio, small_stack, small_stack-IsBounded, node, hello, ring_slot,
  beat_one,
}
use ruru.Tests.Keys.{ledger_ssl, nothing_owed, Ledger}
use ruru.Tests.Setups.{unbound, fresh}
use ruru.Tests.Receiving.{plain_tls-Consumes}

-- The ring is full at first.
abbrev ring_calls : List (RingOp HeartBeatData)
ring_calls = write ring_slot ∷ read ∷ write ring_slot ∷ is_empty ∷ reset ∷ read ∷ []

ring_ops-queue_ops_example :
    let (answers, r) = ring_ops ring_calls World.beats in
    Inv.IsValid r × ((answers, contents r) ≡ queue_ops 2 ring_calls (contents World.beats))
ring_ops-queue_ops_example = ring_ops-queue_ops ring_calls World.beats (omega arith)

abbrev client_calls : List ClientOp
client_calls = send hello ∷ beats ∷ datagram (1 ∷ 2 ∷ []) ∷ flush ∷ send hello ∷ []

node-IsKept : IsKept 1 node
node-IsKept = record { ring = omega arith; named = tt; self = omega arith }

run_client_ops-Passes_example :
    Deafens plain_tls small_stack plain_bio small_stack-IsBounded plain_tls-Consumes 1 client_calls
      node
    ⊎ Lasts plain_tls small_stack plain_bio small_stack-IsBounded plain_tls-Consumes 1 client_calls
        node
run_client_ops-Passes_example =
    run_client_ops-Passes plain_tls small_stack plain_bio small_stack-IsBounded plain_tls-Consumes 1
      client_calls node node-IsKept

abbrev stage : Stage ledger_ssl unbound
stage = record { world = nothing_owed; usr = fresh; heap = some 100 ∷ [] }

abbrev life : Run (Stage ledger_ssl unbound)
life = client_life ledger_ssl unbound (some 3) 0 stage

-- The context that the clients share, and what the system is then.
abbrev shared : DtlsCtx × Ledger
shared = dts_ctx ledger_ssl unbound [] nothing_owed
