-- ===== src/Sctp/Send.antt =====
-- RuruSctp.cpp: `PushMsg2ClientCache`, `SendSctpCacheData` and `SendUsrSctpData`.
use ruru.Base.{
  ℕ, zero, suc, Bool, true, false, List, [], ◌∷◌, ◌++◌, Option, none, some, ◌==◌, if◌then◌else◌,
  length, Run, done, fault, spin, ◌>>=◌,
}
use ruru.Event.{Message}
use ruru.Dtls.{Tls}
use ruru.Net.{swap32}
use ruru.Client.{Node}
use ruru.Sctp.{SendResult, sent, error, eagain, Usrsctp, run_upcalls}

module _ {S L : Type 0} where
  abbrev pub set_cache : List Message → Node S L → Node S L
  set_cache cache n = record n { client = record (n.client) { cache = cache } }

  -- `PushMsg2ClientCache`: the message is copied to the end. (`length` is an `int32_t`: the
  -- message is shorter than 2 GiB.)
  unfoldable pub push_msg_2client_cache : Message → Node S L → Node S L
  push_msg_2client_cache msg n = set_cache (n.client.cache ++ msg ∷ []) n

  -- A send that usrsctp took.
  abbrev pub accept_msg : Message → Node S L → Node S L
  accept_msg msg n = record n { accepted = n.accepted ++ msg ∷ [] }

  -- `client->cache.pop()`
  abbrev pub pop_cache : Node S L → Node S L
  pop_cache n = elim n.client.cache [ [] ↦ n | msg ∷ rest ↦ set_cache rest n ]

-- `queue.empty()`, or `queue.front()` handed on.
abbrev pub at_front {ℓ κ} : {A : Type ℓ} {B : Type κ} → List A → B → (A → B) → B
at_front [] empty front = empty
at_front (x ∷ _) empty front = front x

module _ (tls : Tls) (lib : Usrsctp) where
  abbrev pub State : Type 0
  State = Node tls.State lib.Stack

  -- `usrsctp_sendv(sock_, ...)` with the message's parameters, and the upcalls.
  unfoldable pub sendv : Message → State → Run (SendResult × State)
  sendv msg n =
      let (res, ups, stack) =
        lib.sendv n.client.sock msg.bytes msg.param.sid (swap32 msg.param.ppid) n.stack in
      run_upcalls tls ups (record n { stack = stack }) >>= λ m. done (res, m)

  -- `usrsctp_close(sock_); bHandShakeDone = false;`. The pointer `sock_` stays, to a closed socket.
  unfoldable pub drop_socket : State → Run State
  drop_socket n =
      let (ups, stack) = lib.close n.client.sock n.stack in
      run_upcalls tls ups (record n { stack = stack }) >>= λ m.
      done (record m {
        client = record (m.client) { sctp_hand_shake_done = false; sock_closed = true };
      })

  -- What `SendSctpCacheData` does after a send: `none` goes on with the loop.
  unfoldable pub after_cached : Message → SendResult → State → Run (Option Bool × State)
  after_cached msg sent n = done (none, accept_msg msg (pop_cache n))
  after_cached msg (error errno) n =
      if errno == eagain
      then done (some false, n)
      else (drop_socket n >>= λ m. done (some false, m))

  -- On with the loop by `go`, or out of it.
  unfoldable pub next_round :
      (State → Run (Bool × State)) → Option Bool × State → Run (Bool × State)
  next_round go (none, n) = go n
  next_round go (some status, n) = done (status, n)

  -- `while (!client->cache.empty())`
  unfoldable pub send_cache : ℕ → State → Run (Bool × State)
  send_cache zero n = spin
  send_cache (suc fuel) n =
      at_front n.client.cache (done (true, n))
        λ msg. sendv msg n >>= (λ r. after_cached msg r.0 r.1) >>= next_round (send_cache fuel)

  -- `SendSctpCacheData`. A round takes one message from the cache, which upcalls do not touch.
  unfoldable pub send_sctp_cache_data : State → Run (Bool × State)
  send_sctp_cache_data n =
      if n.client.sctp_hand_shake_done
      then send_cache (suc (length n.client.cache)) n
      else done (false, n)

  -- What `SendUsrSctpData` does after its own send.
  unfoldable pub after_sent : Message → SendResult → State → Run (Bool × State)
  after_sent msg sent n = done (true, accept_msg msg n)
  after_sent msg (error errno) n =
      if errno == eagain
      then done (false, push_msg_2client_cache msg n)
      else (drop_socket n >>= λ m. done (false, m))

  -- `SendUsrSctpData` once the cache has been sent: `status` is what `SendSctpCacheData` returned.
  -- `PushMsg2ClientCache` reads through the pointer, so that a null one is a fault there.
  unfoldable pub send_behind_cache : Option Message → Bool → State → Run (Bool × State)
  send_behind_cache none false n = fault
  send_behind_cache (some msg) false n = done (false, push_msg_2client_cache msg n)
  send_behind_cache none true n = done (true, n)
  send_behind_cache (some msg) true n =
      if n.client.sctp_hand_shake_done
      then (sendv msg n >>= λ r. after_sent msg r.0 r.1)
      else done (true, n)

  -- `SendUsrSctpData`
  unfoldable pub send_usr_sctp_data : Option Message → State → Run (Bool × State)
  send_usr_sctp_data msg n = send_sctp_cache_data n >>= λ r. send_behind_cache msg r.0 r.1
