-- ===== src/Server/Echo.antt =====
-- examples/EchoServer.cpp: received data is answered.
use ruru.Base.{
  ◌⊎◌, inl, inr, true, false, Option, ◌%◌, ◌^◌, take, drop, fault, bind_done, bind_fault, if-true,
  if-false, Bool-cases, ℕ, ◌≡◌, ap, ◌∙◌, Bool, some, Run, done, ◌>>=◌,
}
use ruru.Event.{Message, is_terminated, Event, evt_recv_client_data}
use mathlib.Core.Path.{subst}
use ruru.Dtls.{Tls, MemBio}
use ruru.Client.{Node}
use ruru.Sctp.{Usrsctp}
use ruru.Sctp.Send.{send_usr_sctp_data}
use ruru.Sctp.Outcome.{Outcome}
use ruru.Sctp.Total.{IsBounded, send_usr_sctp_data-Outcome_total}
use ruru.Loop.{client_node, put_node}
use ruru.Server.{
  call_through, Here, on_client, event_bytes, print_data, echo_message, echo_2client, dispatch,
}

module _ (tls : Tls) (lib : Usrsctp) where
  pub on_client-found :
      (call : Node tls.State lib.Stack → Run (Node tls.State lib.Stack)) (i : ℕ) (l : Here tls lib)
      (n m : Node tls.State lib.Stack)
      → client_node l i ≡ some n
      → call n ≡ done m
      → on_client tls lib call i l ≡ done (put_node l (record m { self = i }))
  unfolding on_client
  on_client-found call i l n m e run =
      ap (call_through tls lib call i l) e
      ∙ ap (λ r. r >>= λ (m : Node tls.State lib.Stack). done (put_node l (record m { self = i })))
          run

  module _ (bio : MemBio tls) (fit : IsBounded lib) where
    -- An event with received data is printed and answered, over memory BIOs and where usrsctp sends no
    -- overrunning heart beat. Where no zero ends the text that begins with the event's block of the arena,
    -- the print runs beyond the arena: a fault. Otherwise the client that sent the data is sent a message
    -- with the bytes of that block and its stream, and the send ends: with that message accepted behind
    -- all that was cached, or cached behind it, or refused for good by usrsctp.
    pub dispatch-Outcome :
        (i off : ℕ) (evt : Event) (l : Here tls lib) (n : Node tls.State lib.Stack)
        → evt.client ≡ some i
        → evt.bytes ≡ some off
        → client_node l i ≡ some n
        → ((is_terminated (drop off l.arena.memory) ≡ false)
            × (dispatch tls lib evt_recv_client_data evt l ≡ fault))
          ⊎ ((is_terminated (drop off l.arena.memory) ≡ true)
              × ((ok : Bool) × (m : Node tls.State lib.Stack) × (dispatch tls lib
                      evt_recv_client_data evt l
                    ≡ done (put_node l (record m { self = i })))
                  × Outcome tls lib
                      (record {
                        bytes = take evt.length (drop off l.arena.memory);
                        param = record { sid = evt.param.sid % 2 ^ 16; ppid = 0 };
                      })
                      n
                      ok
                      m))
    unfolding dispatch echo_2client print_data
    dispatch-Outcome i off evt l n c b e =
        let msg = echo_message tls lib evt l in
        let said : Message = record {
          bytes = take evt.length (drop off l.arena.memory);
          param = record { sid = evt.param.sid % 2 ^ 16; ppid = 0 };
        } in
        let same : msg ≡ said =
          ap (λ (o : Option ℕ). record said { bytes = event_bytes l.arena.memory o evt.length })
            b in
        let print = ap (λ o. print_data tls lib o l >>= echo_2client tls lib evt.client msg) b in
        elim (Bool-cases (is_terminated (drop off l.arena.memory))) [
          | inr open_text ↦ inl (open_text, print ∙ bind_fault _ (if-false _ _ open_text))
          | inl ended ↦
              let (ok, m, run, o) = send_usr_sctp_data-Outcome_total tls lib bio fit msg n in
              inr (
                ended,
                (
                  ok,
                  m,
                  print
                      ∙ bind_done _ (if-true _ _ ended)
                      ∙ ap (λ o. echo_2client tls lib o msg l) c
                      ∙ on_client-found
                          (λ n. send_usr_sctp_data tls lib (some msg) n >>= λ r. done r.1) i l n m e
                          (ap (λ x. x >>= λ r. done r.1) run),
                  subst (λ x. Outcome tls lib x n ok m) same o,
                ),
              )
        ]
