-- ===== src/Sctp/Setup.antt =====
-- RuruSctp.cpp: the constructor, `ConfigureSctpSocket`, `CloseSctpSocket`, `UsrsctpStartInit` and
-- `UsrsctpUnInit`.
pub mod Registry
use ruru.Base.{ℕ, zero, suc, Bool, true, false, List, [], ◌∷◌, Option, none, some, if◌then◌else◌}

-- A pointer that usrsctp is given as an address: a `RuruSctp *` or a `RuruClient *`.
pub data Pointer : Type 0 where
  sctp_of client_of : ℕ → Pointer

-- An option and the value that it is set to. SO_LINGER has `l_onoff` and `l_linger`,
-- SCTP_PEER_ADDR_PARAMS the path MTU beside SPP_PMTUD_DISABLE; SCTP_ENABLE_STREAM_RESET is for
-- SCTP_ALL_ASSOC.
pub data SocketOption : Type 0 where
  so_linger : ℕ → ℕ → SocketOption
  sctp_peer_addr_params : ℕ → SocketOption
  sctp_enable_stream_reset sctp_nodelay sctp_explicit_eor : ℕ → SocketOption

-- The functions of usrsctp that set a socket up. `false` is a result below 0.
pub record SetupCalls (Stack : Type 0) : Type 0 where
  -- `usrsctp_init` and `usrsctp_sysctl_set_sctp_ecn_enable(0)`
  pub start : Stack → Stack
  -- `usrsctp_socket`
  pub socket : Stack → Option ℕ × Stack
  -- `usrsctp_register_address`, `usrsctp_deregister_address`
  pub register : Pointer → Stack → Stack
  pub deregister : Pointer → Stack → Stack
  pub set_non_blocking : ℕ → Stack → Bool × Stack
  pub setsockopt : ℕ → SocketOption → Stack → Stack
  -- `usrsctp_bind` to a port at an address
  pub bind : ℕ → ℕ → Pointer → Stack → Bool × Stack
  pub listen : ℕ → Stack → Bool × Stack
  pub close : ℕ → Stack → Stack
  -- `usrsctp_finish() == 0`
  pub finish : Stack → Bool × Stack

-- `sock_` and `bHandShakeDone` of a `RuruSctp`; `none` for a flag that is not initialised.
pub record Transport : Type 0 where
  pub sock : Option ℕ
  pub hand_shake_done : Option Bool

-- The options that `ConfigureSctpSocket` sets, in order.
abbrev pub socket_options : List SocketOption
socket_options =
    so_linger 1 0
    ∷ sctp_peer_addr_params 1200
    ∷ sctp_enable_stream_reset 1
    ∷ sctp_nodelay 1
    ∷ sctp_explicit_eor 1
    ∷ []

module _ {L : Type 0} (calls : SetupCalls L) where
  -- usrsctp's state with the static `usrsctpInit_`.
  pub record Usr : Type 0 where
    pub usrsctp_init : Bool
    pub stack : L

  -- `usrsctpInit_` is false when the program starts.
  abbrev pub new_usr : L → Usr
  new_usr stack = record { usrsctp_init = false; stack = stack }

  -- `UsrsctpStartInit`
  unfoldable pub usrsctp_start_init : Usr → Usr
  usrsctp_start_init u =
      if u.usrsctp_init then u else record { usrsctp_init = true; stack = calls.start u.stack }

  -- The calls of `usrsctp_setsockopt` in `ConfigureSctpSocket`, whose results are not looked at.
  abbrev pub set_options : ℕ → List SocketOption → L → L
  set_options sock [] stack = stack
  set_options sock (o ∷ os) stack = set_options sock os (calls.setsockopt sock o stack)

  -- `ConfigureSctpSocket` of the transport of client `self`.
  unfoldable pub configure_sctp_socket : ℕ → ℕ → L → Bool × L
  configure_sctp_socket self sock stack =
      let (ok, stack) = calls.set_non_blocking sock stack in
      if ok
      then calls.bind sock 5001 (sctp_of self) (set_options sock socket_options stack)
      else (false, stack)

  -- `CloseSctpSocket`: what becomes of `sock_`. It is `client` that is deregistered.
  unfoldable pub close_sctp_socket : ℕ → Option ℕ → L → Option ℕ × L
  close_sctp_socket self none stack = (none, stack)
  close_sctp_socket self (some sock) stack =
      (none, calls.deregister (client_of self) (calls.close sock stack))

  -- The constructor gives up after `usrsctp_socket`.
  abbrev pub give_up : ℕ → ℕ → Usr → Transport × Usr
  give_up self sock u =
      let (closed, stack) = close_sctp_socket self (some sock) u.stack in
      (record { sock = closed; hand_shake_done = none }, record u { stack = stack })

  -- The end of the constructor: `usrsctp_listen`.
  unfoldable pub listen_or_close : ℕ → ℕ → Usr → Transport × Usr
  listen_or_close self sock u =
      let (ok, stack) = calls.listen sock u.stack in
      if ok
      then (record { sock = some sock; hand_shake_done = some false }, record u { stack = stack })
      else give_up self sock (record u { stack = stack })

  -- The constructor behind `usrsctp_socket`.
  unfoldable pub open_socket : ℕ → Option ℕ → Usr → Transport × Usr
  open_socket self none u = (record { sock = none; hand_shake_done = none }, u)
  open_socket self (some sock) u =
      let (ok, stack) = configure_sctp_socket self sock (calls.register (sctp_of self) u.stack) in
      if ok
      then listen_or_close self sock (record u { stack = stack })
      else give_up self sock (record u { stack = stack })

  -- The constructor `RuruSctp(cli)`; the client's own constructor gives `this`, which is not null.
  unfoldable pub new_sctp : ℕ → Usr → Transport × Usr
  new_sctp self u =
      let v = usrsctp_start_init u in
      let (sock, stack) = calls.socket v.stack in open_socket self sock (record v { stack = stack })

  -- The loop of `UsrsctpUnInit`, `n` rounds from its end.
  unfoldable pub finish_within : ℕ → L → L
  finish_within zero stack = stack
  finish_within (suc n) stack =
      let (ok, stack) = calls.finish stack in if ok then stack else finish_within n stack

  -- `UsrsctpUnInit`
  unfoldable pub usrsctp_un_init : L → L
  usrsctp_un_init stack = finish_within 300 stack
