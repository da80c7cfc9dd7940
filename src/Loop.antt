-- ===== src/Loop.antt =====
-- RuruLoop.h and RuruLoop.cpp: the event queue, the clients, and the scan of their caches.
pub mod Order
pub mod Start
pub mod Life
pub mod Clients
use ruru.Base.{
  ℕ, zero, suc, ◌+◌, ◌-◌, ◌%◌, ◌^◌, Bool, true, false, not, ◌&&◌, ◌||◌, List, [], ◌∷◌, ◌++◌, Option,
  none, some, ◌==◌, ltb, if◌then◌else◌, Bytes, get_elem?, set, add32,
}
use ruru.Event.{Event, new_event, evt_send_cache_data, Address, Datagram, Message}
use ruru.Arena.{Arena, arena_reset}
use ruru.Client.{Client, Node}

-- `RuruLoop`, without its descriptors. A client pointer is an index into `client_mgr`, from which
-- nothing is ever removed. `count` is the static `int32_t` of `ScanClientCacheData`, as its 32 bits.
-- `stack` is usrsctp's state; the last three fields are what an observer sees (see `Client.Node`).
pub record Loop (S L : Type 0) : Type 0 where
  pub client_mgr : List (Client S)
  pub que : List Event
  pub arena : Arena
  pub count : ℕ
  pub stack : L
  pub wire : List Datagram
  pub written : List Bytes
  pub accepted : List Message

-- The event of one client.
abbrev pub cache_event : ℕ → Event
cache_event i = record new_event { kind = evt_send_cache_data; client = some i }

-- `count++ % roll != 0` for an `int32_t` and a roll of 100: C's remainder is 0 where that of the
-- magnitude is. (`count++` at INT32_MAX is taken to wrap.)
abbrev pub is_skipped : ℕ → Bool
is_skipped count = not ((if ltb count (2 ^ 31) then count else 2 ^ 32 - count) % 100 == 0)

module _ {S : Type 0} where
  -- `client->address.host == address.host && client->address.port == address.port`
  abbrev pub has_address : Address → Client S → Bool
  has_address a c = (c.address.host == a.host) && (c.address.port == a.port)

  -- `FindClientByAddress` from index `i` on.
  unfoldable pub find_from : Address → ℕ → List (Client S) → Option ℕ
  find_from a i [] = none
  find_from a i (c ∷ cs) = if has_address a c then some i else find_from a (suc i) cs

  -- `AttachClientInfo`
  unfoldable pub attach_client_info : Client S → Client S
  attach_client_info c = record c { attached = true }

  -- `!client->cache.empty()`
  abbrev pub has_cache : Client S → Bool
  has_cache c = elim c.cache [ [] ↦ false | _ ∷ _ ↦ true ]

  -- The loop of `ScanClientCacheData` from index `i` on: `bHaveData` and the queue.
  unfoldable pub scan_from : ℕ → List (Client S) → Bool → List Event → Bool × List Event
  scan_from i [] have que = (have, que)
  scan_from i (c ∷ cs) have que =
      scan_from (suc i) cs (if has_cache c then true else have)
        (if has_cache c then que ++ cache_event i ∷ [] else que)

module _ {S L : Type 0} where
  -- What the operations of client `i` reach, and the loop after them.
  unfoldable pub client_node : Loop S L → ℕ → Option (Node S L)
  client_node l i = elim (get_elem? l.client_mgr i) [
    | none ↦ none
    | some c ↦ some (record {
      self = i;
      client = c;
      que = l.que;
      arena = l.arena;
      stack = l.stack;
      wire = l.wire;
      written = l.written;
      accepted = l.accepted;
    })
  ]

  unfoldable pub put_node : Loop S L → Node S L → Loop S L
  put_node l n = record {
    client_mgr = set l.client_mgr n.self n.client;
    que = n.que;
    arena = n.arena;
    count = l.count;
    stack = n.stack;
    wire = n.wire;
    written = n.written;
    accepted = n.accepted;
  }

  -- `UpdateEvent`, given the queue: `some` is `return true`, with what `evt` becomes.
  unfoldable pub take_event : List Event → Loop S L → Option Event × Loop S L
  take_event [] l = (none, record l { arena = arena_reset l.arena })
  take_event (evt ∷ rest) l = (some evt, record l { que = rest })

  -- `UpdateEvent`
  unfoldable pub update_event : Loop S L → Option Event × Loop S L
  unfolding take_event
  update_event l = take_event l.que l

  -- `FindClientByAddress`
  unfoldable pub find_client_by_address : Loop S L → Address → Option ℕ
  find_client_by_address l a = find_from a 0 l.client_mgr

  -- `ScanClientCacheData`
  unfoldable pub scan_client_cache_data : Loop S L → Bool × Loop S L
  scan_client_cache_data l =
      if is_skipped l.count
      then (false, record l { count = add32 l.count 1 })
      else (let (have, que) = scan_from 0 l.client_mgr false l.que in
          (have, record l { count = add32 l.count 1; que = que }))
