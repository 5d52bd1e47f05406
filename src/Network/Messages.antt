-- ===== src/Network/Messages.antt =====
-- crates/ondris-network/src/lib.rs: the messages of peers, their framing, and what the connection
-- loop does with each. A socket address is a number; a channel is the list of what was sent on it.
pub mod Delivery
pub mod Loop
use ondris.Prelude.{
  ℕ, ◌+◌, ◌*◌, ◌%◌, ◌^◌, Bool, true, false, Option, none, some, List, [], ◌∷◌, ◌++◌, map, Bytes,
  length, bytes_eq, to_be_bytes, from_be_bytes, leb, ◌==◌, if◌then◌else◌, Result, ok, err, Error,
  bad_json, too_large, bad_network, ok_or, ensure, ◌>>=◌, ◌>>◌,
}
use ondris.Primitives.{Hash256}
use ondris.Block.{Block, Transaction, Json}
use ondris.Network.Noise.{Snow, Reader, write_all, read_exact}

abbrev pub protocol_version : ℕ
protocol_version = 1

pub data Message : Type 0 where
  handshake : ℕ → Bytes → ℕ → Message
  new_block : Block → Message
  new_transaction : Transaction → Message
  get_block : Hash256 → Message
  block_response : Option Block → Message
  ping : Message
  pong : Message

abbrev pub SocketAddr : Type 0
SocketAddr = ℕ

pub data NetworkEvent : Type 0 where
  peer_connected : SocketAddr → NetworkEvent
  peer_disconnected : SocketAddr → NetworkEvent
  block_came : Block → NetworkEvent
  transaction_came : Transaction → NetworkEvent
  block_requested : SocketAddr → Hash256 → NetworkEvent
  response_came : Option Block → NetworkEvent

-- The largest message that is read, 64 MiB.
abbrev pub max_message : ℕ
max_message = 64 * 1024 * 1024

module _ {Session : Type 0} (snow : Snow Session) (json : Json Message) where
  pub write_message : Session → Message → Result (Bytes × Session)
  write_message s msg =
      let bytes = json.to_vec msg in
      write_all snow s (to_be_bytes 4 (length bytes % 2 ^ 32) ++ bytes)

  pub read_message : Reader snow → Result (Message × Reader snow)
  read_message reader = do
    (len_bytes, reader₁) ← read_exact snow 4 reader
    let len = from_be_bytes len_bytes
    ensure (leb len max_message) too_large
    (buf, reader₂) ← read_exact snow len reader₁
    msg ← ok_or (json.from_slice buf) bad_json
    ok (msg, reader₂)

-- The peers with what was sent to each, newest last, and the events, newest last.
pub record Network : Type 0 where
  pub peers : List (SocketAddr × List Message)
  pub events : List NetworkEvent
  pub network_name : Bytes
  pub my_height : ℕ

pub set_height : ℕ → Network → Network
set_height height n = record n { my_height = height }

pub send_in :
    SocketAddr → Message → List (SocketAddr × List Message) → List (SocketAddr × List Message)
send_in addr msg [] = []
send_in addr msg ((a, sent) ∷ rest) =
    let others = send_in addr msg rest in
    if a == addr then (a, sent ++ (msg ∷ [])) ∷ rest else (a, sent) ∷ others

pub remove_peer : SocketAddr → List (SocketAddr × List Message) → List (SocketAddr × List Message)
remove_peer addr [] = []
remove_peer addr ((a, sent) ∷ rest) =
    let others = remove_peer addr rest in if a == addr then others else (a, sent) ∷ others

pub send_to : SocketAddr → Message → Network → Network
send_to addr msg n = record n { peers = send_in addr msg n.peers }

pub broadcast : Message → Network → Network
broadcast msg n = record n {
  peers = map (λ (p : SocketAddr × List Message). (p.0, p.1 ++ (msg ∷ []))) n.peers;
}

pub peer_count : Network → ℕ
peer_count n = length n.peers

abbrev send_event : NetworkEvent → Network → Network
send_event e n = record n { events = n.events ++ (e ∷ []) }

-- The body of the read loop of `handle_connection`; an error ends the connection.
pub handle_message : SocketAddr → Message → Network → Result (Unit {0}) × Network
handle_message peer (handshake version network height) n =
    (ensure (bytes_eq network n.network_name) bad_network, n)
handle_message peer (new_block b) n = (ok tt, send_event (block_came b) n)
handle_message peer (new_transaction t) n = (ok tt, send_event (transaction_came t) n)
handle_message peer (get_block h) n = (ok tt, send_event (block_requested peer h) n)
handle_message peer (block_response b) n = (ok tt, send_event (response_came b) n)
handle_message peer ping n = (ok tt, send_to peer pong n)
handle_message peer pong n = (ok tt, n)

-- What comes of a connection: the Noise handshake, the writing of the first message, the messages
-- that are read, and the error of the read after the last of them.
pub record Connection : Type 0 where
  pub secured : Result (Unit {0})
  pub greeted : Result (Unit {0})
  pub received : List Message
  pub closed : Error

-- `handle_connection` after the Noise handshake: the peer with its event, and the message that is
-- written then.
pub connected : SocketAddr → Network → Message × Network
connected peer n = (
  handshake protocol_version n.network_name n.my_height,
  send_event (peer_connected peer) (record n { peers = (peer, []) ∷ remove_peer peer n.peers }),
)

-- The loop over the messages that are read. It is left by an error only: that of a message, or at
-- last that of the read.
pub handle_messages : SocketAddr → List Message → Error → Network → Result (Unit {0}) × Network
handle_messages peer [] closed n = (err closed, n)
handle_messages peer (m ∷ ms) closed n =
    let (r, n') = handle_message peer m n in
    elim r [ ok _ ↦ handle_messages peer ms closed n' | err e ↦ (err e, n') ]

-- `handle_connection` after the loop.
pub disconnected : SocketAddr → Network → Network
disconnected peer n =
    send_event (peer_disconnected peer) (record n { peers = remove_peer peer n.peers })

-- An error of either handshake ends the function where it stands.
pub handle_connection : SocketAddr → Connection → Network → Result (Unit {0}) × Network
handle_connection peer k n =
    let start = (connected peer n).1 in
    let (r, n') = handle_messages peer k.received k.closed start in
    elim k.secured [
      | err e ↦ (err e, n)
      | ok _ ↦ elim k.greeted [ err e ↦ (err e, start) | ok _ ↦ (r, disconnected peer n') ]
    ]
