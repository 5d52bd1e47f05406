-- ===== src/Network/Messages/Loop.antt =====
-- The connection loop as a whole: its events in order, its end, and the peers it leaves.
use ondris.Prelude.{
  ℕ, ◌≡◌, refl, sym, subst, ap, ◌∙◌, Bool, true, false, List, [], ◌∷◌, ◌++◌, append_assoc,
  append-nil, Bytes, Result, Result-cases, Error, ok, err, bytes_eq, Bool-cases, inl, inr,
  bad_network, ◌==◌, if◌then◌else◌, arith,
}
use ondris.Network.Messages.{
  Message, NetworkEvent, Network, SocketAddr, Connection, handle_message, handle_messages,
  handle_connection, connected, disconnected, remove_peer, handshake, new_block, new_transaction,
  get_block, block_response, ping, pong, peer_connected, peer_disconnected, block_came,
  transaction_came, block_requested, response_came, send_in, send_to,
}

-- The events of the messages, up to the first handshake of another network.
pub events_of : SocketAddr → Bytes → List Message → List NetworkEvent
events_of peer name [] = []
events_of peer name (handshake v network h ∷ ms) =
    let rest = events_of peer name ms in if bytes_eq network name then rest else []
events_of peer name (new_block b ∷ ms) = block_came b ∷ events_of peer name ms
events_of peer name (new_transaction t ∷ ms) = transaction_came t ∷ events_of peer name ms
events_of peer name (get_block h ∷ ms) = block_requested peer h ∷ events_of peer name ms
events_of peer name (block_response b ∷ ms) = response_came b ∷ events_of peer name ms
events_of peer name (ping ∷ ms) = events_of peer name ms
events_of peer name (pong ∷ ms) = events_of peer name ms

-- The error that ends the loop: that of such a handshake, or else that of the last read.
pub verdict : Bytes → List Message → Error → Error
verdict name [] closed = closed
verdict name (handshake v network h ∷ ms) closed =
    let rest = verdict name ms closed in if bytes_eq network name then rest else bad_network
verdict name (new_block b ∷ ms) closed = verdict name ms closed
verdict name (new_transaction t ∷ ms) closed = verdict name ms closed
verdict name (get_block h ∷ ms) closed = verdict name ms closed
verdict name (block_response b ∷ ms) closed = verdict name ms closed
verdict name (ping ∷ ms) closed = verdict name ms closed
verdict name (pong ∷ ms) closed = verdict name ms closed

remove_peer-send_in :
    (peer : SocketAddr) (m : Message) (ps : List (SocketAddr × List Message))
    → remove_peer peer (send_in peer m ps) ≡ remove_peer peer ps
unfolding remove_peer send_in
remove_peer-send_in peer m [] = refl
remove_peer-send_in peer m ((a, sent) ∷ rest) = elim (Bool-cases (a == peer)) [
  | inl same ↦ rw (same, remove_peer) (rw same)
  | inr other ↦
      rw (other, remove_peer) (rw other (ap (λ v. (a, sent) ∷ v) (remove_peer-send_in peer m rest)))
]

remove_peer-remove_peer :
    (peer : SocketAddr) (ps : List (SocketAddr × List Message))
    → remove_peer peer (remove_peer peer ps) ≡ remove_peer peer ps
unfolding remove_peer
remove_peer-remove_peer peer [] = refl
remove_peer-remove_peer peer ((a, sent) ∷ rest) = elim (Bool-cases (a == peer)) [
  | inl same ↦ rw same (remove_peer-remove_peer peer rest)
  | inr other ↦
      rw (other, remove_peer)
        (rw other (ap (λ v. (a, sent) ∷ v) (remove_peer-remove_peer peer rest)))
]

-- How a network stands to the one before, apart from the peer itself.
record Ran (peer : SocketAddr) (n n' : Network) (es : List NetworkEvent) : Type 0 where
  pub events : n'.events ≡ n.events ++ es
  pub peers : remove_peer peer n'.peers ≡ remove_peer peer n.peers
  pub name : n'.network_name ≡ n.network_name
  pub height : n'.my_height ≡ n.my_height

-- One event more in front.
Ran-event :
    (peer : SocketAddr) (n n' : Network) (e : NetworkEvent) (es : List NetworkEvent)
    → Ran peer (record n { events = n.events ++ (e ∷ []) }) n' es
    → Ran peer n n' (e ∷ es)
Ran-event peer n n' e es r = record {
  events = r.events ∙ append_assoc n.events (e ∷ []) es;
  peers = r.peers;
  name = r.name;
  height = r.height;
}

Ran-none : (peer : SocketAddr) (n : Network) → Ran peer n n []
Ran-none peer n = record {
  events = sym (append-nil n.events);
  peers = refl;
  name = refl;
  height = refl;
}

-- The end of the loop and what it leaves.
abbrev Good :
    SocketAddr → Network → Result (Unit {0}) × Network → Error → List NetworkEvent → Type 0
Good peer n r v es = (r.0 ≡ err v) × Ran peer n r.1 es

-- A handshake goes on or ends the loop.
Good-handshake :
    (peer : SocketAddr) (n : Network) (same : Bool) (r : Result (Unit {0}) × Network) (v : Error)
    (es : List NetworkEvent)
    → Good peer n r v es
    → Good peer n
        (if same then r else (err bad_network, n))
        (if same then v else bad_network)
        (if same then es else [])
Good-handshake peer n true r v es good = good
Good-handshake peer n false r v es good = (refl, Ran-none peer n)

handle_messages-handshake :
    (peer : SocketAddr) (v : ℕ) (network : Bytes) (h : ℕ) (ms : List Message) (closed : Error)
    (n : Network)
    → handle_messages peer (handshake v network h ∷ ms) closed n ≡ (
        if bytes_eq network n.network_name
        then handle_messages peer ms closed n
        else (err bad_network, n))
unfolding handle_messages handle_message
handle_messages-handshake peer v network h ms closed n =
    elim (Bool-cases (bytes_eq network n.network_name)) [
      | inl same ↦ ground (arith, same)
      | inr other ↦ ground (arith, other)
    ]

handle_messages-Ran :
    (peer : SocketAddr) (ms : List Message) (closed : Error) (n : Network)
    → ((handle_messages peer ms closed n).0 ≡ err (verdict n.network_name ms closed))
      × Ran peer n (handle_messages peer ms closed n).1 (events_of peer n.network_name ms)
unfolding handle_messages handle_message events_of verdict send_to
handle_messages-Ran peer [] closed n = (refl, Ran-none peer n)
handle_messages-Ran peer (handshake v network h ∷ ms) closed n =
    subst
      (λ r.
        Good peer n r (verdict n.network_name (handshake v network h ∷ ms) closed)
          (events_of peer n.network_name (handshake v network h ∷ ms)))
      (sym (handle_messages-handshake peer v network h ms closed n))
      (Good-handshake peer n (bytes_eq network n.network_name) (handle_messages peer ms closed n)
        (verdict n.network_name ms closed) (events_of peer n.network_name ms)
        (handle_messages-Ran peer ms closed n))
handle_messages-Ran peer (new_block b ∷ ms) closed n =
    let (end, ran) =
      handle_messages-Ran peer ms closed (record n { events = n.events ++ (block_came b ∷ []) }) in
    (end, Ran-event peer n _ (block_came b) _ ran)
handle_messages-Ran peer (new_transaction t ∷ ms) closed n =
    let (end, ran) =
      handle_messages-Ran peer ms closed
        (record n { events = n.events ++ (transaction_came t ∷ []) }) in
    (end, Ran-event peer n _ (transaction_came t) _ ran)
handle_messages-Ran peer (get_block h ∷ ms) closed n =
    let (end, ran) =
      handle_messages-Ran peer ms closed
        (record n { events = n.events ++ (block_requested peer h ∷ []) }) in
    (end, Ran-event peer n _ (block_requested peer h) _ ran)
handle_messages-Ran peer (block_response b ∷ ms) closed n =
    let (end, ran) =
      handle_messages-Ran peer ms closed
        (record n { events = n.events ++ (response_came b ∷ []) }) in
    (end, Ran-event peer n _ (response_came b) _ ran)
handle_messages-Ran peer (ping ∷ ms) closed n =
    let (end, ran) =
      handle_messages-Ran peer ms closed (record n { peers = send_in peer pong n.peers }) in
    (
      end,
      record {
        events = ran.events;
        peers = ran.peers ∙ remove_peer-send_in peer pong n.peers;
        name = ran.name;
        height = ran.height;
      },
    )
handle_messages-Ran peer (pong ∷ ms) closed n = handle_messages-Ran peer ms closed n

-- How a connection ends, with an error always.
pub data Ending (peer : SocketAddr) (k : Connection) (n : Network)
    : Result (Unit {0}) × Network → Type 0 where
  unsecured : {e : Error} → k.secured ≡ err e → Ending peer k n (err e, n)
  ungreeted :
      {u : Unit {0}} {e : Error}
      → k.secured ≡ ok u
      → k.greeted ≡ err e
      → Ending peer k n (
        err e,
        record n {
          peers = (peer, []) ∷ remove_peer peer n.peers;
          events = n.events ++ (peer_connected peer ∷ []);
        },
      )
  ended :
      {u u' : Unit {0}}
      → k.secured ≡ ok u
      → k.greeted ≡ ok u'
      → Ending peer k n (
        err (verdict n.network_name k.received k.closed),
        record n {
          peers = remove_peer peer n.peers;
          events =
              n.events
              ++ (peer_connected peer
                  ∷ (events_of peer n.network_name k.received ++ (peer_disconnected peer ∷ [])));
        },
      )

loop_ended :
    (peer : SocketAddr) (k : Connection) (n : Network) (u u' : Unit {0})
    → k.secured ≡ ok u
    → k.greeted ≡ ok u'
    → handle_connection peer k n ≡ (
      err (verdict n.network_name k.received k.closed),
      record n {
        peers = remove_peer peer n.peers;
        events =
            n.events
            ++ (peer_connected peer
                ∷ (events_of peer n.network_name k.received ++ (peer_disconnected peer ∷ [])));
      },
    )
unfolding handle_connection connected disconnected remove_peer
loop_ended peer k n u u' safe told =
    let start = (connected peer n).1 in
    let (end, ran) = handle_messages-Ran peer k.received k.closed start in
    let ps = ran.peers ∙ own n.peers in
    let es =
      ap (λ v. v ++ (peer_disconnected peer ∷ [])) ran.events
      ∙ append_assoc start.events _ (peer_disconnected peer ∷ [])
      ∙ append_assoc n.events (peer_connected peer ∷ []) _ in
    rw safe (
      rw told (λ i. (
        end i,
        record { peers = ps i; events = es i; network_name = ran.name i; my_height = ran.height i },
      )))
  where
    own :
        (qs : List (SocketAddr × List Message))
        → remove_peer peer ((peer, []) ∷ remove_peer peer qs) ≡ remove_peer peer qs
    own qs =
        let same : (peer == peer) ≡ true = ground arith in rw same (remove_peer-remove_peer peer qs)

-- A connection ends in one of three ways, always with an error. Where the Noise handshake fails,
-- nothing has changed. Where the first message cannot be written, the peer stays in the map, and
-- nothing says that it is gone. Otherwise its events are, in order, that the peer is there, those of
-- the messages up to the first handshake of another network, and that it is gone; the error is that
-- of such a handshake, or else that of the last read; and the other peers, with all that was sent
-- to them, are as they were, with no entry for this one.
pub handle_connection-Ending :
    (peer : SocketAddr) (k : Connection) (n : Network)
    → Ending peer k n (handle_connection peer k n)
unfolding handle_connection connected
handle_connection-Ending peer k n = elim (Result-cases k.secured) [
  | inr (e, lost) ↦ subst (Ending peer k n) (rw lost refl) (unsecured lost)
  | inl (u, safe) ↦ elim (Result-cases k.greeted) [
    | inr (e, lost) ↦ subst (Ending peer k n) (rw safe (rw lost refl)) (ungreeted safe lost)
    | inl (u', told) ↦
        subst (Ending peer k n) (sym (loop_ended peer k n u u' safe told)) (ended safe told)
  ]
]
