-- ===== src/Network/Noise/Handshake.antt =====
-- The handshakes of noise.rs, cut where they wait for the peer.
pub mod Exchange
use ondris.Prelude.{
  ℕ, ◌+◌, ◌-◌, ◌^◌, ◌≤◌, ◌<◌, ◌≡◌, refl, sym, ap, subst, ◌∙◌, Option, none, some, [], ◌++◌,
  append-nil, Bytes, length, take, drop, ◌==◌, Result, ok, err, ok_or, ensure, ◌>>=◌, ◌>>◌,
  encrypt_failed, decrypt_failed, no_static_key, bad_length, handshake_failed, arith,
}
use ondris.Network.Noise.{Snow, SnowLaws, Reader, write_frame, read_frame, write_all, read_exact}
use ondris.Network.Noise.Identity.{PeerId, NodeIdentity}

-- `snow::HandshakeState` for the pattern XX, with empty payloads.
pub record Handshakes (State Session : Type 0) : Type 0 where
  pub build_initiator : Bytes → Option State
  pub build_responder : Bytes → Option State
  pub write_message : State → Option (Bytes × State)
  pub read_message : State → Bytes → Option (Bytes × State)
  pub get_remote_static : State → Option Bytes
  pub into_transport_mode : State → Option Session

module _ {State Session : Type 0} (h : Handshakes State Session) where
  pub remote_static_peer_id : State → Result PeerId
  remote_static_peer_id hs = do
    key ← ok_or (h.get_remote_static hs) no_static_key
    ensure (length key == 32) bad_length
    ok key

  -- The message that comes next, as a frame.
  pub send_message : State → Result (Bytes × State)
  send_message hs = do
    (message, next) ← ok_or (h.write_message hs) encrypt_failed
    ok (write_frame message, next)

  -- The frame that comes next on the connection, and what is behind it.
  pub receive_message : State → Bytes → Result (State × Bytes)
  receive_message hs wire = do
    (frame, rest) ← read_frame wire
    (payload, next) ← ok_or (h.read_message hs frame) decrypt_failed
    ok (next, rest)

  -- The session and the peer's key.
  pub finish : State → Result (Session × PeerId)
  finish hs = do
    peer_id ← remote_static_peer_id hs
    session ← ok_or (h.into_transport_mode hs) handshake_failed
    ok (session, peer_id)

  -- `handshake_initiator` up to its first read
  pub initiator_opens : NodeIdentity → Result (Bytes × State)
  initiator_opens identity = do
    hs ← ok_or (h.build_initiator identity.private_key) handshake_failed
    send_message hs

  -- the rest of `handshake_initiator`: the bytes sent, the session with the peer, and the bytes behind
  pub initiator_answers : State → Bytes → Result (Bytes × (Session × PeerId) × Bytes)
  initiator_answers hs wire = do
    (received, rest) ← receive_message hs wire
    (sent, hs') ← send_message received
    session ← finish hs'
    ok (sent, session, rest)

  -- `handshake_responder` up to its second read
  pub responder_answers : NodeIdentity → Bytes → Result (Bytes × State × Bytes)
  responder_answers identity wire = do
    hs ← ok_or (h.build_responder identity.private_key) handshake_failed
    (received, rest) ← receive_message hs wire
    (sent, hs') ← send_message received
    ok (sent, hs', rest)

  -- the rest of `handshake_responder`
  pub responder_ends : State → Bytes → Result ((Session × PeerId) × Bytes)
  responder_ends hs wire = do
    (received, rest) ← receive_message hs wire
    session ← finish received
    ok (session, rest)
