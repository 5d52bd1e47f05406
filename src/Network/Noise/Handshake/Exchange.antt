-- ===== src/Network/Noise/Handshake/Exchange.antt =====
-- The two handshakes of noise.rs with each other, and the first data behind them.
use ondris.Prelude.{
  ℕ, ◌-◌, ◌^◌, ◌≤◌, ◌<◌, ◌≡◌, sym, ap, ◌∙◌, some, [], ◌++◌, append-nil, Bytes, length, take, drop,
  ok, arith,
}
use ondris.Network.Noise.{Snow, SnowLaws, Reader, write_frame, write_all, read_exact}
use ondris.Network.Noise.Identity.{NodeIdentity}
use ondris.Network.Noise.Streams.{read_frame-write_frame, read_exact-write_all}
use ondris.Network.Noise.Handshake.{
  Handshakes, remote_static_peer_id, send_message, receive_message, finish, initiator_opens,
  initiator_answers, responder_answers, responder_ends,
}

-- One exchange between two private keys: every message is accepted and fits a frame, each side ends
-- with the other's public key, and the sessions are two ends of one.
pub record Exchange {State Session : Type 0} (h : Handshakes State Session)
    (Paired : Session → Session → Type 0) (public_of : Bytes → Bytes) (a b : Bytes) : Type 0 where
  pub i₀ : State
  pub i₁ : State
  pub i₂ : State
  pub i₃ : State
  pub r₀ : State
  pub r₁ : State
  pub r₂ : State
  pub r₃ : State
  pub m₁ : Bytes
  pub m₂ : Bytes
  pub m₃ : Bytes
  pub payload₁ : Bytes
  pub payload₂ : Bytes
  pub payload₃ : Bytes
  pub sa : Session
  pub sb : Session
  pub opened : h.build_initiator a ≡ some i₀
  pub accepted : h.build_responder b ≡ some r₀
  pub sent₁ : h.write_message i₀ ≡ some (m₁, i₁)
  pub read₁ : h.read_message r₀ m₁ ≡ some (payload₁, r₁)
  pub sent₂ : h.write_message r₁ ≡ some (m₂, r₂)
  pub read₂ : h.read_message i₁ m₂ ≡ some (payload₂, i₂)
  pub sent₃ : h.write_message i₂ ≡ some (m₃, i₃)
  pub read₃ : h.read_message r₂ m₃ ≡ some (payload₃, r₃)
  pub fits₁ : length m₁ < 2 ^ 16
  pub fits₂ : length m₂ < 2 ^ 16
  pub fits₃ : length m₃ < 2 ^ 16
  pub static_i : h.get_remote_static i₃ ≡ some (public_of b)
  pub static_r : h.get_remote_static r₃ ≡ some (public_of a)
  pub transport_i : h.into_transport_mode i₃ ≡ some sa
  pub transport_r : h.into_transport_mode r₃ ≡ some sb
  pub paired : Paired sa sb

-- Noise XX between any two key pairs.
pub record HandshakesLaws {State Session : Type 0} (h : Handshakes State Session)
    (Paired : Session → Session → Type 0) (public_of : Bytes → Bytes) : Type 0 where
  pub length-public_of : (key : Bytes) → length (public_of key) ≡ 32
  pub exchange : (a b : Bytes) → length a ≡ 32 → length b ≡ 32 → Exchange h Paired public_of a b

module _ {State Session : Type 0} (h : Handshakes State Session) where
  send-ok :
      (hs next : State) (message : Bytes)
      → h.write_message hs ≡ some (message, next)
      → send_message h hs ≡ ok (write_frame message, next)
  unfolding send_message
  send-ok hs next message e = ground (arith, e)

  receive-ok :
      (hs next : State) (message payload rest : Bytes)
      → length message < 2 ^ 16
      → h.read_message hs message ≡ some (payload, next)
      → receive_message h hs (write_frame message ++ rest) ≡ ok (next, rest)
  unfolding receive_message
  receive-ok hs next message payload rest small e =
      let framed = read_frame-write_frame message rest small in ground (arith, framed, e)

  finish-ok :
      (hs : State) (key : Bytes) (session : Session)
      → h.get_remote_static hs ≡ some key
      → length key ≡ 32
      → h.into_transport_mode hs ≡ some session
      → finish h hs ≡ ok (session, key)
  unfolding finish remote_static_peer_id
  finish-ok hs key session e l t = ground (arith, e, l, t)

  module _ (snow : Snow Session) (laws : SnowLaws snow) (public_of : Bytes → Bytes)
      (xx : HandshakesLaws h laws.Paired public_of) where
    -- Two nodes with private keys of 32 bytes that run the two handshakes with each other both
    -- complete, each with the other's public key as the peer's identity and with no byte of the
    -- connection lost: the data that the initiator writes right behind its last message is left for
    -- the responder's reader, which reads it in order, in two reads of any sizes.
    pub handshake-read_exact :
        (a b : NodeIdentity) (plaintext : Bytes) (n : ℕ)
        → length a.private_key ≡ 32
        → length b.private_key ≡ 32
        → n ≤ length plaintext
        → (first : Bytes) × (ha : State) × (second : Bytes) × (hb : State) × (third : Bytes)
          × (sa : Session) × (sb : Session) × (wire : Bytes) × (sa' : Session) × (middle : Reader
              snow)
          × (last : Reader snow) × (initiator_opens h a ≡ ok (first, ha))
          × (responder_answers h b first ≡ ok (second, hb, []))
          × (initiator_answers h ha second ≡ ok (third, (sa, public_of b.private_key), []))
          × (write_all snow sa plaintext ≡ ok (wire, sa'))
          × (responder_ends h hb (third ++ wire) ≡ ok ((sb, public_of a.private_key), wire))
          × (read_exact snow n (record { wire = wire; session = sb; leftover = [] })
              ≡ ok (take n plaintext, middle))
          × (read_exact snow (length plaintext - n) middle ≡ ok (drop n plaintext, last))
    unfolding initiator_opens initiator_answers responder_answers responder_ends
    handshake-read_exact a b plaintext n la lb h_n =
        let x = xx.exchange a.private_key b.private_key la lb in
        let (wire, sa', middle, last, written, front, back) =
          read_exact-write_all snow laws x.sa x.sb plaintext n x.paired h_n in
        let s₁ = send-ok x.i₀ x.i₁ x.m₁ x.sent₁ in
        let r₁ = alone x.r₀ x.r₁ x.m₁ x.payload₁ x.fits₁ x.read₁ in
        let s₂ = send-ok x.r₁ x.r₂ x.m₂ x.sent₂ in
        let r₂ = alone x.i₁ x.i₂ x.m₂ x.payload₂ x.fits₂ x.read₂ in
        let s₃ = send-ok x.i₂ x.i₃ x.m₃ x.sent₃ in
        let r₃ = receive-ok x.r₂ x.r₃ x.m₃ x.payload₃ wire x.fits₃ x.read₃ in
        let end_i =
          finish-ok x.i₃ (public_of b.private_key) x.sa x.static_i
            (xx.length-public_of b.private_key) x.transport_i in
        let end_r =
          finish-ok x.r₃ (public_of a.private_key) x.sb x.static_r
            (xx.length-public_of a.private_key) x.transport_r in
        (
          write_frame x.m₁,
          x.i₁,
          write_frame x.m₂,
          x.r₂,
          write_frame x.m₃,
          x.sa,
          x.sb,
          wire,
          sa',
          middle,
          last,
          ground (arith, x.opened, s₁),
          ground (arith, x.accepted, r₁, s₂),
          ground (arith, r₂, s₃, end_i),
          written,
          ground (arith, r₃, end_r),
          front,
          back,
        )
      where
        alone :
            (hs next : State) (message payload : Bytes)
            → length message < 2 ^ 16
            → h.read_message hs message ≡ some (payload, next)
            → receive_message h hs (write_frame message) ≡ ok (next, [])
        alone hs next message payload small e =
            ap (receive_message h hs) (sym (append-nil (write_frame message)))
            ∙ receive-ok hs next message payload [] small e
