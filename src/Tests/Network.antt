-- ===== src/Tests/Network.antt =====
-- The theorems on the network at concrete inputs.
use ondris.Prelude.{
  short_read, ℕ, zero, suc, ◌+◌, ◌-◌, ◌≡◌, refl, ap, ◌∙◌, Option, some, none, List, [], ◌∷◌, ◌++◌,
  Bytes, length, length-append, take, drop, take-length_append, replicate, ok, length-take, arith,
}
use ondris.Network.Noise.{Snow, SnowLaws, Reader, write_all, read_exact}
use ondris.Network.Noise.Streams.{Delivers, read_exact-write_all}
use ondris.Network.Noise.Identity.{NodeIdentity}
use ondris.Network.Noise.Handshake.{
  Handshakes, initiator_opens, initiator_answers, responder_answers, responder_ends,
}
use ondris.Network.Noise.Handshake.Exchange.{HandshakesLaws, handshake-read_exact}
use ondris.Network.Messages.{
  Message, Network, handshake, new_block, new_transaction, get_block, block_response, ping, pong,
  write_message, read_message, Connection, handle_connection,
}
use ondris.Network.Messages.Delivery.{read_message-write_message}
use ondris.Network.Messages.Loop.{Ending, handle_connection-Ending}
use ondris.Block.{Block, Transaction}
use ondris.Tests.World.{bob, block_codec, transaction_codec}
use ondris.Tests.Codecs.{Codec, number, string, pair, mapped, optional, json, json-JsonLaws}

-- A session that counts its messages and puts a tag of 16 bytes behind each.
abbrev tag : Bytes
tag = replicate 16 0

abbrev snow : Snow ℕ
snow = record {
  write_message = λ n plain. some (plain ++ tag, n + 1);
  read_message = λ n cipher. some (take (length cipher - 16) cipher, n + 1);
}

pub untag : (plain : Bytes) → take (length (plain ++ tag) - 16) (plain ++ tag) ≡ plain
untag plain =
    let size : length (plain ++ tag) - 16 ≡ length plain = omega (arith, length-append plain tag) in
    ap (λ n. take n (plain ++ tag)) size ∙ take-length_append plain tag

abbrev snow_laws : SnowLaws snow
snow_laws = record {
  Paired = λ s r. s ≡ r;
  read-write = λ s r plain e h. (
    plain ++ tag,
    s + 1,
    r + 1,
    refl,
    length-append plain tag,
    ap (λ v. some (v, r + 1)) (untag plain),
    ap (λ n. n + 1) e,
  );
}

abbrev plaintext : Bytes
plaintext = 5 ∷ 6 ∷ 7 ∷ []

read_exact-write_all_example :
    (wire : Bytes) × (s' : ℕ) × (middle : Reader snow) × (last : Reader snow) × (write_all snow 0
        plaintext
      ≡ ok (wire, s'))
    × (read_exact snow 2 (record { wire = wire; session = 0; leftover = [] })
        ≡ ok (take 2 plaintext, middle))
    × (read_exact snow (length plaintext - 2) middle ≡ ok (drop 2 plaintext, last))
read_exact-write_all_example =
    read_exact-write_all snow snow_laws 0 0 plaintext 2 refl (omega arith)

abbrev name : Bytes
name = b't' ∷ []

abbrev network : Network
network = record { peers = (2, []) ∷ []; events = []; network_name = name; my_height = 0 }

abbrev incoming : List Message
incoming = handshake 1 name 4 ∷ get_block bob ∷ ping ∷ handshake 1 bob 4 ∷ ping ∷ []

abbrev connection : Connection
connection = record { secured = ok tt; greeted = ok tt; received = incoming; closed = short_read }

handle_connection-Ending_example :
    Ending 1 connection network (handle_connection 1 connection network)
handle_connection-Ending_example = handle_connection-Ending 1 connection network

-- The kind of a message, its numbers and text, its block, its transaction and its hash.
abbrev MessageFields : Type 0
MessageFields = ℕ × ((ℕ × (Bytes × ℕ)) × (Option Block × (Option Transaction × Bytes)))

abbrev no_numbers : ℕ × (Bytes × ℕ)
no_numbers = (0, ([], 0))

abbrev fields_of : Message → MessageFields
fields_of (handshake v n h) = (0, ((v, (n, h)), (none, (none, []))))
fields_of (new_block b) = (1, (no_numbers, (some b, (none, []))))
fields_of (new_transaction t) = (2, (no_numbers, (none, (some t, []))))
fields_of (get_block h) = (3, (no_numbers, (none, (none, h))))
fields_of (block_response b) = (4, (no_numbers, (b, (none, []))))
fields_of ping = (5, (no_numbers, (none, (none, []))))
fields_of pong = (6, (no_numbers, (none, (none, []))))

abbrev block_message : Option Block → Message
block_message none = pong
block_message (some b) = new_block b

abbrev transaction_message : Option Transaction → Message
transaction_message none = pong
transaction_message (some t) = new_transaction t

abbrev message_of_kind :
    ℕ → (ℕ × (Bytes × ℕ)) × (Option Block × (Option Transaction × Bytes)) → Message
message_of_kind zero p = handshake p.0.0 p.0.1.0 p.0.1.1
message_of_kind (suc zero) p = block_message p.1.0
message_of_kind (suc (suc zero)) p = transaction_message p.1.1.0
message_of_kind (suc (suc (suc zero))) p = get_block p.1.1.1
message_of_kind (suc (suc (suc (suc zero)))) p = block_response p.1.0
message_of_kind (suc (suc (suc (suc (suc zero))))) p = ping
message_of_kind (suc (suc (suc (suc (suc (suc n)))))) p = pong

fields_back : (m : Message) → message_of_kind (fields_of m).0 (fields_of m).1 ≡ m
fields_back (handshake v n h) = refl
fields_back (new_block b) = refl
fields_back (new_transaction t) = refl
fields_back (get_block h) = refl
fields_back (block_response b) = refl
fields_back ping = refl
fields_back pong = refl

abbrev message_codec : Codec Message
message_codec =
    mapped fields_of (λ (p : MessageFields). message_of_kind p.0 p.1) fields_back
      (pair number (
        pair (pair number (pair string number))
          (pair (optional block_codec) (pair (optional transaction_codec) string))))

read_message-write_message_example :
    (wire : Bytes) × (s' : ℕ) × (last : Reader snow) × (write_message snow
        (json message_codec)
        3
        (get_block bob)
      ≡ ok (wire, s'))
    × (read_message snow (json message_codec) (record { wire = wire; session = 3; leftover = [] })
        ≡ ok (get_block bob, last))
    × Delivers snow last []
read_message-write_message_example =
    read_message-write_message snow (json message_codec) snow_laws (json-JsonLaws message_codec) 3 3
      (get_block bob) refl (omega arith)

-- A handshake that sends the public key in every message.
abbrev public_of : Bytes → Bytes
public_of key = take 32 (key ++ replicate 32 0)

abbrev handshakes : Handshakes (Bytes × Bytes) ℕ
handshakes = record {
  build_initiator = λ key. some (key, []);
  build_responder = λ key. some (key, []);
  write_message = λ hs. some (public_of hs.0, hs);
  read_message = λ hs m. some ([], (hs.0, m));
  get_remote_static = λ hs. some hs.1;
  into_transport_mode = λ hs. some 0;
}

length-public_of : (key : Bytes) → length (public_of key) ≡ 32
length-public_of key =
    omega (arith, length-take 32 (key ++ replicate 32 0), length-append key (replicate 32 0))

handshakes-HandshakesLaws : HandshakesLaws handshakes (λ (s r : ℕ). s ≡ r) public_of
handshakes-HandshakesLaws = record {
  length-public_of = length-public_of;
  exchange = λ a b la lb. record {
    i₀ = (a, []);
    i₁ = (a, []);
    i₂ = (a, public_of b);
    i₃ = (a, public_of b);
    r₀ = (b, []);
    r₁ = (b, public_of a);
    r₂ = (b, public_of a);
    r₃ = (b, public_of a);
    m₁ = public_of a;
    m₂ = public_of b;
    m₃ = public_of a;
    payload₁ = [];
    payload₂ = [];
    payload₃ = [];
    sa = 0;
    sb = 0;
    opened = refl;
    accepted = refl;
    sent₁ = refl;
    read₁ = refl;
    sent₂ = refl;
    read₂ = refl;
    sent₃ = refl;
    read₃ = refl;
    fits₁ = omega (arith, length-public_of a);
    fits₂ = omega (arith, length-public_of b);
    fits₃ = omega (arith, length-public_of a);
    static_i = refl;
    static_r = refl;
    transport_i = refl;
    transport_r = refl;
    paired = refl;
  };
}

abbrev identity : ℕ → NodeIdentity
identity n = record { private_key = replicate 32 n; public_key = replicate 32 n }

handshake-read_exact_example :
    (first : Bytes) × (ha : Bytes × Bytes) × (second : Bytes) × (hb : Bytes × Bytes)
    × (third : Bytes) × (sa : ℕ) × (sb : ℕ) × (wire : Bytes) × (sa' : ℕ) × (middle : Reader snow)
    × (last : Reader snow) × (initiator_opens handshakes (identity 1) ≡ ok (first, ha))
    × (responder_answers handshakes (identity 2) first ≡ ok (second, hb, []))
    × (initiator_answers handshakes ha second ≡ ok (third, (sa, replicate 32 2), []))
    × (write_all snow sa plaintext ≡ ok (wire, sa'))
    × (responder_ends handshakes hb (third ++ wire) ≡ ok ((sb, replicate 32 1), wire))
    × (read_exact snow 2 (record { wire = wire; session = sb; leftover = [] })
        ≡ ok (take 2 plaintext, middle))
    × (read_exact snow (length plaintext - 2) middle ≡ ok (drop 2 plaintext, last))
handshake-read_exact_example =
    handshake-read_exact handshakes snow snow_laws public_of handshakes-HandshakesLaws (identity 1)
      (identity 2) plaintext 2 refl refl (omega arith)
