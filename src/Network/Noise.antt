-- ===== src/Network/Noise.antt =====
-- crates/ondris-network/src/noise.rs: frames, the encrypting writer and the decrypting reader of a
-- session. The bytes of a connection are a byte string: what is written is put at its end, what is
-- read is taken from its front. A short read is an error.
pub mod Streams
pub mod Identity
pub mod Handshake
use ondris.Prelude.{
  true, false, ℕ, zero, suc, ◌+◌, ◌-◌, ◌*◌, ◌%◌, ◌^◌, ◌≤◌, ◌≡◌, Option, none, some, [], ◌∷◌, ◌++◌,
  Bytes, length, take, drop, to_be_bytes, from_be_bytes, leb, Result, ok, err, Error, short_read,
  encrypt_failed, decrypt_failed, out_of_fuel, ok_or, ◌>>=◌, if◌then◌else◌,
}

-- `snow::TransportState`: `write_message` and `read_message`.
pub record Snow (Session : Type 0) : Type 0 where
  pub write_message : Session → Bytes → Option (Bytes × Session)
  pub read_message : Session → Bytes → Option (Bytes × Session)

-- `MAX_NOISE_PLAINTEXT`
abbrev pub max_noise_plaintext : ℕ
max_noise_plaintext = 65535 - 16

-- A message of a session is 16 bytes longer than its plaintext, and the session at the other end
-- reads it back; `Paired` relates the two ends.
pub record SnowLaws {Session : Type 0} (snow : Snow Session) : Type 1 where
  pub Paired : Session → Session → Type 0
  pub read-write :
      (s r : Session) (plain : Bytes)
      → Paired s r
      → length plain ≤ max_noise_plaintext
      → (cipher : Bytes) × (s' : Session) × (r' : Session) × (snow.write_message s plain
          ≡ some (cipher, s'))
        × (length cipher ≡ length plain + 16)
        × (snow.read_message r cipher ≡ some (plain, r'))
        × Paired s' r'

-- `write_frame`: the bytes that are sent, behind their length cast to u16.
unfoldable pub write_frame : Bytes → Bytes
write_frame payload = to_be_bytes 2 (length payload % 2 ^ 16) ++ payload

-- `read_exact` of n bytes of a connection, and what is left of it.
unfoldable pub read_bytes : ℕ → Bytes → Result (Bytes × Bytes)
read_bytes n wire = if leb n (length wire) then ok (take n wire, drop n wire) else err short_read

pub read_frame : Bytes → Result (Bytes × Bytes)
read_frame wire = do (len_buf, rest) ← read_bytes 2 wire; read_bytes (from_be_bytes len_buf) rest

module _ {Session : Type 0} (snow : Snow Session) where
  -- `EncryptedWriter::write_all`: a frame for each chunk, and the bytes that are sent. Each chunk
  -- takes a byte or more, so the length of the plaintext is fuel enough.
  pub write_chunks : ℕ → Session → Bytes → Result (Bytes × Session)
  write_chunks zero s plaintext = ok ([], s)
  write_chunks (suc fuel) s [] = ok ([], s)
  write_chunks (suc fuel) s (p ∷ ps) = do
    (cipher, s') ← ok_or (snow.write_message s (take max_noise_plaintext (p ∷ ps))) encrypt_failed
    (wire, s'') ← write_chunks fuel s' (drop max_noise_plaintext (p ∷ ps))
    ok (write_frame cipher ++ wire, s'')

  pub write_all : Session → Bytes → Result (Bytes × Session)
  write_all s plaintext = write_chunks (length plaintext) s plaintext

  -- `EncryptedReader`
  pub record Reader : Type 0 where
    pub wire : Bytes
    pub session : Session
    pub leftover : Bytes

  -- The loop of `EncryptedReader::read_exact`: frames are read while too little is left over.
  pub fill : ℕ → ℕ → Reader → Result Reader
  fill zero n reader = err out_of_fuel
  fill (suc fuel) n reader = elim (leb n (length reader.leftover)) [
    | true ↦ ok reader
    | false ↦ do
      (cipher, rest) ← read_frame reader.wire
      (plain, session) ← ok_or (snow.read_message reader.session cipher) decrypt_failed
      fill fuel n (record { wire = rest; session = session; leftover = reader.leftover ++ plain })
  ]

  -- `EncryptedReader::read_exact`: a frame takes two bytes or more of the connection, so its length
  -- plus one is fuel enough.
  pub read_exact : ℕ → Reader → Result (Bytes × Reader)
  read_exact n reader = do
    filled ← fill (suc (length reader.wire)) n reader
    ok (take n filled.leftover, record filled { leftover = drop n filled.leftover })
