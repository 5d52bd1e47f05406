-- ===== src/Wallet.antt =====
-- crates/ondris-wallet/src: the keystore of keystore.rs, and the commands of main.rs that make and use
-- one. A key pair is its seed. What is drawn at random is an argument.
pub mod Laws
use ondris.Prelude.{
  ℕ, Bool, Option, none, some, Bytes, length, leb, ◌==◌, Result, ok, err, ok_or, ensure, ◌>>=◌,
  ◌>>◌, no_key, encrypt_failed, decrypt_failed, bad_hex, bad_length, short_password, wrong_signer,
}
use ondris.Primitives.{
  Blake3, Ed25519, Hex, Address, to_hex, to_address, address_to_string, address_from_str,
}
use ondris.Block.{Transaction, new_unsigned, sign}
use ondris.Node.Requests.{AccountInfo}

-- argon2 at its default parameters, and AES-256-GCM: the key of a password and a salt, the encryption
-- of a text under a key and a nonce, and its decryption, which fails if the tag does not match.
pub record Ciphers : Type 0 where
  pub derive : Bytes → Bytes → Option Bytes
  pub encrypt : Bytes → Bytes → Bytes → Option Bytes
  pub decrypt : Bytes → Bytes → Bytes → Option Bytes

pub record Keystore : Type 0 where
  pub public_key : Bytes
  pub address : Bytes
  pub salt : Bytes
  pub nonce : Bytes
  pub ciphertext : Bytes

module _ (a : Ciphers) (h : Hex) where
  unfoldable pub derive_key : Bytes → Bytes → Result Bytes
  derive_key password salt = ok_or (a.derive password salt) no_key

  -- `unlock`: the seed of the key pair.
  unfoldable pub unlock : Keystore → Bytes → Result Bytes
  unfolding derive_key
  unlock ks password = do
    salt ← ok_or (h.decode ks.salt) bad_hex
    key ← derive_key password salt
    nonce_bytes ← ok_or (h.decode ks.nonce) bad_hex
    ciphertext ← ok_or (h.decode ks.ciphertext) bad_hex
    plaintext ← ok_or (a.decrypt key nonce_bytes ciphertext) decrypt_failed
    ensure (length plaintext == 32) bad_length
    ok plaintext

  module _ (b : Blake3) (e : Ed25519) where
    -- `create`, with the seed, the salt and the nonce that are drawn.
    pub create : Bytes → Bytes → Bytes → Bytes → Result (Keystore × Bytes)
    create password seed salt nonce_bytes = do
      key ← derive_key password salt
      ciphertext ← ok_or (a.encrypt key nonce_bytes seed) encrypt_failed
      ok (
        record {
          public_key = to_hex h (e.verifying_key seed);
          address = address_to_string h (to_address b (e.verifying_key seed));
          salt = h.encode salt;
          nonce = h.encode nonce_bytes;
          ciphertext = h.encode ciphertext;
        },
        seed,
      )

    -- `New`: the wallet file that is written.
    pub new_wallet : Bytes → Bytes → Bytes → Bytes → Result Keystore
    new_wallet password seed salt nonce_bytes = do
      ensure (leb 8 (length password)) short_password
      (ks, keypair) ← create password seed salt nonce_bytes
      ok ks

    -- `Send`: the transaction that is posted, where `fetch` is the node's answer for an address.
    pub send_tx :
        (Bytes → Result AccountInfo) → Keystore → Bytes → Bytes → ℕ → ℕ → Result Transaction
    send_tx fetch ks password to amount fee = do
      seed ← unlock ks password
      info ← fetch ks.address
      to_addr ← address_from_str h to
      let tx = new_unsigned (e.verifying_key seed) to_addr amount fee info.nonce
      ok_or (sign e tx seed) wrong_signer
