-- ===== src/Wallet/Laws.antt =====
-- What the wallet's file gives back, and what the node makes of the transaction that it sends.
use ondris.Prelude.{
  ℕ, ◌≡◌, refl, sym, ap, ◌∙◌, inl, inr, true, Option, none, some, [], Bytes, bytes_eq_refl, length,
  length-take, All, All-take, IsByte, ok, err, ok_or, decrypt_failed, wrong_signer, arith,
}
use ondris.Primitives.{
  Blake3, Blake3Laws, Ed25519, Ed25519Laws, Hex, HexLaws, Address, to_hex, to_address,
  address_to_string, address_from_str,
}
use ondris.Primitives.Laws.{address_from_str-to_string}
use ondris.Block.{Transaction, new_unsigned, sign, signing_bytes, is_signature_valid, tx_hash}
use ondris.Block.Bytes.{sign-is_signature_valid}
use ondris.State.{Externals, Account, get_account}
use ondris.Node.{AppState}
use ondris.Node.Requests.{account_info, post_tx}
use ondris.Wallet.{Ciphers, Keystore, derive_key, unlock, create, send_tx}

-- A ciphertext consists of bytes, and decrypts under its key and nonce to the text.
pub record CiphersLaws (a : Ciphers) : Type 0 where
  pub decrypt-encrypt :
      (key nonce text ciphertext : Bytes)
      → a.encrypt key nonce text ≡ some ciphertext
      → a.decrypt key nonce ciphertext ≡ some text
  pub encrypt-IsByte :
      (key nonce text ciphertext : Bytes)
      → a.encrypt key nonce text ≡ some ciphertext
      → All IsByte ciphertext

module _ (a : Ciphers) (h : Hex) (b : Blake3) (e : Ed25519) (cipher_laws : CiphersLaws a)
    (hex_laws : HexLaws h) (password seed salt nonce_bytes key ciphertext : Bytes) where
  -- The file that `create` makes.
  abbrev file : Keystore
  file = record {
    public_key = to_hex h (e.verifying_key seed);
    address = address_to_string h (to_address b (e.verifying_key seed));
    salt = h.encode salt;
    nonce = h.encode nonce_bytes;
    ciphertext = h.encode ciphertext;
  }

  create-ok :
      a.derive password salt ≡ some key
      → a.encrypt key nonce_bytes seed ≡ some ciphertext
      → create a h b e password seed salt nonce_bytes ≡ ok (file, seed)
  unfolding create derive_key
  create-ok derived encrypted = rw (derived, encrypted) refl

  -- Where the derivation of the key and the encryption succeed, for a seed of 32 bytes: `create`
  -- returns a keystore with the key pair of the seed, and the password it was made with unlocks the
  -- keystore to that seed.
  pub unlock-create :
      length seed ≡ 32
      → All IsByte salt
      → All IsByte nonce_bytes
      → a.derive password salt ≡ some key
      → a.encrypt key nonce_bytes seed ≡ some ciphertext
      → (ks : Keystore) × (create a h b e password seed salt nonce_bytes ≡ ok (ks, seed))
        × (unlock a h ks password ≡ ok seed)
  unfolding unlock derive_key
  unlock-create len salt_bytes nonce_is derived encrypted =
      let s = hex_laws.decode-encode salt salt_bytes in
      let n = hex_laws.decode-encode nonce_bytes nonce_is in
      let c =
        hex_laws.decode-encode ciphertext
          (cipher_laws.encrypt-IsByte key nonce_bytes seed ciphertext encrypted) in
      let p = cipher_laws.decrypt-encrypt key nonce_bytes seed ciphertext encrypted in
      (file, create-ok derived encrypted, rw (s, derived, n, c, p, len) refl)

  -- A password whose key does not decrypt the ciphertext is answered by the error for an incorrect
  -- password, and gives no key pair.
  pub unlock-create_other :
      (other other_key : Bytes)
      → All IsByte salt
      → All IsByte nonce_bytes
      → a.derive password salt ≡ some key
      → a.encrypt key nonce_bytes seed ≡ some ciphertext
      → a.derive other salt ≡ some other_key
      → a.decrypt other_key nonce_bytes ciphertext ≡ none
      → (ks : Keystore) × (create a h b e password seed salt nonce_bytes ≡ ok (ks, seed))
        × (unlock a h ks other ≡ err decrypt_failed)
  unfolding unlock derive_key
  unlock-create_other other other_key salt_bytes nonce_is derived encrypted other_derived refused =
      let s = hex_laws.decode-encode salt salt_bytes in
      let n = hex_laws.decode-encode nonce_bytes nonce_is in
      let c =
        hex_laws.decode-encode ciphertext
          (cipher_laws.encrypt-IsByte key nonce_bytes seed ciphertext encrypted) in
      (file, create-ok derived encrypted, rw (s, other_derived, n, c, refused) refl)

module _ {Tree : Type 0} (x : Externals Tree) (a : Ciphers) (h : Hex)
    (sign_laws : Ed25519Laws x.ed25519) (hash_laws : Blake3Laws x.blake3)
    (hex_laws : HexLaws h) where
  -- Where the password unlocks the wallet, its file has the address of its key, the recipient
  -- parses and the node can read the account of the address: `Send` makes a transaction with the
  -- sender, recipient, amount and fee of the request and the nonce of that account, its signature
  -- is valid, and the node that was asked answers its submission with its hash.
  pub send_tx-post_tx :
      (app : AppState Tree) (ks : Keystore) (password seed to recipient : Bytes) (amount fee : ℕ)
      (account : Account)
      → unlock a h ks password ≡ ok seed
      → ks.address ≡ address_to_string h (to_address x.blake3 (x.ed25519.verifying_key seed))
      → get_account x app.chain.state (to_address x.blake3 (x.ed25519.verifying_key seed))
        ≡ ok account
      → address_from_str h to ≡ ok recipient
      → (tx : Transaction) × (send_tx a h x.blake3 x.ed25519
            (λ addr. account_info x h addr app)
            ks
            password
            to
            amount
            fee
          ≡ ok tx)
        × (tx.sender ≡ x.ed25519.verifying_key seed)
        × (signing_bytes tx
            ≡ signing_bytes
                (new_unsigned (x.ed25519.verifying_key seed) recipient amount fee account.nonce))
        × (is_signature_valid x.ed25519 tx ≡ true)
        × ((post_tx x tx app).0 ≡ ok (tx_hash x.blake3 x.tx_json tx))
  unfolding send_tx post_tx new_unsigned
  send_tx-post_tx app ks password seed to recipient amount fee account unlocked own has parsed =
      let info = account_info_of in
      elim (sign-is_signature_valid x.ed25519 sign_laws unsigned seed).0 [
        | inr (other, e) ↦ absurd (other (unfold new_unsigned in refl))
        | inl (same, (tx, signed, valid, bytes)) ↦ (
          tx,
          rw (unlocked, info, parsed) (ap (λ o. ok_or o wrong_signer) signed),
          ap sender_or (sym signed ∙ direct),
          bytes,
          valid,
          ground (arith, valid),
        )
      ]
    where
      key : Bytes
      key = x.ed25519.verifying_key seed

      addr : Address
      addr = to_address x.blake3 key

      unsigned : Transaction
      unsigned = new_unsigned key recipient amount fee account.nonce

      sender_or : Option Transaction → Bytes
      sender_or none = []
      sender_or (some t) = t.sender

      direct :
          sign x.ed25519 unsigned seed
          ≡ some
              (record unsigned { signature = some (x.ed25519.sign seed (signing_bytes unsigned)) })
      direct = unfold sign new_unsigned in rw (bytes_eq_refl key) refl

      size : length addr ≡ 20
      size =
          unfold to_address in
          omega (arith, length-take 20 (x.blake3.hash key), hash_laws.length-hash key)

      bytes_of : All IsByte addr
      bytes_of =
          unfold to_address in All-take IsByte 20 (x.blake3.hash key) (hash_laws.hash-IsByte key)

      account_info_of :
          account_info x h ks.address app
          ≡ ok (record { address = addr; balance = account.balance; nonce = account.nonce })
      account_info_of =
          unfold account_info in
          rw (own, (address_from_str-to_string h hex_laws addr size bytes_of).0, has) refl
