-- ===== src/Tests/Wallet.antt =====
-- The theorems on the wallet at concrete inputs.
use ondris.Prelude.{
  ◌≡◌, refl, sym, ap, subst, ◌∙◌, Bool, true, Bool-cases, inl, inr, Option, none, some, [], ◌∷◌,
  ◌++◌, Bytes, replicate, All, IsByte, ltb, ltb→lt, ◌&&◌, if◌then◌else◌, ok, ◌==◌, arith,
}
use ondris.Primitives.{to_address, address_to_string, to_hex}
use ondris.Block.{Transaction, new_unsigned, signing_bytes, is_signature_valid, tx_hash}
use ondris.State.{default_account, get_account}
use ondris.Node.{AppState}
use ondris.Node.Requests.{account_info, post_tx}
use ondris.Wallet.{Ciphers, Keystore, derive_key, unlock, create, send_tx}
use ondris.Wallet.Laws.{CiphersLaws, unlock-create, send_tx-post_tx}
use ondris.Tests.Crates.{blake3, blake3-Blake3Laws, ed25519, ed25519-Ed25519Laws, hex, hex-HexLaws}
use ondris.Tests.World.{crates, alice, bob, chain_of, empty_state}
use ondris.Tests.Trees.{Writes}
use ondris.Primitives.Laws.{address_from_str-to_string}
use ondris.Tests.Node.{node}

abbrev all_bytes : Bytes → Bool
all_bytes [] = true
all_bytes (b ∷ bs) = ltb b 256 && all_bytes bs

-- A ciphertext is the key, in front of the text.
abbrev without : Bytes → Bytes → Option Bytes
without [] c = some c
without (k ∷ ks) [] = none
without (k ∷ ks) (c ∷ cs) = if k == c then without ks cs else none

abbrev lock : Bytes → Option Bytes
lock text = if all_bytes text then some text else none

abbrev ciphers : Ciphers
ciphers = record {
  derive = λ password salt. some password;
  encrypt = λ key nonce text. lock (key ++ text);
  decrypt = λ key nonce ciphertext. without key ciphertext;
}

all_bytes-All : (bs : Bytes) → all_bytes bs ≡ true → All IsByte bs
all_bytes-All [] e = tt
all_bytes-All (b ∷ bs) e = elim (Bool-cases (ltb b 256)) [
  | inl small ↦ (ltb→lt b 256 small, all_bytes-All bs (ground (arith, small, e)))
  | inr big ↦ absurd (ground (arith, big, e))
]

lock-eq : (bs c : Bytes) → lock bs ≡ some c → (all_bytes bs ≡ true) × (c ≡ bs)
lock-eq bs c e = elim (Bool-cases (all_bytes bs)) [
  | inl good ↦
      let made : lock bs ≡ some bs = ground (arith, good) in (good, ap text_or (sym e ∙ made))
  | inr bad ↦ let refused : lock bs ≡ none = ground (arith, bad) in absurd (cc (refused, e))
]
  where
    text_or : Option Bytes → Bytes
    text_or none = []
    text_or (some t) = t

without-append : (key text : Bytes) → without key (key ++ text) ≡ some text
without-append [] text = refl
without-append (k ∷ ks) text = ground (arith, without-append ks text)

ciphers-CiphersLaws : CiphersLaws ciphers
ciphers-CiphersLaws = record {
  decrypt-encrypt = λ key nonce text c e.
      ap (without key) (lock-eq (key ++ text) c e).1 ∙ without-append key text;
  encrypt-IsByte = λ key nonce text c e.
      subst (All IsByte) (sym (lock-eq (key ++ text) c e).1)
        (all_bytes-All (key ++ text) (lock-eq (key ++ text) c e).0);
}

abbrev password : Bytes
password = b'c' ∷ b'o' ∷ b'r' ∷ b'r' ∷ b'e' ∷ b'c' ∷ b't' ∷ b'!' ∷ []

abbrev salt : Bytes
salt = replicate 16 1

abbrev fresh : Bytes
fresh = replicate 12 9

unlock-create_example :
    (ks : Keystore) × (create ciphers hex blake3 ed25519 password alice salt fresh ≡ ok (ks, alice))
    × (unlock ciphers hex ks password ≡ ok alice)
unlock-create_example =
    unlock-create ciphers hex blake3 ed25519 ciphers-CiphersLaws hex-HexLaws password alice salt
      fresh password (password ++ alice) refl (omega arith) (omega arith) refl refl

abbrev wallet : Keystore
wallet = record {
  public_key = hex.encode alice;
  address = address_to_string hex (to_address blake3 alice);
  salt = hex.encode salt;
  nonce = hex.encode fresh;
  ciphertext = hex.encode (password ++ alice);
}

unlocks : unlock ciphers hex wallet password ≡ ok alice
unfolding unlock derive_key
unlocks = refl

-- A node that has no account of the wallet.
abbrev empty_node : AppState Writes
empty_node = record node { chain = chain_of empty_state }

no_account :
    get_account crates empty_node.chain.state (to_address blake3 alice) ≡ ok default_account
unfolding get_account
no_account = refl

send_tx-post_tx_example :
    (tx : Transaction) × (send_tx ciphers hex blake3 ed25519
        (λ addr. account_info crates hex addr empty_node)
        wallet
        password
        (to_hex hex bob)
        5
        1
      ≡ ok tx)
    × (tx.sender ≡ alice)
    × (signing_bytes tx ≡ signing_bytes (new_unsigned alice bob 5 1 0))
    × (is_signature_valid ed25519 tx ≡ true)
    × ((post_tx crates tx empty_node).0 ≡ ok (tx_hash blake3 crates.tx_json tx))
send_tx-post_tx_example =
    send_tx-post_tx crates ciphers hex ed25519-Ed25519Laws blake3-Blake3Laws hex-HexLaws empty_node
      wallet password alice (to_hex hex bob) bob 5 1 default_account unlocks refl no_account
      (address_from_str-to_string hex hex-HexLaws bob refl (omega arith)).1
