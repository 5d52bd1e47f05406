-- ===== src/Network/Noise/Identity.antt =====
-- `NodeIdentity` of noise.rs. The file is its bytes, if it can be read, and the fresh key pair is an
-- argument.
use ondris.Prelude.{
  ◌≡◌, sym, ap, ◌∙◌, Bool, Bool-cases, inl, inr, true, false, Option, none, some, ◌++◌, Bytes,
  length, length-append, take, drop, take-length_append, drop-length_append, take_all, ◌==◌,
  if◌then◌else◌, Result, ok, err, bad_length, not_writable, arith,
}

abbrev pub PeerId : Type 0
PeerId = Bytes

pub record NodeIdentity : Type 0 where
  pub private_key : Bytes
  pub public_key : PeerId

-- A new identity, if its file can be written: both keys in a row.
pub fresh_identity : Bool → Bytes × Bytes → Option Bytes → Result NodeIdentity × Option Bytes
fresh_identity false keypair file = (err not_writable, file)
fresh_identity true (private_key, public_key) file = (
  if length public_key == 32
      then ok (record { private_key = private_key; public_key = public_key })
      else err bad_length,
  some (private_key ++ public_key),
)

-- `load_or_generate`, with the file that it leaves.
pub load_or_generate : Bool → Bytes × Bytes → Option Bytes → Result NodeIdentity × Option Bytes
load_or_generate writable keypair none = fresh_identity writable keypair none
load_or_generate writable keypair (some bytes) =
    if length bytes == 64
    then (
      ok (record { private_key = take 32 bytes; public_key = take 32 (drop 32 bytes) }),
      some bytes,
    )
    else fresh_identity writable keypair (some bytes)

-- The file that is written holds the identity.
again :
    (keypair next : Bytes × Bytes) (writable : Bool)
    → length keypair.0 ≡ 32
    → length keypair.1 ≡ 32
    → load_or_generate writable next (some (keypair.0 ++ keypair.1)) ≡ (
      ok (record { private_key = keypair.0; public_key = keypair.1 }),
      some (keypair.0 ++ keypair.1),
    )
unfolding load_or_generate
again (p, q) next writable hp hq =
    let size : length (p ++ q) ≡ 64 = omega (arith, length-append p q, hp, hq) in
    let front : take 32 (p ++ q) ≡ p =
      ap (λ n. take n (p ++ q)) (sym hp) ∙ take-length_append p q in
    let back : take 32 (drop 32 (p ++ q)) ≡ q =
      ap (λ n. take 32 (drop n (p ++ q))) (sym hp)
      ∙ ap (take 32) (drop-length_append p q)
      ∙ take_all 32 q (omega (arith, hq)) in
    ground (arith, size, front, back)

-- A start that can write its file, and whose fresh key pair has keys of 32 bytes, has an identity,
-- whatever the file was; the next start, whatever key pair it would draw and whether or not it can
-- write, has the same one and leaves the file as it is.
pub load_or_generate_again :
    (file : Option Bytes) (keypair next : Bytes × Bytes) (writable : Bool)
    → length keypair.0 ≡ 32
    → length keypair.1 ≡ 32
    → (id : NodeIdentity) × (left : Option Bytes) × (load_or_generate true keypair file
        ≡ (ok id, left))
      × (load_or_generate writable next left ≡ (ok id, left))
unfolding load_or_generate fresh_identity
load_or_generate_again none keypair next writable hp hq =
    let made : NodeIdentity = record { private_key = keypair.0; public_key = keypair.1 } in
    (made, some (keypair.0 ++ keypair.1), ground (arith, hq), again keypair next writable hp hq)
load_or_generate_again (some bytes) keypair next writable hp hq =
    elim (Bool-cases (length bytes == 64)) [
      | inl whole ↦ (
        record { private_key = take 32 bytes; public_key = take 32 (drop 32 bytes) },
        some bytes,
        ground (arith, whole),
        ground (arith, whole),
      )
      | inr other ↦
          let made : NodeIdentity = record { private_key = keypair.0; public_key = keypair.1 } in
          (
            made,
            some (keypair.0 ++ keypair.1),
            ground (arith, other, hq),
            again keypair next writable hp hq,
          )
    ]
