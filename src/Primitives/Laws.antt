-- ===== src/Primitives/Laws.antt =====
-- Round trips of the textual forms, and what each parser refuses.
use ondris.Prelude.{
  ◌≡◌, ◌≢◌, refl, none, some, [], ◌∷◌, ◌++◌, Bytes, length, All, IsByte, ok, arith,
}
use ondris.Primitives.{
  Hex, HexLaws, IsHexDigit, Address, hash_from_hex, key_from_hex, address_from_hex,
  signature_from_hex, to_hex, address_to_string, address_from_str, strip_prefix, zero_hash,
}

-- Hex text has no prefix to strip.
strip_prefix-hex :
    (s : Bytes) → All IsHexDigit s → strip_prefix (b'o' ∷ b'n' ∷ b'd' ∷ b'r' ∷ []) s ≡ none
unfolding strip_prefix
strip_prefix-hex [] d = refl
strip_prefix-hex (c ∷ s) d = ground arith

strip_prefix-append :
    (s : Bytes)
    → strip_prefix (b'o' ∷ b'n' ∷ b'd' ∷ b'r' ∷ []) ((b'o' ∷ b'n' ∷ b'd' ∷ b'r' ∷ []) ++ s) ≡ some s
unfolding strip_prefix
strip_prefix-append s = refl

module _ (h : Hex) (laws : HexLaws h) where
  address_from_hex-to_hex :
      (a : Address) → length a ≡ 20 → All IsByte a → address_from_hex h (to_hex h a) ≡ ok a
  unfolding address_from_hex to_hex
  address_from_hex-to_hex a len bytes = rw (laws.decode-encode a bytes, len)

  -- A 20-byte address is read back from the text that displays it, and from its bare hex form.
  pub address_from_str-to_string :
      (a : Address)
      → length a ≡ 20
      → All IsByte a
      → (address_from_str h (address_to_string h a) ≡ ok a)
        × (address_from_str h (to_hex h a) ≡ ok a)
  unfolding address_from_str address_to_string
  address_from_str-to_string a len bytes =
      let shown = strip_prefix-append (to_hex h a) in
      let bare = strip_prefix-hex (to_hex h a) (to_hex-IsHexDigit a) in
      let back = address_from_hex-to_hex a len bytes in (rw shown back, rw bare back)
    where
      to_hex-IsHexDigit : (b : Bytes) → All IsHexDigit (to_hex h b)
      to_hex-IsHexDigit b = unfold to_hex in laws.encode-IsHexDigit b

  -- The three checked parsers give values of their own length only.
  pub from_hex-length :
      (s t u : Bytes) (a k g : Bytes)
      → address_from_hex h s ≡ ok a
      → key_from_hex h t ≡ ok k
      → signature_from_hex h u ≡ ok g
      → (length a ≡ 20) × (length k ≡ 32) × (length g ≡ 64)
  unfolding address_from_hex key_from_hex signature_from_hex
  from_hex-length s t u a k g p q r = (ground arith, ground arith, ground arith)

  -- `Hash256::from_hex` checks no length: every string that decodes to another number of bytes
  -- than 32 is read as the zero hash, as the hex form of the zero hash is.
  pub hash_from_hex_wrong_length :
      (s bs : Bytes)
      → h.decode s ≡ some bs
      → length bs ≢ 32
      → hash_from_hex h s ≡ hash_from_hex h (to_hex h zero_hash)
  unfolding hash_from_hex to_hex
  hash_from_hex_wrong_length s bs e ne =
      rw (e, laws.decode-encode zero_hash (omega arith)) (ground arith)
