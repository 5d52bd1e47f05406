-- ===== src/Network/Messages/Delivery.antt =====
-- `write_message` and `read_message` of lib.rs at the two ends of a session.
use ondris.Prelude.{
  ◌%◌, ◌^◌, ◌≤◌, ◌≡◌, refl, sym, ap, subst, ◌∙◌, true, [], ◌∷◌, ◌++◌, Bytes, length, length-append,
  take, drop, take_all, take-length_append, drop-length_append, to_be_bytes, from_be_bytes,
  length-to_be_bytes, from_be_bytes-to_be_bytes, ok, leb, arith,
}
use ondris.Block.{Json, JsonLaws}
use ondris.Network.Noise.{Snow, SnowLaws, Reader, read_exact}
use ondris.Network.Noise.Streams.{Delivers, write_all-Stream, read_exact_stream}
use ondris.Network.Messages.{Message, max_message, write_message, read_message}

module _ {Session : Type 0} (snow : Snow Session) (json : Json Message) where
  -- A message of at most 64 MiB that one end of a session writes is read at the other end, and
  -- after it the connection delivers nothing more.
  pub read_message-write_message :
      (laws : SnowLaws snow) (json_laws : JsonLaws json) (s r : Session) (msg : Message)
      → laws.Paired s r
      → length (json.to_vec msg) ≤ max_message
      → (wire : Bytes) × (s' : Session) × (last : Reader snow) × (write_message snow json s msg
          ≡ ok (wire, s'))
        × (read_message snow json (record { wire = wire; session = r; leftover = [] })
            ≡ ok (msg, last))
        × Delivers snow last []
  unfolding write_message read_message
  read_message-write_message laws json_laws s r msg paired small =
      let bytes = json.to_vec msg in
      let head : Bytes = to_be_bytes 4 (length bytes % 2 ^ 32) in
      let four : length head ≡ 4 = length-to_be_bytes 4 (length bytes % 2 ^ 32) in
      let size : from_be_bytes head ≡ length bytes =
        from_be_bytes-to_be_bytes 4 (length bytes % 2 ^ 32) (omega arith) ∙ omega arith in
      let (wire, s', written, stream) = write_all-Stream snow laws s r (head ++ bytes) paired in
      let start : Reader snow = record { wire = wire; session = r; leftover = [] } in
      let (middle, first, d) =
        read_exact_stream snow 4 start (head ++ bytes) (head ++ bytes, stream, refl)
          (omega (arith, length-append head bytes, four)) in
      let front : take 4 (head ++ bytes) ≡ head =
        ap (λ n. take n (head ++ bytes)) (sym four) ∙ take-length_append head bytes in
      let back : drop 4 (head ++ bytes) ≡ bytes =
        ap (λ n. drop n (head ++ bytes)) (sym four) ∙ drop-length_append head bytes in
      let (last, second, d') =
        read_exact_stream snow (length bytes) middle bytes (subst (Delivers snow middle) back d)
          (omega arith) in
      let whole : take (length bytes) bytes ≡ bytes = take_all (length bytes) bytes (omega arith) in
      let over : drop (length bytes) bytes ≡ [] = drop_all bytes in
      let first' : read_exact snow 4 start ≡ ok (head, middle) =
        first ∙ ap (λ v. ok (v, middle)) front in
      let second' : read_exact snow (from_be_bytes head) middle ≡ ok (bytes, last) =
        ap (λ n. read_exact snow n middle) size ∙ second ∙ ap (λ v. ok (v, last)) whole in
      let fits : leb (from_be_bytes head) max_message ≡ true = ground (arith, size) in
      (
        wire,
        s',
        last,
        written,
        rw first' (rw fits (rw second' (rw (json_laws.from_slice-to_vec msg)))),
        subst (Delivers snow last) over d',
      )
    where
      drop_all : (xs : Bytes) → drop (length xs) xs ≡ []
      drop_all [] = refl
      drop_all (x ∷ xs) = drop_all xs
