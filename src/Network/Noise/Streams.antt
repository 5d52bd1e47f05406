-- ===== src/Network/Noise/Streams.antt =====
-- The writer and the reader of noise.rs at the two ends of a session.
use ondris.Prelude.{
  true, ℕ, zero, suc, ◌+◌, ◌-◌, ◌%◌, ◌^◌, ◌≤◌, ◌<◌, ◌≡◌, refl, sym, ap, subst, ◌∙◌, some, inl, inr,
  Bool-cases, [], ◌∷◌, ◌++◌, append_assoc, Bytes, length, length-append, take, drop, length-take,
  length-drop, take-append-drop, take_all, take-length_append, drop-length_append, to_be_bytes,
  from_be_bytes, from_be_bytes-to_be_bytes, length-to_be_bytes, leb, leb→le, ok, arith,
}
use ondris.Network.Noise.{
  Snow, SnowLaws, max_noise_plaintext, write_frame, read_bytes, read_frame, write_chunks, write_all,
  Reader, fill, read_exact,
}

read_bytes-append :
    (payload wire : Bytes) → read_bytes (length payload) (payload ++ wire) ≡ ok (payload, wire)
unfolding read_bytes
read_bytes-append payload wire =
    let enough : leb (length payload) (length (payload ++ wire)) ≡ true =
      ground (arith, length-append payload wire) in
    rw (enough, take-length_append payload wire, drop-length_append payload wire)

-- A frame of less than 2^16 bytes is read back from the front of what follows it.
pub read_frame-write_frame :
    (payload wire : Bytes)
    → length payload < 2 ^ 16
    → read_frame (write_frame payload ++ wire) ≡ ok (payload, wire)
unfolding read_frame write_frame
read_frame-write_frame payload wire small =
    let head : Bytes = to_be_bytes 2 (length payload % 2 ^ 16) in
    let two : length head ≡ 2 = length-to_be_bytes 2 (length payload % 2 ^ 16) in
    let size : from_be_bytes head ≡ length payload =
      from_be_bytes-to_be_bytes 2 (length payload % 2 ^ 16) (omega arith) ∙ omega arith in
    let first : read_bytes 2 ((head ++ payload) ++ wire) ≡ ok (head, payload ++ wire) =
      ap (λ n. read_bytes n ((head ++ payload) ++ wire)) (sym two)
      ∙ ap (read_bytes (length head)) (append_assoc head payload wire)
      ∙ read_bytes-append head (payload ++ wire) in
    rw first (ap (λ n. read_bytes n (payload ++ wire)) size ∙ read_bytes-append payload wire)

module _ {Session : Type 0} (snow : Snow Session) where
  -- The bytes that the frames of a connection carry, for the session that reads them.
  pub data Stream : Bytes → Session → Bytes → Type 0 where
    ended : {r : Session} → Stream [] r []
    frame :
        {wire rest cipher plain bs : Bytes} {r r' : Session}
        → read_frame wire ≡ ok (cipher, rest)
        → length rest < length wire
        → snow.read_message r cipher ≡ some (plain, r')
        → Stream rest r' bs
        → Stream wire r (plain ++ bs)

  -- What a reader will still deliver.
  abbrev pub Delivers : Reader snow → Bytes → Type 0
  Delivers reader bs =
      (later : Bytes) × Stream reader.wire reader.session later × (reader.leftover ++ later ≡ bs)

  write_chunks-Stream :
      (laws : SnowLaws snow) (fuel : ℕ) (s r : Session) (plaintext : Bytes)
      → laws.Paired s r
      → length plaintext ≤ fuel
      → (wire : Bytes) × (s' : Session) × (write_chunks snow fuel s plaintext ≡ ok (wire, s'))
        × Stream wire r plaintext
  unfolding write_chunks
  write_chunks-Stream laws zero s r [] paired h = ([], s, refl, ended)
  write_chunks-Stream laws zero s r (p ∷ ps) paired h = absurd (omega arith)
  write_chunks-Stream laws (suc fuel) s r [] paired h = ([], s, refl, ended)
  write_chunks-Stream laws (suc fuel) s r (p ∷ ps) paired h =
      let chunk : Bytes = take max_noise_plaintext (p ∷ ps) in
      let others : Bytes = drop max_noise_plaintext (p ∷ ps) in
      let short : length chunk ≤ max_noise_plaintext =
        omega (arith, length-take max_noise_plaintext (p ∷ ps)) in
      let (cipher, s', r', written, size, reads, paired') =
        laws.read-write s r chunk paired short in
      let (wire, s'', rest_written, stream) =
        write_chunks-Stream laws fuel s' r' others paired'
          (omega (arith, length-drop max_noise_plaintext (p ∷ ps))) in
      (
        write_frame cipher ++ wire,
        s'',
        rw written (rw rest_written),
        subst (Stream (write_frame cipher ++ wire) r)
            (take-append-drop max_noise_plaintext (p ∷ ps))
            (frame (read_frame-write_frame cipher wire (omega (arith, size, short)))
              (longer cipher wire) reads stream),
      )
    where
      longer : (cipher wire : Bytes) → length wire < length (write_frame cipher ++ wire)
      longer cipher wire =
          unfold write_frame in
          omega (
            arith,
            length-append (to_be_bytes 2 (length cipher % 2 ^ 16) ++ cipher) wire,
            length-append (to_be_bytes 2 (length cipher % 2 ^ 16)) cipher,
            length-to_be_bytes 2 (length cipher % 2 ^ 16),
          )

  -- What one end writes is a stream of it for the other end.
  pub write_all-Stream :
      (laws : SnowLaws snow) (s r : Session) (plaintext : Bytes)
      → laws.Paired s r
      → (wire : Bytes) × (s' : Session) × (write_all snow s plaintext ≡ ok (wire, s'))
        × Stream wire r plaintext
  unfolding write_all
  write_all-Stream laws s r plaintext paired =
      write_chunks-Stream laws (length plaintext) s r plaintext paired (omega arith)

  -- A stream that is not over has a next frame.
  next_frame :
      {wire later : Bytes} {r : Session}
      → Stream wire r later
      → 0 < length later
      → (rest : Bytes) × (cipher : Bytes) × (plain : Bytes) × (bs : Bytes) × (r' : Session)
        × (read_frame wire ≡ ok (cipher, rest))
        × (length rest < length wire)
        × (snow.read_message r cipher ≡ some (plain, r'))
        × Stream rest r' bs
        × (plain ++ bs ≡ later)
  next_frame ended h = absurd (omega arith)
  next_frame
        (frame {rest = rest} {cipher = cipher} {plain = plain} {bs = bs} {r' = r'} found shorter
          reads stream)
        h =
      (rest, cipher, plain, bs, r', found, shorter, reads, stream, refl)

  fill_lem :
      (fuel n : ℕ) (reader : Reader snow) (bs : Bytes)
      → Delivers reader bs
      → n ≤ length bs
      → length reader.wire < fuel
      → (filled : Reader snow) × (fill snow fuel n reader ≡ ok filled)
        × (n ≤ length filled.leftover)
        × Delivers filled bs
  unfolding fill
  fill_lem zero n reader bs d h lt = absurd (omega arith)
  fill_lem (suc fuel) n reader bs (later, stream, whole) h lt =
      elim (Bool-cases (leb n (length reader.leftover))) [
        | inl enough ↦ (reader, ground arith, leb→le n _ enough, (later, stream, whole))
        | inr short ↦
            let total : length bs ≡ length reader.leftover + length later =
              ap length (sym whole) ∙ length-append reader.leftover later in
            let (rest, cipher, plain, bs', r', found, shorter, reads, stream', split) =
              next_frame stream (ground (arith, total)) in
            let next : Reader snow = record {
              wire = rest;
              session = r';
              leftover = reader.leftover ++ plain;
            } in
            let (filled, go, enough, d) =
              fill_lem fuel n next bs
                (
                  bs',
                  stream',
                  append_assoc reader.leftover plain bs'
                      ∙ ap (λ v. reader.leftover ++ v) split
                      ∙ whole,
                )
                h (omega (arith, shorter, lt)) in
            (filled, ground (arith, found, reads, go), enough, d)
      ]

  -- Where the connection still delivers a string of n bytes or more, `read_exact` of n bytes
  -- succeeds, whatever the frames are: it gives the first n bytes, and what the reader then
  -- delivers is the rest. The fuel never runs out.
  pub read_exact_stream :
      (n : ℕ) (reader : Reader snow) (bs : Bytes)
      → Delivers reader bs
      → n ≤ length bs
      → (after : Reader snow) × (read_exact snow n reader ≡ ok (take n bs, after))
        × Delivers after (drop n bs)
  unfolding read_exact
  read_exact_stream n reader bs d h =
      let (filled, go, enough, (later, stream, whole)) =
        fill_lem (suc (length reader.wire)) n reader bs d h (omega arith) in
      let (front, back) = cut n filled.leftover later enough in
      (
        record filled { leftover = drop n filled.leftover },
        rw go (
            ap (λ v. ok (v, record filled { leftover = drop n filled.leftover }))
              (front ∙ ap (take n) whole)),
        (later, stream, back ∙ ap (drop n) whole),
      )
    where
      cut :
          (k : ℕ) (xs ys : Bytes)
          → k ≤ length xs
          → (take k xs ≡ take k (xs ++ ys)) × (drop k xs ++ ys ≡ drop k (xs ++ ys))
      cut zero xs ys le = (refl, refl)
      cut (suc k) [] ys le = absurd (omega arith)
      cut (suc k) (x ∷ xs) ys le = let (a, b) = cut k xs ys (omega arith) in (ap (◌∷◌ x) a, b)

  -- A message of any length that one end of a session writes is read at the other end, in two
  -- reads of any sizes that add up to its length: the reads succeed and give its bytes in order,
  -- however the writer cut it into frames.
  pub read_exact-write_all :
      (laws : SnowLaws snow) (s r : Session) (plaintext : Bytes) (n : ℕ)
      → laws.Paired s r
      → n ≤ length plaintext
      → (wire : Bytes) × (s' : Session) × (middle : Reader snow) × (last : Reader snow) × (write_all
            snow s plaintext
          ≡ ok (wire, s'))
        × (read_exact snow n (record { wire = wire; session = r; leftover = [] })
            ≡ ok (take n plaintext, middle))
        × (read_exact snow (length plaintext - n) middle ≡ ok (drop n plaintext, last))
  read_exact-write_all laws s r plaintext n paired h =
      let (wire, s', written, stream) = write_all-Stream laws s r plaintext paired in
      let (middle, first, d) =
        read_exact_stream n (record { wire = wire; session = r; leftover = [] }) plaintext
          (plaintext, stream, refl) h in
      let size = length-drop n plaintext in
      let (last, second, _) =
        read_exact_stream (length plaintext - n) middle (drop n plaintext) d
          (omega (arith, size)) in
      (
        wire,
        s',
        middle,
        last,
        written,
        first,
        second
            ∙ ap (λ v. ok (v, last))
                (take_all (length plaintext - n) (drop n plaintext) (omega (arith, size))),
      )
