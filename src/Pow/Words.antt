-- ===== src/Pow/Words.antt =====
-- The in-place loop of an access, word by word.
use ondris.Prelude.{
  ℕ, zero, suc, ◌+◌, ◌-◌, ◌*◌, ◌%◌, ◌^◌, ◌≤◌, ◌<◌, ◌≡◌, refl, sym, ap, ◌∙◌, [], ◌∷◌, ◌++◌, Bytes,
  length, take, drop, length-append, length-take, length-drop, All, IsByte, to_le_bytes,
  from_le_bytes, to_le_bytes-IsByte, All-append, All-take, arith, bit_xor-lt, subst, drop-add,
}
use native.Mathlib.Decide.{ℕ_discrete}
use ondris.Pow.{fnv, fnv_prime, read_u32_le, write_u32_le, mix_words, item_size}

All-drop : (n : ℕ) (bs : Bytes) → All IsByte bs → All IsByte (drop n bs)
All-drop zero bs h = h
All-drop (suc n) [] h = tt
All-drop (suc n) (b ∷ bs) h = All-drop n bs h.1

-- Up to four bytes make a word below 2^32.
from_four-lt : (bs : Bytes) → All IsByte bs → from_le_bytes (take 4 bs) < 2 ^ 32
from_four-lt [] h = omega arith
from_four-lt (a ∷ []) h = omega arith
from_four-lt (a ∷ b ∷ []) h = omega arith
from_four-lt (a ∷ b ∷ c ∷ []) h = omega arith
from_four-lt (a ∷ b ∷ c ∷ d ∷ bs) h = omega arith

pub read_u32_le-lt : (bs : Bytes) (o : ℕ) → All IsByte bs → read_u32_le bs o < 2 ^ 32
unfolding read_u32_le
read_u32_le-lt bs o h = from_four-lt (drop o bs) (All-drop o bs h)

pub fnv-lt : (a b : ℕ) → b < 2 ^ 32 → fnv a b < 2 ^ 32
unfolding fnv
fnv-lt a b h = bit_xor-lt 32 (a * fnv_prime % 2 ^ 32) b (omega arith) h

-- What a word's write leaves, on each side of it and in its place.
take_before :
    (n o : ℕ) (bs ys : Bytes) → n ≤ o → o ≤ length bs → take n (take o bs ++ ys) ≡ take n bs
take_before zero o bs ys h l = refl
take_before (suc n) zero bs ys h l = absurd (omega arith)
take_before (suc n) (suc o) [] ys h l = absurd (omega arith)
take_before (suc n) (suc o) (b ∷ bs) ys h l =
    ap (◌∷◌ b) (take_before n o bs ys (omega arith) (omega arith))

slice_before :
    (n p o : ℕ) (bs ys : Bytes)
    → p + n ≤ o
    → o ≤ length bs
    → take n (drop p (take o bs ++ ys)) ≡ take n (drop p bs)
slice_before n zero o bs ys h l = take_before n o bs ys (omega arith) l
slice_before n (suc p) zero bs ys h l = absurd (omega arith)
slice_before n (suc p) (suc o) [] ys h l = absurd (omega arith)
slice_before n (suc p) (suc o) (b ∷ bs) ys h l =
    slice_before n p o bs ys (omega arith) (omega arith)

drop_at : (o : ℕ) (bs ys : Bytes) → o ≤ length bs → drop o (take o bs ++ ys) ≡ ys
drop_at zero bs ys l = refl
drop_at (suc o) [] ys l = absurd (omega arith)
drop_at (suc o) (b ∷ bs) ys l = drop_at o bs ys (omega arith)

drop_after :
    (q o v : ℕ) (bs : Bytes)
    → o + 4 ≤ length bs
    → drop (o + (4 + q)) (take o bs ++ (to_le_bytes 4 v ++ drop (o + 4) bs)) ≡ drop (o + (4 + q)) bs
drop_after q o v bs l =
    let tail = to_le_bytes 4 v ++ drop (o + 4) bs in
    drop-add o (4 + q) (take o bs ++ tail)
    ∙ ap (drop (4 + q)) (drop_at o bs tail (omega arith))
    ∙ drop-add 4 q tail
    ∙ sym (drop-add (o + 4) q bs)
    ∙ ap (λ k. drop k bs) (omega arith)

pub length-write_u32_le :
    (bs : Bytes) (o v : ℕ) → o + 4 ≤ length bs → length (write_u32_le bs o v) ≡ length bs
unfolding write_u32_le
length-write_u32_le bs o v l = omega (
  arith,
  length-append (take o bs) (to_le_bytes 4 v ++ drop (o + 4) bs),
  length-append (to_le_bytes 4 v) (drop (o + 4) bs),
  length-take o bs,
  length-drop (o + 4) bs,
)

write_u32_le-IsByte : (bs : Bytes) (o v : ℕ) → All IsByte bs → All IsByte (write_u32_le bs o v)
unfolding write_u32_le
write_u32_le-IsByte bs o v h =
    All-append IsByte (take o bs) _ (All-take IsByte o bs h)
      (All-append IsByte (to_le_bytes 4 v) _ (to_le_bytes-IsByte 4 v) (All-drop (o + 4) bs h))

four_bytes : (v : ℕ) (ys : Bytes) → v < 2 ^ 32 → from_le_bytes (take 4 (to_le_bytes 4 v ++ ys)) ≡ v
four_bytes v ys h = omega arith

read-write_u32_le :
    (bs : Bytes) (o v : ℕ)
    → o + 4 ≤ length bs
    → v < 2 ^ 32
    → read_u32_le (write_u32_le bs o v) o ≡ v
unfolding read_u32_le write_u32_le
read-write_u32_le bs o v l h =
    rw (drop_at o bs (to_le_bytes 4 v ++ drop (o + 4) bs) (omega arith))
      (four_bytes v (drop (o + 4) bs) h)

read-write_u32_le_before :
    (bs : Bytes) (o p v : ℕ)
    → o ≤ length bs
    → p + 4 ≤ o
    → read_u32_le (write_u32_le bs o v) p ≡ read_u32_le bs p
unfolding read_u32_le write_u32_le
read-write_u32_le_before bs o p v l h =
    ap from_le_bytes (slice_before 4 p o bs (to_le_bytes 4 v ++ drop (o + 4) bs) h l)

read-write_u32_le_after :
    (bs : Bytes) (o p v : ℕ)
    → o + 4 ≤ length bs
    → o + 4 ≤ p
    → read_u32_le (write_u32_le bs o v) p ≡ read_u32_le bs p
unfolding read_u32_le write_u32_le
read-write_u32_le_after bs o p v l h =
    let split : o + (4 + (p - (o + 4))) ≡ p = omega arith in
    ap (λ zs. from_le_bytes (take 4 zs))
      (subst (λ k. drop k (take o bs ++ (to_le_bytes 4 v ++ drop (o + 4) bs)) ≡ drop k bs) split
        (drop_after (p - (o + 4)) o v bs l))

pub length-mix_words :
    (left w : ℕ) (mix it : Bytes)
    → (w + left) * 4 ≤ length mix
    → length (mix_words left w mix it) ≡ length mix
unfolding mix_words
length-mix_words zero w mix it h = refl
length-mix_words (suc left) w mix it h =
    let x = fnv (read_u32_le mix (w * 4)) (read_u32_le it (w * 4)) in
    let kept = length-write_u32_le mix (w * 4) x (omega arith) in
    length-mix_words left (w + 1) (write_u32_le mix (w * 4) x) it (omega (arith, kept)) ∙ kept

mix_words_below :
    (left w v : ℕ) (mix it : Bytes)
    → (w + left) * 4 ≤ length mix
    → v < w
    → read_u32_le (mix_words left w mix it) (v * 4) ≡ read_u32_le mix (v * 4)
unfolding mix_words
mix_words_below zero w v mix it h lt = refl
mix_words_below (suc left) w v mix it h lt =
    let x = fnv (read_u32_le mix (w * 4)) (read_u32_le it (w * 4)) in
    let kept = length-write_u32_le mix (w * 4) x (omega arith) in
    mix_words_below left (w + 1) v (write_u32_le mix (w * 4) x) it (omega (arith, kept))
      (omega arith)
    ∙ read-write_u32_le_before mix (w * 4) (v * 4) x (omega arith) (omega arith)

mix_words_from :
    (left w v : ℕ) (mix it : Bytes)
    → (w + left) * 4 ≤ length mix
    → All IsByte it
    → w ≤ v
    → v < w + left
    → read_u32_le (mix_words left w mix it) (v * 4)
      ≡ fnv (read_u32_le mix (v * 4)) (read_u32_le it (v * 4))
unfolding mix_words
mix_words_from zero w v mix it h hb le lt = absurd (omega arith)
mix_words_from (suc left) w v mix it h hb le lt =
    let x = fnv (read_u32_le mix (w * 4)) (read_u32_le it (w * 4)) in
    let small =
      fnv-lt (read_u32_le mix (w * 4)) (read_u32_le it (w * 4)) (read_u32_le-lt it (w * 4) hb) in
    let kept = length-write_u32_le mix (w * 4) x (omega arith) in
    let mix' = write_u32_le mix (w * 4) x in
    elim (ℕ_discrete w v) [
      | yes same ↦
          mix_words_below left (w + 1) v mix' it (omega (arith, kept)) (omega arith)
          ∙ rw (← same) (read-write_u32_le mix (w * 4) x (omega arith) small)
      | no differ ↦
          mix_words_from left (w + 1) v mix' it (omega (arith, kept)) hb (omega arith) (omega arith)
          ∙ ap (λ r. fnv r (read_u32_le it (v * 4)))
              (read-write_u32_le_after mix (w * 4) (v * 4) x (omega arith) (omega arith))
    ]

-- The loop of one access, which writes the mix in place, replaces each of its 32 words by the FNV
-- mix of that word as it was with the item's word, and keeps the 128 bytes.
pub mix_words_lem :
    (mix it : Bytes) (v : ℕ)
    → length mix ≡ item_size
    → All IsByte it
    → v < 32
    → (length (mix_words 32 0 mix it) ≡ item_size)
      × (read_u32_le (mix_words 32 0 mix it) (v * 4)
          ≡ fnv (read_u32_le mix (v * 4)) (read_u32_le it (v * 4)))
mix_words_lem mix it v h hb lt = (
  length-mix_words 32 0 mix it (omega arith) ∙ h,
  mix_words_from 32 0 v mix it (omega arith) hb (omega arith) (omega arith),
)
