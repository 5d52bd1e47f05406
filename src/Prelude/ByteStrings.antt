-- ===== src/Prelude/ByteStrings.antt =====
-- Byte strings, their numbers in both byte orders, and their comparison.
use Prim.Native.Nat.{ℕ, zero, suc, ◌+◌, ◌*◌, ◌/◌, ◌%◌, ◌^◌, ◌≤◌, ◌<◌}
use mathlib.Core.Path.{◌≡◌, refl, ap, sym, ◌∙◌, subst}
use mathlib.Core.Bool.{Bool, true, false, ◌&&◌}
use mathlib.Core.List.{List, [], ◌∷◌}
use native.Mathlib.Omega.{arith}
use native.Mathlib.Nat.{
  pow-suc, one-le-pow, div-add-mod, mul-add-mod_self_left, mod-lt, mod-eq_of_lt, mul-le-mul_right,
}
use package.ondris.Prelude.Tests.{◌==◌}
use package.ondris.Prelude.Lists.{length, All}

-- `Vec<u8>`, `&[u8]` and `[u8; N]`
abbrev pub Bytes : Type 0
Bytes = List ℕ

abbrev pub IsByte : ℕ → Type 0
IsByte b = b < 256

abbrev pub IsU64 : ℕ → Type 0
IsU64 n = n < 2 ^ 64

-- `==` of byte strings
unfoldable pub bytes_eq : Bytes → Bytes → Bool
bytes_eq [] [] = true
bytes_eq [] (y ∷ ys) = false
bytes_eq (x ∷ xs) [] = false
bytes_eq (x ∷ xs) (y ∷ ys) = (x == y) && bytes_eq xs ys

pub bytes_eq_sound : (xs ys : Bytes) → bytes_eq xs ys ≡ true → xs ≡ ys
unfolding bytes_eq
bytes_eq_sound [] [] h = refl
bytes_eq_sound [] (y ∷ ys) h = cc
bytes_eq_sound (x ∷ xs) [] h = cc
bytes_eq_sound (x ∷ xs) (y ∷ ys) h = ground (arith, bytes_eq_sound xs ys)

pub bytes_eq_refl : (xs : Bytes) → bytes_eq xs xs ≡ true
unfolding bytes_eq
bytes_eq_refl [] = refl
bytes_eq_refl (x ∷ xs) = ground (arith, bytes_eq_refl xs)

-- `n.to_le_bytes()`, of w bytes
abbrev pub to_le_bytes : ℕ → ℕ → Bytes
to_le_bytes zero n = []
to_le_bytes (suc w) n = (n % 256) ∷ to_le_bytes w (n / 256)

-- `from_le_bytes`
abbrev pub from_le_bytes : Bytes → ℕ
from_le_bytes [] = 0
from_le_bytes (b ∷ bs) = b + 256 * from_le_bytes bs

-- `n.to_be_bytes()`, of w bytes
abbrev pub to_be_bytes : ℕ → ℕ → Bytes
to_be_bytes zero n = []
to_be_bytes (suc w) n = (n / 256 ^ w % 256) ∷ to_be_bytes w n

-- `from_be_bytes`, from the left with an accumulator
abbrev pub be_value_from : ℕ → Bytes → ℕ
be_value_from acc [] = acc
be_value_from acc (b ∷ bs) = be_value_from (acc * 256 + b) bs

abbrev pub from_be_bytes : Bytes → ℕ
from_be_bytes = be_value_from 0

pub length-to_le_bytes : (w n : ℕ) → length (to_le_bytes w n) ≡ w
length-to_le_bytes zero n = refl
length-to_le_bytes (suc w) n = ap suc (length-to_le_bytes w (n / 256))

pub length-to_be_bytes : (w n : ℕ) → length (to_be_bytes w n) ≡ w
length-to_be_bytes zero n = refl
length-to_be_bytes (suc w) n = ap suc (length-to_be_bytes w n)

pub to_le_bytes-IsByte : (w n : ℕ) → All IsByte (to_le_bytes w n)
to_le_bytes-IsByte zero n = tt
to_le_bytes-IsByte (suc w) n = (omega arith, to_le_bytes-IsByte w (n / 256))

pub bytes_eq_of_eq : {xs ys : Bytes} → xs ≡ ys → bytes_eq xs ys ≡ true
bytes_eq_of_eq {xs} {ys} e = subst (λ zs. bytes_eq xs zs ≡ true) e (bytes_eq_refl xs)

mod_split : (n p : ℕ) → 0 < p → n % (256 * p) ≡ n / p % 256 * p + n % p
mod_split n p pos =
    let high = n / p in
    let r = n % p in
    let r_lt : r < p = mod-lt n pos in
    let c = high % 256 * p + r in
    let top : high % 256 ≤ 255 = omega arith in
    let c_lt : c < 256 * p = omega (arith, mul-le-mul_right p top) in
    let parts : high ≡ 256 * (high / 256) + high % 256 = omega arith in
    let whole : n ≡ 256 * p * (high / 256) + c =
      omega (arith, div-add-mod n p, ap (λ (t : ℕ). p * t) parts) in
    ap (λ t. t % (256 * p)) whole
    ∙ mul-add-mod_self_left (256 * p) (high / 256) c
    ∙ mod-eq_of_lt c_lt

-- Big-endian bytes are read back, behind any prefix.
be_value_from-to_be_bytes :
    (w acc n : ℕ) → be_value_from acc (to_be_bytes w n) ≡ acc * 256 ^ w + n % 256 ^ w
be_value_from-to_be_bytes zero acc n = omega arith
be_value_from-to_be_bytes (suc w) acc n =
    let p = 256 ^ w in
    let digit = n / p % 256 in
    let width : 256 ^ suc w ≡ 256 * p = omega (arith, pow-suc 256 w) in
    be_value_from-to_be_bytes w (acc * 256 + digit) n
    ∙ rw width (omega (arith, mod_split n p (one-le-pow w 256 (omega arith))))

pub from_be_bytes-to_be_bytes : (w n : ℕ) → n < 256 ^ w → from_be_bytes (to_be_bytes w n) ≡ n
from_be_bytes-to_be_bytes w n h = be_value_from-to_be_bytes w 0 n ∙ omega (arith, mod-eq_of_lt h)

pub to_be_bytes-injective :
    (w m n : ℕ) → m < 256 ^ w → n < 256 ^ w → to_be_bytes w m ≡ to_be_bytes w n → m ≡ n
to_be_bytes-injective w m n hm hn e =
    sym (from_be_bytes-to_be_bytes w m hm) ∙ ap from_be_bytes e ∙ from_be_bytes-to_be_bytes w n hn
