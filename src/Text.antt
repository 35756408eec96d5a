-- ===== src/Text.antt =====
-- Go strings as lists of bytes, and what the worker uses of Go's package strings: TrimSpace,
-- TrimRight, ToLower over ASCII, concatenation, and the slice expression `s[:n]`.
pub mod Trim
use Prim.Native.Char.{code}
use Prim.Native.String
use mathlib.Core.List.{reverse}
use mentor_ia_worker.Prelude.{
  ℕ, zero, suc, ◌+◌, ◌-◌, ◌/◌, ◌%◌, String, Bool, ◌&&◌, ◌||◌, List, [], ◌∷◌, ◌++◌, map, leb, ltb,
  ◌==◌, if◌then◌else◌, length, take,
}

abbrev pub Bytes : Type 0
Bytes = List ℕ

-- The bytes of an ASCII literal.
unfoldable pub bytes : String → Bytes
bytes String.[] = []
bytes (String.◌∷◌ c s) = code c ∷ bytes s

-- unicode.IsSpace, on the UTF-8 encoding: the ASCII spaces, then U+0085 and U+00A0 in two bytes,
-- then U+1680, U+2000 to U+200A, U+2028, U+2029, U+202F, U+205F and U+3000 in three.
is_space1 : ℕ → Bool
is_space1 x = (leb 9 x && leb x 13) || x == 32

is_space2 : ℕ → ℕ → Bool
is_space2 x y = x == 0xc2 && (y == 0x85 || y == 0xa0)

is_space3 : ℕ → ℕ → ℕ → Bool
is_space3 x y z =
    (x == 0xe1 && y == 0x9a && z == 0x80)
    || (x == 0xe2
        && y == 0x80
        && ((leb 0x80 z && leb z 0x8a) || z == 0xa8 || z == 0xa9 || z == 0xaf))
    || (x == 0xe2 && y == 0x81 && z == 0x9f)
    || (x == 0xe3 && y == 0x80 && z == 0x80)

-- How many bytes of a text its first rune takes if that rune is a space, and 0 if it is none.
unfoldable pub leading_space : Bytes → ℕ
unfolding is_space1 is_space2 is_space3
leading_space [] = 0
leading_space (x ∷ []) = if is_space1 x then 1 else 0
leading_space (x ∷ y ∷ []) = if is_space1 x then 1 else if is_space2 x y then 2 else 0
leading_space (x ∷ y ∷ z ∷ _) =
    if is_space1 x then 1 else if is_space2 x y then 2 else if is_space3 x y z then 3 else 0

-- The same for the last rune of a text that is given from its end.
unfoldable pub trailing_space : Bytes → ℕ
unfolding is_space1 is_space2 is_space3
trailing_space [] = 0
trailing_space (x ∷ []) = if is_space1 x then 1 else 0
trailing_space (x ∷ y ∷ []) = if is_space1 x then 1 else if is_space2 y x then 2 else 0
trailing_space (x ∷ y ∷ z ∷ _) =
    if is_space1 x then 1 else if is_space2 y x then 2 else if is_space3 z y x then 3 else 0

-- Drops `skip` bytes and then, as long as the rest begins with one, a space of the given width.
unfoldable pub strip : (Bytes → ℕ) → ℕ → Bytes → Bytes
strip width skip [] = []
strip width (suc skip) (x ∷ xs) = strip width skip xs
strip width zero (x ∷ xs) =
    let n = width (x ∷ xs) in let rest = strip width (n - 1) xs in if n == 0 then x ∷ xs else rest

unfoldable pub trim_left : Bytes → Bytes
unfolding strip
trim_left s = strip leading_space 0 s

unfoldable pub trim_right : Bytes → Bytes
unfolding strip
trim_right s = reverse (strip trailing_space 0 (reverse s))

-- strings.TrimSpace
unfoldable pub trim_space : Bytes → Bytes
unfolding trim_left trim_right leading_space trailing_space
trim_space s = trim_right (trim_left s)

leading_byte : ℕ → Bytes → ℕ
leading_byte c [] = 0
leading_byte c (x ∷ _) = if x == c then 1 else 0

-- strings.TrimRight(s, c) for one ASCII character.
unfoldable pub trim_right_byte : ℕ → Bytes → Bytes
unfolding strip leading_byte
trim_right_byte c s = reverse (strip (leading_byte c) 0 (reverse s))

-- `if len(s) > n { s = s[:n] }`
unfoldable pub truncate : ℕ → Bytes → Bytes
truncate n s = if ltb n (length s) then take n s else s

-- strings.ToLower, which agrees with this map wherever the result is compared with an ASCII text
-- that has no `i` and no `k`: of the other runes only U+0130 and U+212A are lowered into ASCII.
to_lower_byte : ℕ → ℕ
to_lower_byte c = if leb b'A' c && leb c b'Z' then c + 32 else c

unfoldable pub to_lower : Bytes → Bytes
unfolding to_lower_byte
to_lower s = map to_lower_byte s

-- Decimal digits, as `%d` and strconv.Itoa print a number that is not negative. The fuel is the
-- number itself, which is more than it has digits.
unfoldable pub decimal_digits : ℕ → ℕ → Bytes → Bytes
decimal_digits zero n acc = acc
decimal_digits (suc fuel) n acc =
    let digits = (b'0' + n % 10) ∷ acc in
    let rest = decimal_digits fuel (n / 10) digits in if n / 10 == 0 then digits else rest

unfoldable pub decimal : ℕ → Bytes
unfolding decimal_digits
decimal n = decimal_digits (suc n) n []

abbrev pub is_empty : Bytes → Bool
is_empty s = length s == 0
