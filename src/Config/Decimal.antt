-- ===== src/Config/Decimal.antt =====
-- strconv.Atoi on a 64-bit platform: an optional sign, decimal digits, and the range of int64.
use mentor_ia_worker.Prelude.{
  ℕ, ◌+◌, ◌-◌, ◌*◌, Bool, ◌&&◌, Option, none, some, [], ◌∷◌, ℤ, pos, negsuc, two_63, leb, ltb, ◌==◌,
  if◌then◌else◌,
}
use mentor_ia_worker.Text.{Bytes}

unfoldable pub is_digit : ℕ → Bool
is_digit c = leb b'0' c && leb c b'9'

-- The value of a text of digits after those that gave `acc`.
unfoldable pub digits_value : ℕ → Bytes → Option ℕ
unfolding is_digit
digits_value acc [] = some acc
digits_value acc (c ∷ cs) =
    let rest = digits_value (acc * 10 + (c - b'0')) cs in if is_digit c then rest else none

-- At least one digit.
unfoldable pub magnitude : Bytes → Option ℕ
unfolding digits_value
magnitude [] = none
magnitude (c ∷ cs) = digits_value 0 (c ∷ cs)

unfoldable pub positive : Option ℕ → Option ℤ
positive none = none
positive (some n) = if ltb n two_63 then some (pos n) else none

unfoldable pub negative : Option ℕ → Option ℤ
negative none = none
negative (some n) =
    if n == 0 then some (pos 0) else if leb n two_63 then some (negsuc (n - 1)) else none

unfoldable pub atoi : Bytes → Option ℤ
unfolding magnitude positive negative
atoi [] = none
atoi (c ∷ cs) =
    if c == b'-'
    then negative (magnitude cs)
    else if c == b'+'
    then positive (magnitude cs)
    else positive (magnitude (c ∷ cs))
