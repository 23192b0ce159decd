-- ===== src/Text/Numbers.antt =====
-- Printing and parsing of `usize`: `to_string`, `{:x}` and `str::parse`.
pub mod RoundTrip
use jequi.Prelude.{
  ℕ, zero, suc, ◌+◌, ◌-◌, ◌*◌, ◌/◌, ◌%◌, ◌^◌, Option, none, some, [], ◌∷◌, ◌++◌, Bytes, ltb, within,
  ◌==◌, if◌then◌else◌,
}

abbrev pub usize_mod : ℕ
usize_mod = 2 ^ 64

-- The digit of a value below 16, in lower case.
unfoldable pub digit : ℕ → ℕ
digit d = if ltb d 10 then b'0' + d else 87 + d

show_from : ℕ → ℕ → ℕ → Bytes
show_from zero radix n = []
show_from (suc f) radix n =
    let high = show_from f radix (n / radix) in
    if ltb n radix then digit n ∷ [] else high ++ digit (n % radix) ∷ []

-- The digits of a number, the most significant first. A number has at most as many as its value.
unfoldable pub show : ℕ → ℕ → Bytes
unfolding show_from digit
show radix n = show_from (suc n) radix n

-- `char::to_digit`
unfoldable pub to_digit : ℕ → ℕ → Option ℕ
to_digit radix c =
    let d =
      if within b'0' b'9' c
      then c - b'0'
      else if within b'a' b'z' c
      then c - 87
      else if within b'A' b'Z' c
      then c - 55
      else radix in
    if ltb d radix then some d else none

-- One more digit, with the overflow checks of a 64-bit `usize`.
add_digit : ℕ → ℕ → Option ℕ → Option ℕ
add_digit radix acc none = none
add_digit radix acc (some d) =
    if ltb (acc * radix + d) usize_mod then some (acc * radix + d) else none

parse_from : ℕ → Option ℕ → Bytes → Option ℕ
parse_from radix none cs = none
parse_from radix (some acc) [] = some acc
parse_from radix (some acc) (c ∷ cs) = parse_from radix (add_digit radix acc (to_digit radix c)) cs

-- `usize::from_str_radix`: a sign `+` is allowed, an empty text or a lone sign is not.
unfoldable pub parse : ℕ → Bytes → Option ℕ
unfolding parse_from add_digit to_digit
parse radix [] = none
parse radix (c ∷ []) = parse_from radix (some 0) (c ∷ [])
parse radix (c ∷ (d ∷ ds)) =
    if c == b'+'
    then parse_from radix (some 0) (d ∷ ds)
    else parse_from radix (some 0) (c ∷ (d ∷ ds))
