-- ===== src/Text/Numbers/RoundTrip.antt =====
-- What `show` prints, `parse` reads back.
use jequi.Prelude.{
  ℕ, zero, suc, ◌+◌, ◌*◌, ◌/◌, ◌%◌, ◌≤◌, ◌<◌, ◌≡◌, refl, ap, ◌∙◌, ◌≢◌, inl, inr, Option, none, some,
  [], ◌∷◌, ◌++◌, arith, ltb, ltb→lt, lt→ltb, ltb→ge, Bool-cases, Bytes, All, All-append,
}
use jequi.Text.Numbers.{usize_mod, digit, show_from, show, to_digit, add_digit, parse_from, parse}

pub to_digit-digit : (radix d : ℕ) → radix ≤ 16 → d < radix → to_digit radix (digit d) ≡ some d
unfolding to_digit digit
to_digit-digit radix d h k = ground arith

parse_from-concat :
    (radix : ℕ) (acc : Option ℕ) (cs : Bytes) (c : ℕ) (m : ℕ)
    → parse_from radix acc cs ≡ some m
    → parse_from radix acc (cs ++ c ∷ []) ≡ parse_from radix (some m) (c ∷ [])
unfolding parse_from
parse_from-concat radix none cs c m h = cc
parse_from-concat radix (some a) [] c m h = ground (arith)
parse_from-concat radix (some a) (d ∷ cs) c m h =
    parse_from-concat radix (add_digit radix a (to_digit radix d)) cs c m h

parse_from-digit :
    (radix m d : ℕ)
    → radix ≤ 16
    → d < radix
    → m * radix + d < usize_mod
    → parse_from radix (some m) (digit d ∷ []) ≡ some (m * radix + d)
unfolding parse_from add_digit
parse_from-digit radix m d h k l =
    rw (to_digit-digit radix d h k, parse_from) (rw (lt→ltb _ _ l, parse_from) refl)

div_shrinks : (radix n f : ℕ) → 2 ≤ radix → radix ≤ n → n < suc f → n / radix < f
div_shrinks radix n f h k l = grind arith

parse_from-show_from :
    (radix f n : ℕ)
    → 2 ≤ radix
    → radix ≤ 16
    → n < f
    → n < usize_mod
    → parse_from radix (some 0) (show_from f radix n) ≡ some n
unfolding show_from
parse_from-show_from radix zero n h k l m = absurd (omega arith)
parse_from-show_from radix (suc f) n h k l m = elim (Bool-cases (ltb n radix)) [
  | inl e ↦ rw e (parse_from-digit radix 0 n k (ltb→lt _ _ e) (omega arith) ∙ ap some (omega arith))
  | inr e ↦ rw e (
      parse_from-concat radix (some 0) (show_from f radix (n / radix)) (digit (n % radix))
        (n / radix)
        (parse_from-show_from radix f (n / radix) h k (div_shrinks radix n f h (ltb→ge _ _ e) l)
          (grind arith))
      ∙ parse_from-digit radix (n / radix) (n % radix) k (omega arith) (omega arith)
      ∙ ap some (omega arith))
]

-- The bytes of a printed number: digits and the letters `a` to `f`.
abbrev pub IsHexDigit : ℕ → Type 0
IsHexDigit c = (48 ≤ c) × (c < 103)

digit-IsHexDigit : (d : ℕ) → d < 16 → IsHexDigit (digit d)
unfolding digit
digit-IsHexDigit d h = ground arith

show_from-IsHexDigit :
    (radix f n : ℕ) → 0 < radix → radix ≤ 16 → All IsHexDigit (show_from f radix n)
unfolding show_from
show_from-IsHexDigit radix zero n h k = tt
show_from-IsHexDigit radix (suc f) n h k = elim (Bool-cases (ltb n radix)) [
  | inl e ↦ rw e (digit-IsHexDigit n (omega (arith, ltb→lt n radix e)), tt)
  | inr e ↦ rw e (
      All-append IsHexDigit (show_from f radix (n / radix)) (digit (n % radix) ∷ [])
        (show_from-IsHexDigit radix f (n / radix) h k)
        (digit-IsHexDigit (n % radix) (omega arith), tt))
]

pub show-IsHexDigit : (radix n : ℕ) → 0 < radix → radix ≤ 16 → All IsHexDigit (show radix n)
unfolding show
show-IsHexDigit radix n h k = show_from-IsHexDigit radix (suc n) n h k

concat-ne-nil : (xs : Bytes) (x : ℕ) → xs ++ x ∷ [] ≢ []
concat-ne-nil [] x e = cc
concat-ne-nil (y ∷ xs) x e = cc

pub show-ne-nil : (radix n : ℕ) → show radix n ≢ []
unfolding show show_from
show-ne-nil radix n = elim (Bool-cases (ltb n radix)) [
  | inl e ↦ rw e (λ p. cc)
  | inr e ↦ rw e (concat-ne-nil (show_from n radix (n / radix)) (digit (n % radix)))
]

parse_unsigned :
    (radix : ℕ) (cs : Bytes)
    → cs ≢ []
    → All IsHexDigit cs
    → parse radix cs ≡ parse_from radix (some 0) cs
unfolding parse
parse_unsigned radix [] h k = absurd (h refl)
parse_unsigned radix (c ∷ []) h k = refl
parse_unsigned radix (c ∷ (d ∷ ds)) h k = ground arith

-- Every `usize` is read back from its digits in a radix from 2 to 16.
pub parse-show :
    (radix n : ℕ) → 2 ≤ radix → radix ≤ 16 → n < usize_mod → parse radix (show radix n) ≡ some n
parse-show radix n h k l =
    parse_unsigned radix (show radix n) (show-ne-nil radix n)
      (show-IsHexDigit radix n (omega arith) k)
    ∙ unfold show in parse_from-show_from radix (suc n) n h k (omega arith) l
