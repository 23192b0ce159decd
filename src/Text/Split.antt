-- ===== src/Text/Split.antt =====
-- Splitting at the first occurrence of a byte: `splitn(2, c)`, `split(c).next()` and `read_until`.
use jequi.Prelude.{
  ℕ, ◌≡◌, ◌≢◌, refl, ap, Option, none, some, [], ◌∷◌, ◌++◌, arith, Bytes, ◌==◌, ==_refl,
  if◌then◌else◌, All, Bool-cases, inl, inr,
}

-- What stands before the first `c`: the whole text if there is none.
unfoldable pub before : ℕ → Bytes → Bytes
before c [] = []
before c (x ∷ xs) = if x == c then [] else x ∷ before c xs

-- What stands after the first `c`.
unfoldable pub after : ℕ → Bytes → Option Bytes
after c [] = none
after c (x ∷ xs) = if x == c then some xs else after c xs

-- `read_until(c)`: what it appends to its buffer, the delimiter included ...
unfoldable pub take_through : ℕ → Bytes → Bytes
take_through c [] = []
take_through c (x ∷ xs) = if x == c then c ∷ [] else x ∷ take_through c xs

-- ... and what is left of the stream.
unfoldable pub drop_through : ℕ → Bytes → Bytes
drop_through c [] = []
drop_through c (x ∷ xs) = if x == c then xs else drop_through c xs

-- No byte of the list is `c`.
abbrev pub Lacks : ℕ → Bytes → Type 0
Lacks c = All (λ x. x ≢ c)

pub before-Lacks : (c : ℕ) (xs : Bytes) → Lacks c (before c xs)
unfolding before
before-Lacks c [] = tt
before-Lacks c (x ∷ xs) = elim (Bool-cases (x == c)) [
  | inl e ↦ rw e tt
  | inr e ↦ rw e (ground arith, before-Lacks c xs)
]

abbrev pub joined : ℕ → Bytes → Option Bytes → Bytes
joined c xs none = xs
joined c xs (some ys) = xs ++ c ∷ ys

-- The two parts and the delimiter make up the text.
pub joined-before-after : (c : ℕ) (xs : Bytes) → joined c (before c xs) (after c xs) ≡ xs
unfolding before after
joined-before-after c [] = refl
joined-before-after c (x ∷ xs) = elim (Bool-cases (x == c)) [
  | inl e ↦ rw e (ground arith)
  | inr e ↦ rw e (cons (after c xs) (joined-before-after c xs))
]
  where
    cons :
        (o : Option Bytes) → joined c (before c xs) o ≡ xs → joined c (x ∷ before c xs) o ≡ x ∷ xs
    cons none h = ap (λ t. x ∷ t) h
    cons (some ys) h = ap (λ t. x ∷ t) h

pub before_of_Lacks : (c : ℕ) (xs ys : Bytes) → Lacks c xs → before c (xs ++ c ∷ ys) ≡ xs
unfolding before
before_of_Lacks c [] ys h = rw ==_refl refl
before_of_Lacks c (x ∷ xs) ys (p, h) = ground (arith, before_of_Lacks c xs ys h)

pub after_of_Lacks : (c : ℕ) (xs ys : Bytes) → Lacks c xs → after c (xs ++ c ∷ ys) ≡ some ys
unfolding after
after_of_Lacks c [] ys h = rw ==_refl refl
after_of_Lacks c (x ∷ xs) ys (p, h) = ground (arith, after_of_Lacks c xs ys h)

pub before_whole : (c : ℕ) (xs : Bytes) → Lacks c xs → before c xs ≡ xs
unfolding before
before_whole c [] h = refl
before_whole c (x ∷ xs) (p, h) = ground (arith, before_whole c xs h)

pub after-none : (c : ℕ) (xs : Bytes) → Lacks c xs → after c xs ≡ none
unfolding after
after-none c [] h = refl
after-none c (x ∷ xs) (p, h) = ground (arith, after-none c xs h)

pub take_through_of_Lacks :
    (c : ℕ) (xs ys : Bytes) → Lacks c xs → take_through c (xs ++ c ∷ ys) ≡ xs ++ c ∷ []
unfolding take_through
take_through_of_Lacks c [] ys h = rw ==_refl refl
take_through_of_Lacks c (x ∷ xs) ys (p, h) = ground (arith, take_through_of_Lacks c xs ys h)

pub drop_through_of_Lacks :
    (c : ℕ) (xs ys : Bytes) → Lacks c xs → drop_through c (xs ++ c ∷ ys) ≡ ys
unfolding drop_through
drop_through_of_Lacks c [] ys h = rw ==_refl refl
drop_through_of_Lacks c (x ∷ xs) ys (p, h) = ground (arith, drop_through_of_Lacks c xs ys h)

-- What is read and what is left make up the stream.
pub take_through-append-drop_through :
    (c : ℕ) (xs : Bytes) → take_through c xs ++ drop_through c xs ≡ xs
unfolding take_through drop_through
take_through-append-drop_through c [] = refl
take_through-append-drop_through c (x ∷ xs) = ground (arith, take_through-append-drop_through c xs)
