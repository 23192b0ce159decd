-- ===== src/Text.antt =====
-- The functions of Rust's `str` and `[u8]` that the program calls. A text is the list of its UTF-8
-- bytes; every delimiter that the program splits at is ASCII, so splitting by bytes is splitting by
-- characters.
pub mod Lines
pub mod Split
pub mod Trim
pub mod Lossy
pub mod Numbers
use jequi.Prelude.{
  ℕ, ◌+◌, ◌≡◌, refl, subst, ◌↔◌, Bool, true, false, ◌&&◌, ◌||◌, Option, none, some, [], ◌∷◌, ◌++◌,
  arith, Bytes, ◌==◌, if◌then◌else◌,
}

unfoldable pub bytes_eq : Bytes → Bytes → Bool
bytes_eq [] [] = true
bytes_eq (x ∷ xs) (y ∷ ys) = x == y && bytes_eq xs ys
bytes_eq _ _ = false

pub bytes_eq_refl : (xs : Bytes) → bytes_eq xs xs ≡ true
unfolding bytes_eq
bytes_eq_refl [] = refl
bytes_eq_refl (x ∷ xs) = ground (arith, bytes_eq_refl xs)

pub bytes_eq-eq : (xs ys : Bytes) → bytes_eq xs ys ≡ true → xs ≡ ys
unfolding bytes_eq
bytes_eq-eq [] [] h = refl
bytes_eq-eq [] (y ∷ ys) h = cc
bytes_eq-eq (x ∷ xs) [] h = cc
bytes_eq-eq (x ∷ xs) (y ∷ ys) h = ground (arith, bytes_eq-eq xs ys)

pub bytes_eq_iff : (xs ys : Bytes) → (bytes_eq xs ys ≡ true) ↔ (xs ≡ ys)
bytes_eq_iff xs ys =
    (bytes_eq-eq xs ys, λ e. subst (λ z. bytes_eq xs z ≡ true) e (bytes_eq_refl xs))

-- `str::strip_prefix`; the prefix stands first.
unfoldable pub strip_prefix : Bytes → Bytes → Option Bytes
strip_prefix [] ys = some ys
strip_prefix (x ∷ xs) [] = none
strip_prefix (x ∷ xs) (y ∷ ys) = if x == y then strip_prefix xs ys else none

-- `str::starts_with` at one byte
abbrev pub starts_with_byte : ℕ → Bytes → Bool
starts_with_byte c [] = false
starts_with_byte c (x ∷ xs) = x == c

-- `slice::starts_with`; the prefix stands first.
unfoldable pub starts_with : Bytes → Bytes → Bool
starts_with [] ys = true
starts_with (x ∷ xs) [] = false
starts_with (x ∷ xs) (y ∷ ys) = x == y && starts_with xs ys

-- `windows(w.len()).any(|window| window == w)` for a non-empty `w`
unfoldable pub has_window : Bytes → Bytes → Bool
unfolding starts_with
has_window w [] = false
has_window w (x ∷ xs) = starts_with w (x ∷ xs) || has_window w xs

pub strip_prefix-append : (xs ys : Bytes) → strip_prefix xs (xs ++ ys) ≡ some ys
unfolding strip_prefix
strip_prefix-append [] ys = refl
strip_prefix-append (x ∷ xs) ys = ground (arith, strip_prefix-append xs ys)
