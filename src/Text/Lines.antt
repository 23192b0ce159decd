-- ===== src/Text/Lines.antt =====
-- `str::lines`, and `splitn(2, …)` at a text.
use jequi.Prelude.{
  ℕ, ◌≡◌, refl, ◌≢◌, Option, none, some, List, [], ◌∷◌, ◌++◌, map, arith, ◌==◌, if◌then◌else◌,
  Bytes,
}
use jequi.Text.{strip_prefix, strip_prefix-append}
use jequi.Text.Split.{Lacks}

abbrev cons_line : ℕ → List Bytes → List Bytes
cons_line c [] = (c ∷ []) ∷ []
cons_line c (l ∷ ls) = (c ∷ l) ∷ ls

-- The lines of a text without their line feeds; no line stands behind the last line feed.
unfoldable pub raw_lines : Bytes → List Bytes
raw_lines [] = []
raw_lines (c ∷ cs) = if c == b'\n' then [] ∷ raw_lines cs else cons_line c (raw_lines cs)

-- A carriage return in front of a line feed belongs to the line break. (One at the end of the text
-- does not, but every use of a line trims it.)
unfoldable pub without_return : Bytes → Bytes
without_return [] = []
without_return (c ∷ []) = if c == b'\r' then [] else c ∷ []
without_return (c ∷ (d ∷ ds)) = c ∷ without_return (d ∷ ds)

unfoldable pub lines : Bytes → List Bytes
unfolding raw_lines without_return
lines text = map without_return (raw_lines text)

-- The parts of a text in front of and behind the first occurrence of another that is not empty.
unfoldable pub split_text : Bytes → Bytes → Option (Bytes × Bytes)
unfolding strip_prefix
split_text sep [] = none
split_text sep (x ∷ xs) = elim (strip_prefix sep (x ∷ xs)) [
  | some rest ↦ some ([], rest)
  | none ↦ elim (split_text sep xs) [ none ↦ none | some (a, b) ↦ some (x ∷ a, b) ]
]

strip_prefix_ne : (c x : ℕ) (sep ys : Bytes) → x ≢ c → strip_prefix (c ∷ sep) (x ∷ ys) ≡ none
unfolding strip_prefix
strip_prefix_ne c x sep ys h = ground arith

-- A text is split behind a part that lacks the separator's first byte.
pub split_text_of_Lacks :
    (c : ℕ) (sep xs ys : Bytes)
    → Lacks c xs
    → split_text (c ∷ sep) (xs ++ ((c ∷ sep) ++ ys)) ≡ some (xs, ys)
unfolding split_text
split_text_of_Lacks c sep [] ys h = rw (strip_prefix-append (c ∷ sep) ys, split_text) refl
split_text_of_Lacks c sep (x ∷ xs) ys (p, h) =
    rw (strip_prefix_ne c x sep (xs ++ ((c ∷ sep) ++ ys)) p, split_text)
      (rw (split_text_of_Lacks c sep xs ys h) refl)
