-- ===== src/Http1/Chunks.antt =====
-- `slice::chunks`, and the chunked coding of a body.
pub mod Decode
use jequi.Prelude.{
  ◌/◌, ◌-◌, ◌+◌, ℕ, zero, suc, ◌≤◌, ◌<◌, ◌≡◌, refl, ap, ◌∙◌, List, [], ◌∷◌, ◌++◌, arith, Bytes,
  codes, length, take, drop, take-append-drop, length-take, length-drop, All,
}
use jequi.Text.Numbers.{show}

-- `n` is the size that is asked for; a round takes a byte at least if it is not 0.
chunks_from : ℕ → ℕ → Bytes → List Bytes
chunks_from zero n xs = []
chunks_from (suc fuel) n [] = []
chunks_from (suc fuel) n (x ∷ xs) = take n (x ∷ xs) ∷ chunks_from fuel n (drop n (x ∷ xs))

unfoldable pub chunks : ℕ → Bytes → List Bytes
unfolding chunks_from
chunks n xs = chunks_from (length xs) n xs

abbrev pub concat : List Bytes → Bytes
concat [] = []
concat (x ∷ xs) = x ++ concat xs

abbrev pub IsChunk : ℕ → Bytes → Type 0
IsChunk n c = (0 < length c) × (length c ≤ n)

concat-chunks_from :
    (fuel n : ℕ) (xs : Bytes) → 0 < n → length xs ≤ fuel → concat (chunks_from fuel n xs) ≡ xs
unfolding chunks_from
concat-chunks_from zero n [] h k = refl
concat-chunks_from zero n (x ∷ xs) h k = absurd (omega arith)
concat-chunks_from (suc fuel) n [] h k = refl
concat-chunks_from (suc fuel) n (x ∷ xs) h k =
    ap (λ t. take n (x ∷ xs) ++ t)
      (concat-chunks_from fuel n (drop n (x ∷ xs)) h (omega (arith, length-drop n (x ∷ xs))))
    ∙ take-append-drop n (x ∷ xs)

chunks_from-IsChunk : (fuel n : ℕ) (xs : Bytes) → 0 < n → All (IsChunk n) (chunks_from fuel n xs)
unfolding chunks_from
chunks_from-IsChunk zero n xs h = tt
chunks_from-IsChunk (suc fuel) n [] h = tt
chunks_from-IsChunk (suc fuel) n (x ∷ xs) h =
    (omega (arith, length-take n (x ∷ xs)), chunks_from-IsChunk fuel n (drop n (x ∷ xs)) h)

-- For a size that is not 0 the chunks put together are the list, and none is empty or longer than
-- asked for.
pub concat-chunks :
    (n : ℕ) (xs : Bytes) → 0 < n → (concat (chunks n xs) ≡ xs) × All (IsChunk n) (chunks n xs)
unfolding chunks
concat-chunks n xs h =
    (concat-chunks_from (length xs) n xs h (omega arith), chunks_from-IsChunk (length xs) n xs h)

-- `usize::div_ceil`, for a divisor that is not 0
abbrev pub div_ceil : ℕ → ℕ → ℕ
div_ceil a b = (a + b - 1) / b

div_ceil_step : (n len : ℕ) → 0 < n → 0 < len → suc (div_ceil (len - n) n) ≡ div_ceil len n
div_ceil_step n len h k = grind arith

length-chunks_from :
    (fuel n : ℕ) (xs : Bytes)
    → 0 < n
    → length xs ≤ fuel
    → length (chunks_from fuel n xs) ≡ div_ceil (length xs) n
unfolding chunks_from
length-chunks_from zero n [] h k = grind arith
length-chunks_from zero n (x ∷ xs) h k = absurd (omega arith)
length-chunks_from (suc fuel) n [] h k = grind arith
length-chunks_from (suc fuel) n (x ∷ xs) h k =
    ap suc (
      length-chunks_from fuel n (drop n (x ∷ xs)) h (omega (arith, length-drop n (x ∷ xs)))
      ∙ ap (λ (l : ℕ). div_ceil l n) (length-drop n (x ∷ xs)))
    ∙ div_ceil_step n (length (x ∷ xs)) h (omega arith)

pub length-chunks : (n : ℕ) (xs : Bytes) → 0 < n → length (chunks n xs) ≡ div_ceil (length xs) n
unfolding chunks
length-chunks n xs h = length-chunks_from (length xs) n xs h (omega arith)

-- A chunk as `write_response` writes it.
unfoldable pub chunk_text : Bytes → Bytes
unfolding show
chunk_text chunk = show 16 (length chunk) ++ (codes "\r\n" ++ (chunk ++ codes "\r\n"))

abbrev pub chunks_text : List Bytes → Bytes → Bytes
chunks_text [] rest = rest
chunks_text (c ∷ cs) rest = chunk_text c ++ chunks_text cs rest
