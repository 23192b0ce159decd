-- ===== src/Http1/Chunks/Decode.antt =====
-- A reader of the chunked coding gets back the body that was written in chunks.
use jequi.Prelude.{
  ℕ, zero, suc, ◌<◌, ◌≡◌, refl, false, ◌&&◌, Option, none, some, List, [], ◌∷◌, ◌++◌, append_assoc,
  arith, ◌==◌, if◌then◌else◌, Bytes, codes, length, take, drop, take-length_append,
  drop-length_append, All,
}
use jequi.Text.Split.{before, after, Lacks, before_of_Lacks, after_of_Lacks}
use jequi.Text.Numbers.{show, parse, usize_mod}
use jequi.Text.Numbers.RoundTrip.{parse-show, show-IsHexDigit, IsHexDigit}
use jequi.Http1.Chunks.{chunk_text, chunks_text, concat, IsChunk}

abbrev then_option : {A B : Type 0} → Option A → (A → Option B) → Option B
then_option none f = none
then_option (some a) f = f a

abbrev skip_crlf : Bytes → Option Bytes
skip_crlf (x ∷ (y ∷ ys)) = if x == b'\r' && y == b'\n' then some ys else none
skip_crlf _ = none

-- The size line of a chunk: the size, and what follows the line.
size_line : Bytes → Option (ℕ × Bytes)
size_line input = then_option (parse 16 (before b'\r' input)) λ n.
    then_option (after b'\r' input)
      λ rest. then_option (skip_crlf (b'\r' ∷ rest)) λ body. some (n, body)

after_chunk : ℕ → Bytes → Option (Bytes × Bytes) → Option (Bytes × Bytes)
after_chunk n body none = none
after_chunk n body (some (more, end)) = some (take n body ++ more, end)

-- A reader of the chunked coding of RFC 9112, with fuel: the body, and what follows it. The fuel
-- bounds the number of chunks.
pub dechunk : ℕ → Bytes → Option (Bytes × Bytes)
dechunk zero input = none
dechunk (suc fuel) input = then_option (size_line input) λ head.
    if head.0 == 0
    then then_option (skip_crlf head.1) (λ end. some ([], end))
    else then_option (skip_crlf (drop head.0 head.1))
        (λ rest. after_chunk head.0 head.1 (dechunk fuel rest))

hex-Lacks_return : (cs : Bytes) → All IsHexDigit cs → Lacks b'\r' cs
hex-Lacks_return [] h = tt
hex-Lacks_return (c ∷ cs) (p, h) = (omega arith, hex-Lacks_return cs h)

chunk_text_lem :
    (c rest : Bytes)
    → chunk_text c ++ rest
      ≡ show 16 (length c) ++ (b'\r' ∷ (b'\n' ∷ (c ++ (b'\r' ∷ (b'\n' ∷ rest)))))
unfolding chunk_text
chunk_text_lem c rest = simp append_assoc

size_line-show :
    (n : ℕ) (rest : Bytes)
    → n < usize_mod
    → size_line (show 16 n ++ (b'\r' ∷ (b'\n' ∷ rest))) ≡ some (n, rest)
unfolding size_line
size_line-show n rest h =
    let lacks : Lacks b'\r' (show 16 n) =
      hex-Lacks_return (show 16 n) (show-IsHexDigit 16 n (omega arith) (omega arith)) in
    rw (before_of_Lacks b'\r' (show 16 n) (b'\n' ∷ rest) lacks) (
      rw (after_of_Lacks b'\r' (show 16 n) (b'\n' ∷ rest) lacks)
        (rw (parse-show 16 n (omega arith) (omega arith) h) refl))

dechunk_chunk :
    (fuel : ℕ) (c rest body end : Bytes)
    → 0 < length c
    → length c < usize_mod
    → dechunk fuel rest ≡ some (body, end)
    → dechunk (suc fuel) (chunk_text c ++ rest) ≡ some (c ++ body, end)
unfolding dechunk after_chunk
dechunk_chunk fuel c rest body end p h e = rw (chunk_text_lem c rest) (
    rw (size_line-show (length c) (c ++ (b'\r' ∷ (b'\n' ∷ rest))) h, dechunk)
      (rw (nonzero (length c) p) (
        rw (drop-length_append c (b'\r' ∷ (b'\n' ∷ rest)))
          (rw (e, after_chunk) (rw (take-length_append c (b'\r' ∷ (b'\n' ∷ rest))) refl)))))
  where
    nonzero : (n : ℕ) → 0 < n → (n == 0) ≡ false
    nonzero n lt = ground arith

-- Chunks that are not empty and shorter than 2^64, and the end mark, are read as the bytes of the
-- chunks.
pub dechunk-chunks_text :
    (n : ℕ) (cs : List Bytes) (end : Bytes)
    → n < usize_mod
    → All (IsChunk n) cs
    → dechunk (suc (length cs)) (chunks_text cs (codes "0\r\n\r\n" ++ end)) ≡ some (concat cs, end)
unfolding dechunk size_line
dechunk-chunks_text n [] end h k = unfold parse before after in refl
dechunk-chunks_text n (c ∷ cs) end h (p, k) =
    dechunk_chunk (suc (length cs)) c (chunks_text cs (codes "0\r\n\r\n" ++ end)) (concat cs) end
      p.0 (omega arith) (dechunk-chunks_text n cs end h k)
