-- ===== src/Http2/Response/Frames.antt =====
-- The data frames of a response carry its body, and the last of them, alone, ends the stream.
use jequi.Prelude.{
  ℕ, suc, ◌+◌, ◌-◌, ◌≤◌, ◌<◌, ◌≡◌, refl, ap, ◌∙◌, List, [], ◌∷◌, ◌++◌, arith, Bytes, length, All,
  ok,
}
use jequi.Http1.Chunks.{chunks, concat, IsChunk, concat-chunks, length-chunks, div_ceil}
use jequi.Http2.Frame.{data_frame, Http2Frame, new}
use jequi.Http2.Response.{end_stream_flag, chunk_frames, body_frames}

abbrev pub payloads : List Http2Frame → Bytes
payloads [] = []
payloads (f ∷ fs) = f.payload ++ payloads fs

-- The last frame, and no other, has the flag that ends the stream.
abbrev pub EndsOnce : List Http2Frame → Type 0
EndsOnce [] = ⊥
EndsOnce (f ∷ []) = f.flags ≡ end_stream_flag
EndsOnce (f ∷ (g ∷ gs)) = (f.flags ≡ 0) × EndsOnce (g ∷ gs)

abbrev pub IsDataFrame : ℕ → ℕ → Http2Frame → Type 0
IsDataFrame stream_id chunk_size f =
    (f.typ ≡ data_frame) × (f.stream_id ≡ stream_id) × (length f.payload ≤ chunk_size)

payloads-chunk_frames :
    (stream_id last i : ℕ) (cs : List Bytes)
    → payloads (chunk_frames stream_id last i cs) ≡ concat cs
unfolding chunk_frames new
payloads-chunk_frames stream_id last i [] = refl
payloads-chunk_frames stream_id last i (c ∷ cs) =
    ap (λ t. c ++ t) (payloads-chunk_frames stream_id last (suc i) cs)

chunk_frames-EndsOnce :
    (stream_id last i : ℕ) (cs : List Bytes)
    → i + length cs ≡ suc last
    → 0 < length cs
    → EndsOnce (chunk_frames stream_id last i cs)
unfolding chunk_frames new
chunk_frames-EndsOnce stream_id last i [] h k = absurd (omega arith)
chunk_frames-EndsOnce stream_id last i (c ∷ []) h k = ground arith
chunk_frames-EndsOnce stream_id last i (c ∷ (d ∷ ds)) h k = (
  ground arith,
  chunk_frames-EndsOnce stream_id last (suc i) (d ∷ ds) (omega arith) (omega arith),
)

chunk_frames-IsDataFrame :
    (stream_id last i n : ℕ) (cs : List Bytes)
    → All (IsChunk n) cs
    → All (IsDataFrame stream_id n) (chunk_frames stream_id last i cs)
unfolding chunk_frames new
chunk_frames-IsDataFrame stream_id last i n [] h = tt
chunk_frames-IsDataFrame stream_id last i n (c ∷ cs) ((_, p), h) =
    ((refl, refl, p), chunk_frames-IsDataFrame stream_id last (suc i) n cs h)

div_ceil_pos : (n len : ℕ) → 0 < n → 0 < len → 0 < div_ceil len n
div_ceil_pos n len h k = grind arith

-- For a chunk size that is not 0 a response's body, empty or not, is sent in data frames of its
-- stream that hold at most the chunk size each and the body together; the last frame ends the
-- stream, and no other does.
pub body_frames-EndsOnce :
    (stream_id n : ℕ) (body : Bytes)
    → 0 < n
    → (fs : List Http2Frame) × (body_frames stream_id n body ≡ ok fs)
      × (payloads fs ≡ body)
      × EndsOnce fs
      × All (IsDataFrame stream_id n) fs
unfolding body_frames new
body_frames-EndsOnce stream_id n [] h = (_, refl, refl, refl, ((refl, refl, omega arith), tt))
body_frames-EndsOnce stream_id n (x ∷ xs) h =
    let cs = chunks n (x ∷ xs) in
    let last : ℕ = div_ceil (length (x ∷ xs)) n - 1 in
    let (whole, sizes) = concat-chunks n (x ∷ xs) h in
    let count = length-chunks n (x ∷ xs) h in
    let positive = div_ceil_pos n (length (x ∷ xs)) h (omega arith) in
    (
      chunk_frames stream_id last 0 cs,
      ground arith,
      payloads-chunk_frames stream_id last 0 cs ∙ whole,
      chunk_frames-EndsOnce stream_id last 0 cs (omega arith) (omega arith),
      chunk_frames-IsDataFrame stream_id last 0 n cs sizes,
    )
