-- ===== src/Http1/Write.antt =====
-- jequi/src/http1/write.rs. Writing to the connection does not fail here; what is written before a
-- panic is not kept.
pub mod Framing
pub mod Sent
use jequi.Prelude.{
  ℕ, ◌+◌, Bool, true, false, List, [], ◌∷◌, ◌++◌, ltb, ◌==◌, if◌then◌else◌, Bytes, codes, length,
  Result, ok, panic, ◌>>=◌, unwrap_option,
}
use jequi.Text.Numbers.{show}
use jequi.Headers.{Header, HeaderOps}
use jequi.Message.Response.{Response, set_header, remove_header}
use jequi.Http1.Read.{Http1Conn}
use jequi.Http1.Chunks.{chunks, chunks_text}

-- The loop over the headers: what it prints, in front of `rest`.
unfoldable pub print_headers : (M : Type 0) ⦃ops : HeaderOps M⦄ → List Header → Bytes → Result Bytes
print_headers M [] rest = ok rest
print_headers M ⦃ops⦄ ((key, value) ∷ hs) rest = do
  text ← unwrap_option (ops.to_str value)
  more ← print_headers M hs rest
  ok (key ++ (codes ": " ++ (text ++ (b'\n' ∷ more))))

-- `chunks` panics at size 0.
unfoldable pub body_text : Bool → ℕ → Bytes → Result Bytes
body_text false chunk_size body = ok body
body_text true chunk_size body =
    if chunk_size == 0 then panic else ok (chunks_text (chunks chunk_size body) (codes "0\r\n\r\n"))

module _ {M : Type 0} ⦃ops : HeaderOps M⦄ where
  -- The headers say how the body is sent.
  unfoldable pub set_framing : Response M → Bool → Result (Response M)
  set_framing r true = do
    (r₁, _) ← remove_header r (codes "content-length")
    (r₂, _) ← set_header r₁ (codes "transfer-encoding") (codes "chunked")
    ok r₂
  set_framing r false = do
    (r₁, _) ← remove_header r (codes "transfer-encoding")
    (r₂, _) ← set_header r₁ (codes "content-length") (show 10 (length r.body_buffer))
    ok r₂

  unfoldable pub write_response : Http1Conn M → ℕ → Result (Http1Conn M)
  write_response c chunk_size = do
    let status_line = c.version ++ (b' ' ∷ (show 10 c.response.status ++ (b'\n' ∷ [])))
    let chunked = ltb chunk_size (length c.response.body_buffer)
    response ← set_framing c.response chunked
    headers ← print_headers M (ops.iter response.headers) (b'\n' ∷ [])
    body ← body_text chunked chunk_size response.body_buffer
    ok (record c { response = response; output = c.output ++ (status_line ++ (headers ++ body)) })
