-- ===== src/Http1/Write/Framing.antt =====
-- A client that follows the headers of a response gets its body back.
use jequi.Prelude.{
  ap, le→leb, ◌∙◌, ◌++◌, ◌<◌, List, append_assoc, take-length_append, drop-length_append,
  length-append, suc, ℕ, ◌≡◌, refl, Bool, true, false, Option, none, some, [], ◌∷◌, arith, leb,
  if◌then◌else◌, Bytes, codes, length, take, drop, All, ok,
}
use jequi.Text.{bytes_eq}
use jequi.Text.Numbers.{usize_mod, show, parse}
use jequi.Text.Numbers.RoundTrip.{parse-show, show-IsHexDigit, IsHexDigit}
use jequi.Text.Trim.{trim, to_lowercase}
use jequi.Headers.{IsSent, Header, HeaderOps, IsValue, known-IsName, known-IsValue}
use jequi.Message.Response.{Response, set_header, remove_header}
use jequi.Http1.Chunks.{concat-chunks}
use jequi.Http1.Chunks.Decode.{dechunk-chunks_text, dechunk}
use jequi.Http1.Write.{chunks, body_text, chunks_text, print_headers, set_framing}

take_exactly : Option ℕ → Bytes → Option (Bytes × Bytes)
take_exactly none input = none
take_exactly (some n) input =
    if leb n (length input) then some (take n input, drop n input) else none

read_by : Option Bytes → Option Bytes → ℕ → Bytes → Option (Bytes × Bytes)
read_by (some coding) size fuel input =
    if bytes_eq coding (codes "chunked") then dechunk fuel input else none
read_by none none fuel input = none
read_by none (some text) fuel input = take_exactly (parse 10 text) input

-- The body of a response by RFC 9112: chunked if `transfer-encoding` says so, else as many bytes as
-- `content-length` says; and what follows it. The fuel bounds the number of chunks.
pub read_framed : {M : Type 0} ⦃ops : HeaderOps M⦄ → M → ℕ → Bytes → Option (Bytes × Bytes)
read_framed ⦃ops⦄ headers fuel input =
    read_by (ops.get headers (codes "transfer-encoding")) (ops.get headers (codes "content-length"))
      fuel input

hex_visible : (cs : Bytes) → All IsHexDigit cs → IsValue cs
hex_visible [] h = tt
hex_visible (c ∷ cs) (p, h) = (omega arith, hex_visible cs h)

te_name :
    (M : Type 0) ⦃ops : HeaderOps M⦄
    → ops.parse_name (to_lowercase (trim (codes "transfer-encoding")))
      ≡ some (codes "transfer-encoding")
unfolding to_lowercase trim
te_name M ⦃ops⦄ =
    ops.parse_name_lem (codes "transfer-encoding") (known-IsName (codes "transfer-encoding") refl)

cl_name :
    (M : Type 0) ⦃ops : HeaderOps M⦄
    → ops.parse_name (to_lowercase (trim (codes "content-length"))) ≡ some (codes "content-length")
unfolding to_lowercase trim
cl_name M ⦃ops⦄ =
    ops.parse_name_lem (codes "content-length") (known-IsName (codes "content-length") refl)

module _ {M : Type 0} ⦃ops : HeaderOps M⦄ where
  -- The headers after `set_framing`.
  abbrev pub framed_headers : Response M → Bool → M
  framed_headers r true =
      (ops.insert (ops.remove r.headers (codes "content-length")).0 (codes "transfer-encoding")
        (codes "chunked")).0
  framed_headers r false =
      (ops.insert (ops.remove r.headers (codes "transfer-encoding")).0 (codes "content-length")
        (show 10 (length r.body_buffer))).0

  abbrev pub framed : Response M → Bool → Response M
  framed r chunked = record r { headers = framed_headers r chunked }

  pub set_framing_lem :
      (r : Response M) (chunked : Bool) → set_framing r chunked ≡ ok (framed r chunked)
  unfolding set_framing set_header remove_header
  set_framing_lem r true = rw (cl_name M) (
      rw (te_name M)
        (rw (ops.parse_value_lem (codes "chunked") (known-IsValue (codes "chunked") refl)) refl))
  set_framing_lem r false = rw (te_name M) (
      rw (cl_name M) (
        rw
          (ops.parse_value_lem (show 10 (length r.body_buffer)) (
            hex_visible (show 10 (length r.body_buffer))
              (show-IsHexDigit 10 (length r.body_buffer) (omega arith) (omega arith))))
          refl))

-- What is printed of headers whose values are visible text, and what follows it.
abbrev pub headers_text : List Header → Bytes → Bytes
headers_text [] rest = rest
headers_text ((key, value) ∷ hs) rest =
    key ++ (codes ": " ++ (value ++ (b'\n' ∷ headers_text hs rest)))

pub headers_text-append :
    (hs : List Header) (rest more : Bytes)
    → headers_text hs rest ++ more ≡ headers_text hs (rest ++ more)
headers_text-append [] rest more = refl
headers_text-append ((key, value) ∷ hs) rest more =
    simp (append_assoc, headers_text-append hs rest more)

pub print_headers_lem :
    (M : Type 0) ⦃ops : HeaderOps M⦄ (hs : List Header) (rest : Bytes)
    → All IsSent hs
    → print_headers M hs rest ≡ ok (headers_text hs rest)
unfolding print_headers
print_headers_lem M [] rest h = refl
print_headers_lem M ⦃ops⦄ ((key, value) ∷ hs) rest ((_, v), h) =
    rw (ops.to_str_lem value v) (rw (print_headers_lem M hs rest h) refl)

take_exactly_append :
    (xs rest : Bytes) → take_exactly (some (length xs)) (xs ++ rest) ≡ some (xs, rest)
unfolding take_exactly
take_exactly_append xs rest =
    rw (le→leb (length xs) (length (xs ++ rest)) (omega (arith, length-append xs rest)))
      (rw (take-length_append xs rest, drop-length_append xs rest) refl)

chunks_text-append :
    (cs : List Bytes) (rest more : Bytes)
    → chunks_text cs rest ++ more ≡ chunks_text cs (rest ++ more)
chunks_text-append [] rest more = refl
chunks_text-append (c ∷ cs) rest more = simp (append_assoc, chunks_text-append cs rest more)

module _ {M : Type 0} ⦃ops : HeaderOps M⦄ where
  pub framed-IsSent :
      (r : Response M) (chunked : Bool)
      → All IsSent (ops.iter r.headers)
      → All IsSent (ops.iter (framed r chunked).headers)
  framed-IsSent r true h =
      ops.All-iter-insert IsSent (ops.remove r.headers (codes "content-length")).0
        (codes "transfer-encoding") (codes "chunked")
        (ops.All-iter-remove IsSent r.headers (codes "content-length") h)
        (known-IsName (codes "transfer-encoding") refl, known-IsValue (codes "chunked") refl)
  framed-IsSent r false h =
      ops.All-iter-insert IsSent (ops.remove r.headers (codes "transfer-encoding")).0
        (codes "content-length") (show 10 (length r.body_buffer))
        (ops.All-iter-remove IsSent r.headers (codes "transfer-encoding") h)
        (
          known-IsName (codes "content-length") refl,
          hex_visible (show 10 (length r.body_buffer))
              (show-IsHexDigit 10 (length r.body_buffer) (omega arith) (omega arith)),
        )

  -- The body as it is sent.
  abbrev pub sent_body : Response M → ℕ → Bool → Bytes
  sent_body r n true = chunks_text (chunks n r.body_buffer) (codes "0\r\n\r\n")
  sent_body r n false = r.body_buffer

  pub body_text_lem :
      (r : Response M) (n : ℕ) (chunked : Bool)
      → 0 < n
      → body_text chunked n r.body_buffer ≡ ok (sent_body r n chunked)
  unfolding body_text
  body_text_lem r n true h = ground arith
  body_text_lem r n false h = refl

  get-framed_chunked :
      (r : Response M)
      → ops.get (framed r true).headers (codes "transfer-encoding") ≡ some (codes "chunked")
  unfolding bytes_eq
  get-framed_chunked r =
      ops.get-insert (ops.remove r.headers (codes "content-length")).0 (codes "transfer-encoding")
        (codes "chunked") (codes "transfer-encoding")

  get-framed_sized :
      (r : Response M)
      → (ops.get (framed r false).headers (codes "transfer-encoding") ≡ none)
        × (ops.get (framed r false).headers (codes "content-length")
            ≡ some (show 10 (length r.body_buffer)))
  unfolding bytes_eq
  get-framed_sized r = (
    ops.get-insert (ops.remove r.headers (codes "transfer-encoding")).0 (codes "content-length")
          (show 10 (length r.body_buffer)) (codes "transfer-encoding")
        ∙ ops.get-remove r.headers (codes "transfer-encoding") (codes "transfer-encoding"),
    ops.get-insert (ops.remove r.headers (codes "transfer-encoding")).0 (codes "content-length")
        (show 10 (length r.body_buffer)) (codes "content-length"),
  )

  pub read_framed_lem :
      (r : Response M) (n : ℕ) (chunked : Bool) (rest : Bytes)
      → 0 < n
      → n < usize_mod
      → length r.body_buffer < usize_mod
      → read_framed
          (framed r chunked).headers
          (suc (length (chunks n r.body_buffer)))
          (sent_body r n chunked ++ rest)
        ≡ some (r.body_buffer, rest)
  unfolding read_framed read_by bytes_eq
  read_framed_lem r n true rest h k l = rw (get-framed_chunked r) (
      rw (chunks_text-append (chunks n r.body_buffer) (codes "0\r\n\r\n") rest) (
        dechunk-chunks_text n (chunks n r.body_buffer) rest k (concat-chunks n r.body_buffer h).1
        ∙ ap (λ t. some (t, rest)) (concat-chunks n r.body_buffer h).0))
  read_framed_lem r n false rest h k l = rw ((get-framed_sized r).0) (
      rw ((get-framed_sized r).1) (
        rw (parse-show 10 (length r.body_buffer) (omega arith) (omega arith) l)
          (take_exactly_append r.body_buffer rest)))
