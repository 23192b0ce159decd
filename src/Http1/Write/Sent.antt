-- ===== src/Http1/Write/Sent.antt =====
-- What `write_response` sends, and how it is read.
use jequi.Text.Trim.{IsTrimmed}
use jequi.Prelude.{
  ◌∙◌, append-nil, false, arith, map, List, ℕ, suc, ◌<◌, ◌≡◌, refl, Bool, some, [], ◌∷◌, ◌++◌, ltb,
  Bytes, length, All, ok,
}
use jequi.Text.Numbers.{show, usize_mod}
use jequi.Headers.{IsSent, IsNameByte, Header, HeaderOps}
use jequi.Message.Response.{Response}
use jequi.Http1.Read.{parse_headers, Http1Conn}
use jequi.Http1.Heads.{
  parse_headers-lines_text, add_lines, break_text, IsLine, IsToken, lines_text, Line,
}
use jequi.Http1.Chunks.{chunks}
use jequi.Http1.Write.{write_response}
use jequi.Http1.Write.Framing.{
  framed_headers, read_framed, framed, sent_body, set_framing_lem, framed-IsSent, body_text_lem,
  read_framed_lem, headers_text, headers_text-append, print_headers_lem,
}

module _ {M : Type 0} ⦃ops : HeaderOps M⦄ where
  abbrev pub status_line : Http1Conn M → Bytes
  status_line c = c.version ++ (b' ' ∷ (show 10 c.response.status ++ (b'\n' ∷ [])))

  -- A response whose header names are lower-case letters, digits and `-` and whose header values are
  -- visible text is written, for any chunk size that is not 0 (both it and the body below 2^64
  -- bytes), as its status line, headers, an empty line and a body. By these headers, which are again
  -- of this form, a client reads the response's body from it and leaves what follows, whatever that is. The status and
  -- the body are kept.
  pub write_response-read_framed :
      (c : Http1Conn M) (n : ℕ)
      → 0 < n
      → n < usize_mod
      → length c.response.body_buffer < usize_mod
      → All IsSent (ops.iter c.response.headers)
      → (r : Response M) × (body : Bytes) × (write_response c n
          ≡ ok (record c {
            response = r;
            output =
                c.output ++ (status_line c ++ headers_text (ops.iter r.headers) (b'\n' ∷ body));
          }))
        × ((rest : Bytes)
            → read_framed r.headers (suc (length (chunks n c.response.body_buffer))) (body ++ rest)
              ≡ some (c.response.body_buffer, rest))
        × All IsSent (ops.iter r.headers)
        × (r.status ≡ c.response.status)
        × (r.body_buffer ≡ c.response.body_buffer)
  unfolding write_response
  write_response-read_framed c n h k l sent =
      let chunked : Bool = ltb n (length c.response.body_buffer) in
      (
        framed c.response chunked,
        sent_body c.response n chunked,
        rw (set_framing_lem c.response chunked) (
            rw
              (print_headers_lem M (ops.iter (framed c.response chunked).headers) (b'\n' ∷ [])
                (framed-IsSent c.response chunked sent))
              (rw (body_text_lem c.response n chunked h) (
                rw
                  (headers_text-append (ops.iter (framed_headers c.response chunked)) (b'\n' ∷ [])
                    (sent_body c.response n chunked))
                  refl))),
        λ rest. read_framed_lem c.response n chunked rest h k l,
        framed-IsSent c.response chunked sent,
        refl,
        refl,
      )

-- A header as the line that `write_response` prints for it.
abbrev pub sent_line : Header → Line
sent_line h = record { name = h.0; left = b' ' ∷ []; value = h.1; right = [] }

headers_text-lines_text :
    (hs : List Header) (rest : Bytes)
    → headers_text hs (b'\n' ∷ rest) ≡ lines_text (map sent_line hs) (break_text false rest)
headers_text-lines_text [] rest = refl
headers_text-lines_text ((key, value) ∷ hs) rest =
    simp (append-nil, headers_text-lines_text hs rest)

name_byte_lower : (c : ℕ) → IsNameByte c → IsToken c
name_byte_lower c h = ground arith

name_bytes_lower : (t : Bytes) → All IsNameByte t → All IsToken t
name_bytes_lower [] h = tt
name_bytes_lower (c ∷ cs) (p, h) = (name_byte_lower c p, name_bytes_lower cs h)

pub IsLine-sent_line :
    (hs : List Header) → All IsSent hs → All (λ h. IsTrimmed h.1) hs → All IsLine (map sent_line hs)
IsLine-sent_line [] h k = tt
IsLine-sent_line ((key, value) ∷ hs) ((p, v), h) (t, k) = (
  record {
    name_ne_nil = p.0;
    name_short = p.1;
    name_tokens = name_bytes_lower key p.2;
    left_spaces = ((refl, tt), (omega arith, tt));
    value_visible = v;
    value_trimmed = t;
    right_spaces = (tt, tt);
  },
  IsLine-sent_line hs h k,
)

module _ {M : Type 0} ⦃ops : HeaderOps M⦄ where
  -- The headers that `write_response` prints are read by `parse_headers` as the same headers, if
  -- their values have no spaces at their ends, and what follows the empty line is left unread.
  pub parse_headers-headers_text :
      (c : Http1Conn M) (hs : List Header) (rest : Bytes)
      → All IsSent hs
      → All (λ h. IsTrimmed h.1) hs
      → c.input ≡ headers_text hs (b'\n' ∷ rest)
      → parse_headers c
        ≡ ok (record c { input = rest; request = add_lines c.request (map sent_line hs) })
  parse_headers-headers_text c hs rest h k e =
      parse_headers-lines_text c (map sent_line hs) false rest (IsLine-sent_line hs h k)
        (e ∙ headers_text-lines_text hs rest)
