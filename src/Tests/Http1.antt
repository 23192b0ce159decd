-- ===== src/Tests/Http1.antt =====
-- HTTP/1 connections at concrete inputs.
use jequi.Prelude.{
  ℕ, suc, ◌≡◌, refl, true, false, not, none, some, List, [], ◌∷◌, ◌++◌, arith, ltb, ◌==◌, Bytes,
  codes, length, all, All, unexpected_eof, ok, err,
}
use jequi.Headers.{IsSent, Header, known-IsName, known-IsValue}
use jequi.Headers.Assoc.{assoc_ops}
use jequi.Message.Body
use jequi.Message.Body.{ready, write_body}
use jequi.Message.Request
use jequi.Message.Response
use jequi.Message.Response.{Response}
use jequi.Http1.Read.{Http1Conn, parse_first_line, parse_headers}
use jequi.Http1.Heads.{Line, IsLine, lines_text, break_text, parse_headers-lines_text}
use jequi.Http1.FirstLine.{IsRequestLine, request_line, parse_first_line-request_line, IsAsciiText}
use jequi.Http1.ReadBody.{drive, drive_parts}
use jequi.Http1.Chunks.{chunks, chunks_text, concat, IsChunk, concat-chunks}
use jequi.Http1.Chunks.Decode.{dechunk, dechunk-chunks_text}
use jequi.Http1.Write.{write_response}
use jequi.Http1.Write.Framing.{read_framed, headers_text}
use jequi.Http1.Write.Sent.{status_line, write_response-read_framed, parse_headers-headers_text}
use jequi.Text.Trim.{trim_ascii_start, trim_ascii_end}
use jequi.Text.Split.{Lacks}
use jequi.Text.{bytes_eq}

abbrev M : Type 0
M = List Header

abbrev reading : Bytes → Http1Conn M
reading input = record {
  input = input;
  output = [];
  version = codes "HTTP/1.1";
  request = Request.new;
  response = Response.new;
}

abbrev get_line : Bytes
get_line =
    request_line false (codes "GET") (codes "/a") (codes "HTTP/1") (b'\r' ∷ []) (codes "more")

known_Lacks : (c : ℕ) (t : Bytes) → all (λ x. not (x == c)) t ≡ true → Lacks c t
known_Lacks c [] h = tt
known_Lacks c (x ∷ xs) h = ground (arith, known_Lacks c xs)

known-IsAsciiText : (t : Bytes) → all (λ c. ltb c 128) t ≡ true → IsAsciiText t
known-IsAsciiText [] h = tt
known-IsAsciiText (x ∷ xs) h = ground (arith, known-IsAsciiText xs)

is_get_line : IsRequestLine (codes "GET") (codes "/a") (codes "HTTP/1") (b'\r' ∷ [])
unfolding trim_ascii_start trim_ascii_end
is_get_line = record {
  method_word = (known_Lacks b' ' (codes "GET") refl, known-IsAsciiText (codes "GET") refl);
  uri_ne_nil = λ e. cc;
  uri_word =
      (known_Lacks b' ' (codes "/a") refl, known-IsAsciiText (codes "/a") refl, (refl, refl));
  version_text = (
    known_Lacks b'\n' (codes "HTTP/1") refl,
    known-IsAsciiText (codes "HTTP/1") refl,
    (refl, refl),
  );
  right_spaces = ((refl, tt), (omega arith, tt));
}

parse_first_line-request_line_example :
    parse_first_line (reading get_line)
    ≡ ok (record (reading (codes "more")) {
      version = codes "HTTP/1";
      request = record Request.new { method = codes "GET"; uri = record { text = codes "/a" } };
    })
parse_first_line-request_line_example =
    parse_first_line-request_line (reading get_line) false (codes "GET") (codes "/a")
      (codes "HTTP/1") (b'\r' ∷ []) (codes "more") is_get_line refl

abbrev host_line : Line
host_line = record { name = codes "Host"; left = b' ' ∷ []; value = codes "a"; right = b'\r' ∷ [] }

is_host_line : IsLine host_line
unfolding trim_ascii_start trim_ascii_end
is_host_line = record {
  name_ne_nil = λ e. cc;
  name_short = omega arith;
  name_tokens = (
    (refl, omega arith),
    ((refl, omega arith), ((refl, omega arith), ((refl, omega arith), tt))),
  );
  left_spaces = ((refl, tt), (omega arith, tt));
  value_visible = known-IsValue (codes "a") refl;
  value_trimmed = (refl, refl);
  right_spaces = ((refl, tt), (omega arith, tt));
}

parse_headers-lines_text_example :
    parse_headers (reading (lines_text (host_line ∷ []) (break_text true (codes "body"))))
    ≡ ok (record (reading (codes "body")) {
      request = record Request.new {
        host = some (codes "a");
        headers = (codes "host", codes "a") ∷ [];
      };
    })
unfolding bytes_eq
parse_headers-lines_text_example =
    parse_headers-lines_text
      (reading (lines_text (host_line ∷ []) (break_text true (codes "body")))) (host_line ∷ []) true
      (codes "body") (is_host_line, tt) refl

drive_parts_example : drive (ok 2) (codes "a" ∷ (codes "b" ∷ [])) [] Body.default ≡ record {
  unread = [];
  body = (write_body none Body.default).0;
  answer = ready (err unexpected_eof);
}
drive_parts_example =
    drive_parts 2 (codes "a" ∷ (codes "b" ∷ [])) Body.default (omega arith)
      (omega arith, (omega arith, tt))

concat-chunks_example :
    (concat (chunks 2 (codes "hello")) ≡ codes "hello") × All (IsChunk 2) (chunks 2 (codes "hello"))
concat-chunks_example = concat-chunks 2 (codes "hello") (omega arith)

dechunk-chunks_text_example :
    dechunk 3 (chunks_text (codes "ab" ∷ (codes "c" ∷ [])) (codes "0\r\n\r\n" ++ codes "more"))
    ≡ some (codes "abc", codes "more")
dechunk-chunks_text_example =
    dechunk-chunks_text 2 (codes "ab" ∷ (codes "c" ∷ [])) (codes "more") (omega arith)
      ((omega arith, omega arith), ((omega arith, omega arith), tt))

abbrev answering : Http1Conn M
answering = record (reading []) {
  response = record {
    status = 200;
    headers = (codes "server", codes "jequi") ∷ [];
    body_buffer = codes "hello";
  };
}

write_response-read_framed_example :
    (r : Response M) × (body : Bytes) × (write_response answering 2
      ≡ ok (record answering {
        response = r;
        output = status_line answering ++ headers_text r.headers (b'\n' ∷ body);
      }))
    × ((rest : Bytes)
        → read_framed r.headers (suc (length (chunks 2 (codes "hello")))) (body ++ rest)
          ≡ some (codes "hello", rest))
    × All IsSent r.headers
    × (r.status ≡ 200)
    × (r.body_buffer ≡ codes "hello")
write_response-read_framed_example =
    write_response-read_framed answering 2 (omega arith) (omega arith) (omega arith)
      ((known-IsName (codes "server") refl, known-IsValue (codes "jequi") refl), tt)

abbrev sent_headers : List Header
sent_headers = (codes "server", codes "jequi") ∷ []

parse_headers-headers_text_example :
    parse_headers (reading (headers_text sent_headers (b'\n' ∷ codes "body")))
    ≡ ok (record (reading (codes "body")) {
      request = record Request.new { headers = sent_headers };
    })
unfolding bytes_eq trim_ascii_end
parse_headers-headers_text_example =
    parse_headers-headers_text (reading (headers_text sent_headers (b'\n' ∷ codes "body")))
      sent_headers (codes "body")
      ((known-IsName (codes "server") refl, known-IsValue (codes "jequi") refl), tt)
      ((refl, refl), tt) refl
