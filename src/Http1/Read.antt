-- ===== src/Http1/Read.antt =====
-- jequi/src/http1/read.rs. `input` is what the peer sends until it closes, less what was read; a
-- read waits until enough of it has arrived, so when it arrives does not matter here (it does to
-- `ReadBody`). What was written to the connection is kept in `output`.
use jequi.Prelude.{
  ℕ, zero, suc, true, false, ◌||◌, some, [], ◌∷◌, ◌++◌, leb, ◌==◌, if◌then◌else◌, Bytes, codes,
  length, take, drop, is_empty, init, unexpected_eof, invalid_data, other, Result, ok, err, panic,
  ◌>>=◌, unwrap_option,
}
use jequi.Text.{bytes_eq}
use jequi.Text.Split.{take_through, drop_through}
use jequi.Text.Trim.{trim_ascii, trim_ascii_start, to_lowercase}
use jequi.Text.Lossy.{from_utf8_lossy}
use jequi.Headers.{HeaderOps}
use jequi.Message.Request.{Request}
use jequi.Message.Response.{Response}

pub record Http1Conn (M : Type 0) : Type 0 where
  pub input : Bytes
  pub output : Bytes
  pub version : Bytes
  pub request : Request M
  pub response : Response M

-- `read_u8`
unfoldable pub read_u8 : Bytes → Result (ℕ × Bytes)
read_u8 [] = err unexpected_eof
read_u8 (b ∷ bs) = ok (b, bs)

-- `read_exact`: the next `n` bytes, and what is left.
unfoldable pub read_exact : ℕ → Bytes → Result (Bytes × Bytes)
read_exact n input =
    if leb n (length input) then ok (take n input, drop n input) else err unexpected_eof

-- What is appended to the buffer, and what is left.
unfoldable pub read_until_handle_eof : ℕ → Bytes → Result (Bytes × Bytes)
unfolding take_through drop_through
read_until_handle_eof byte [] = err unexpected_eof
read_until_handle_eof byte (b ∷ bs) = ok (take_through byte (b ∷ bs), drop_through byte (b ∷ bs))

-- `while uri.is_empty() || uri == [b' ']`. Two rounds leave no such `uri`, and the third ends.
unfoldable pub read_uri : ℕ → Bytes → Bytes → Result (Bytes × Bytes)
read_uri zero uri input = err other
read_uri (suc fuel) uri input = elim (is_empty uri || bytes_eq uri (b' ' ∷ [])) [
  | false ↦ ok (uri, input)
  | true ↦ elim (read_until_handle_eof b' ' input) [
    | err e ↦ err e
    | panic ↦ panic
    | ok (more, rest) ↦ read_uri fuel (uri ++ more) rest
  ]
]

module _ {M : Type 0} ⦃ops : HeaderOps M⦄ where
  unfoldable pub parse_first_line : Http1Conn M → Result (Http1Conn M)
  parse_first_line c = do
    (method, input₁) ← read_until_handle_eof b' ' c.input
    (uri, input₂) ← read_uri 3 [] input₁
    (version, input₃) ← read_until_handle_eof b'\n' input₂
    let request = record c.request {
      method = from_utf8_lossy (init method);
      uri = record { text = from_utf8_lossy (trim_ascii uri) };
    }
    ok (record c {
      input = input₃;
      request = request;
      version = from_utf8_lossy (trim_ascii version);
    })

  -- The header line that starts with the byte `next`, after it was read.
  unfoldable pub parse_header : ℕ → Bytes → Request M → Result (Request M × Bytes)
  unfolding read_until_handle_eof from_utf8_lossy trim_ascii trim_ascii_start to_lowercase bytes_eq
  parse_header next input request = do
    (name, input₁) ← read_until_handle_eof b':' input
    (text, input₂) ← read_until_handle_eof b'\n' input₁
    let header = to_lowercase (from_utf8_lossy (trim_ascii_start (init (next ∷ name))))
    let value = from_utf8_lossy (trim_ascii (init text))
    key ← unwrap_option (ops.parse_name header)
    parsed ← unwrap_option (ops.parse_value value)
    ok (
      record request {
        host = if bytes_eq header (codes "host") then some value else request.host;
        headers = (ops.insert request.headers key parsed).0;
      },
      input₂,
    )

  -- The `loop`, with fuel: a round takes a byte at least.
  unfoldable pub parse_headers_from : ℕ → Bytes → Request M → Result (Request M × Bytes)
  unfolding read_u8 parse_header
  parse_headers_from zero input request = err other
  parse_headers_from (suc fuel) input request = elim (read_u8 input) [
    | err e ↦ err e
    | panic ↦ panic
    | ok (next, rest) ↦
        if next == b'\n'
        then ok (request, rest)
        else if next == b'\r'
        then (do
          (lf, rest') ← read_u8 rest
          if lf == b'\n' then ok (request, rest') else err invalid_data)
        else elim (parse_header next rest request) [
          | err e ↦ err e
          | panic ↦ panic
          | ok (request', rest') ↦ parse_headers_from fuel rest' request'
        ]
  ]

  unfoldable pub parse_headers : Http1Conn M → Result (Http1Conn M)
  unfolding parse_headers_from
  parse_headers c = do
    (request, rest) ← parse_headers_from (suc (length c.input)) c.input c.request
    ok (record c { input = rest; request = request })
