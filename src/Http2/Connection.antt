-- ===== src/Http2/Connection.antt =====
-- The start of `Http2Conn::handle_connection` of jequi/src/http2/conn.rs.
use jequi.Prelude.{
  ℕ, ◌≡◌, refl, [], ◌++◌, arith, if◌then◌else◌, le→leb, Bytes, codes, length, length-append, Result,
  ok, panic, ◌>>=◌, unwrap,
}
use jequi.Text.{bytes_eq}
use jequi.Http1.Read.{read_exact}
use jequi.Http2.Frame.{settings, new, encode, encode_header, read_frame}

abbrev pub preface : Bytes
preface = codes "PRI * HTTP/2.0\r\n\r\nSM\r\n\r\n"

-- What is written up to the loop, and the input that is left for it.
unfoldable pub open_connection : Bytes → Result (Bytes × Bytes)
unfolding read_exact bytes_eq encode new
open_connection input = do
  (buf, rest) ← unwrap (read_exact 24 input)
  if bytes_eq buf preface
      then (do
        first ← encode (new settings 0 0 [])
        ack ← encode (new settings 1 0 [])
        ok (first ++ ack, rest))
      else panic

read_exact-preface : (rest : Bytes) → read_exact 24 (preface ++ rest) ≡ ok (preface, rest)
unfolding read_exact
read_exact-preface rest =
    rw (le→leb 24 (length (preface ++ rest)) (omega (arith, length-append preface rest))) refl

settings_bytes : ℕ → Bytes
settings_bytes flags = encode_header (new settings flags 0 [])

-- A client that starts with the preface is sent two frames, empty settings and their
-- acknowledgement, both of stream 0, and what follows the preface is left for the loop.
pub open_connection-preface :
    (rest : Bytes)
    → (out second : Bytes) × (open_connection (preface ++ rest) ≡ ok (out, rest))
      × (read_frame out ≡ ok (new settings 0 0 [], second))
      × (read_frame second ≡ ok (new settings 1 0 [], []))
unfolding open_connection read_frame bytes_eq settings_bytes encode_header new
open_connection-preface rest = (
  settings_bytes 0 ++ settings_bytes 1,
  settings_bytes 1,
  rw (read_exact-preface rest) refl,
  refl,
  refl,
)
