-- ===== src/Api.antt =====
-- The C interface of requests and responses for plugins in other languages: api/src/lib.rs. A pointer
-- to a C string is the memory from there on, which ends somewhere behind a zero byte. Null pointers,
-- which are refused by an assertion, are left out.
pub mod Strings
use jequi.Prelude.{
  ℕ, ◌+◌, ◌-◌, ◌^◌, Bool, false, ◌||◌, Option, none, some, [], ◌∷◌, ◌++◌, ltb, ◌==◌, if◌then◌else◌,
  Bytes, Result, ok, panic, ◌>>=◌, unwrap_option,
}
use jequi.Text.{bytes_eq}
use jequi.Text.Split.{before}
use jequi.Text.Lossy.{from_utf8_lossy}
use jequi.Headers.{HeaderOps}
use jequi.Message.Uri.{raw}
use jequi.Message.Request as Request
use jequi.Message.Request.{Request}
use jequi.Message.Response as Response
use jequi.Message.Response.{Response}
use jequi.Proxy.Handle.{await_body}

-- `CStr::from_ptr(…).to_bytes()`
unfoldable pub from_ptr : Bytes → Bytes
unfolding before
from_ptr memory = before 0 memory

-- `CStr::to_str`: a text that is no UTF-8 is one that `from_utf8_lossy` changes.
unfoldable pub to_str : Bytes → Option Bytes
unfolding from_utf8_lossy bytes_eq
to_str bytes = if bytes_eq (from_utf8_lossy bytes) bytes then some bytes else none

abbrev pub has_zero : Bytes → Bool
has_zero [] = false
has_zero (c ∷ cs) = c == 0 || has_zero cs

-- `CString::new(…).unwrap().into_raw()`: a zero byte inside is refused.
unfoldable pub into_raw : Bytes → Result Bytes
into_raw bytes = if has_zero bytes then panic else ok (bytes ++ (0 ∷ []))

-- The word of 64 bits for a C `int`, whose 32 bits are `n`.
unfoldable pub as_usize : ℕ → ℕ
as_usize n = if ltb n (2 ^ 31) then n else n + (2 ^ 64 - 2 ^ 32)

module _ {M : Type 0} where
  unfoldable pub set_response_status : Response M → ℕ → Response M
  unfolding as_usize
  set_response_status resp int = record resp { status = as_usize int }

  unfoldable pub write_response_body : Response M → Bytes → Result (Response M)
  unfolding from_ptr
  write_response_body resp string = Response.write_body resp (from_ptr string)

  unfoldable pub get_request_body : Request M → Result Bytes
  unfolding await_body into_raw
  get_request_body req = do
    body ← await_body req
    into_raw (elim body [ none ↦ [] | some bytes ↦ bytes ])

  unfoldable pub get_request_uri : Request M → Result Bytes
  unfolding into_raw
  get_request_uri req = into_raw (raw req.uri)

  unfoldable pub get_request_method : Request M → Result Bytes
  unfolding into_raw
  get_request_method req = into_raw req.method

module _ {M : Type 0} ⦃ops : HeaderOps M⦄ where
  unfoldable pub set_response_header : Response M → Bytes → Bytes → Result (Response M)
  unfolding from_ptr to_str Response.set_header
  set_response_header resp header value = do
    name ← unwrap_option (to_str (from_ptr header))
    text ← unwrap_option (to_str (from_ptr value))
    (resp', _) ← Response.set_header resp name text
    ok resp'

  unfoldable pub get_request_header : Request M → Bytes → Result Bytes
  unfolding from_ptr to_str into_raw Request.get_header
  get_request_header req header = do
    name ← unwrap_option (to_str (from_ptr header))
    value ← elim (Request.get_header req name) [
      | none ↦ ok []
      | some value ↦ unwrap_option (ops.to_str value)
    ]
    into_raw value
