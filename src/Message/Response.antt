-- ===== src/Message/Response.antt =====
-- jequi/src/response.rs, over a header map `M`.
pub mod Laws
use jequi.Prelude.{ℕ, ◌+◌, Option, [], ◌++◌, Bytes, Result, ok, ◌>>=◌, unwrap_option}
use jequi.Text.Trim.{trim, to_lowercase}
use jequi.Headers.{HeaderOps, get_str}

pub record Response (M : Type 0) : Type 0 where
  pub status : ℕ
  pub headers : M
  pub body_buffer : Bytes

module _ {M : Type 0} ⦃ops : HeaderOps M⦄ where
  abbrev pub new : Response M
  new = record { status = 0; headers = ops.empty; body_buffer = [] }

  -- The name and the value are parsed, and a refusal of either is a panic.
  unfoldable pub set_header : Response M → Bytes → Bytes → Result (Response M × Option Bytes)
  set_header r header value = do
    name ← unwrap_option (ops.parse_name (to_lowercase (trim header)))
    parsed ← unwrap_option (ops.parse_value value)
    ok (
      record r { headers = (ops.insert r.headers name parsed).0 },
      (ops.insert r.headers name parsed).1,
    )

  unfoldable pub remove_header : Response M → Bytes → Result (Response M × Option Bytes)
  remove_header r header = do
    name ← unwrap_option (ops.parse_name (to_lowercase (trim header)))
    ok (record r { headers = (ops.remove r.headers name).0 }, (ops.remove r.headers name).1)

  unfoldable pub get_header : Response M → Bytes → Option Bytes
  unfolding get_str
  get_header r header = get_str r.headers (trim (to_lowercase header))

abbrev pub write_body : {M : Type 0} → Response M → Bytes → Result (Response M)
write_body r bytes = ok (record r { body_buffer = r.body_buffer ++ bytes })
