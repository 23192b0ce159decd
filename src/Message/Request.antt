-- ===== src/Message/Request.antt =====
-- `Request` of jequi/src/request.rs, over a header map `M`. `handle_request` is in Server/Handle.
use jequi.Prelude.{ℕ, Option, none, [], Bytes, codes, invalid_data, not_found, Result, ◌>>=◌, ok_or}
use jequi.Text.Numbers.{parse}
use jequi.Text.Trim.{trim, to_lowercase}
use jequi.Headers.{HeaderOps, get_str}
use jequi.Message.Body
use jequi.Message.Body.{RequestBody}
use jequi.Message.Uri.{Uri}

pub record Request (M : Type 0) : Type 0 where
  pub method : Bytes
  pub uri : Uri
  pub headers : M
  pub host : Option Bytes
  pub body : RequestBody

module _ {M : Type 0} ⦃ops : HeaderOps M⦄ where
  abbrev pub new : Request M
  new = record {
    method = [];
    uri = record { text = [] };
    headers = ops.empty;
    host = none;
    body = Body.default;
  }

  unfoldable pub get_header : Request M → Bytes → Option Bytes
  unfolding get_str
  get_header r header = get_str r.headers (trim (to_lowercase header))

  unfoldable pub get_content_length : Request M → Result ℕ
  unfolding get_header
  get_content_length r = do
    value ← ok_or (get_header r (codes "Content-Length")) not_found
    text ← ok_or (ops.to_str value) invalid_data
    ok_or (parse 10 text) invalid_data
