-- ===== src/Tests/Proxy.antt =====
-- Requests for an upstream server at concrete inputs.
use jequi.Prelude.{ℕ, ◌≡◌, refl, Option, none, some, List, [], ◌∷◌, arith, Bytes, codes, Result, ok}
use jequi.Headers.{Header, known-IsValue}
use jequi.Headers.Assoc.{assoc_ops}
use jequi.Text.Split.{before}
use jequi.Message.Body
use jequi.Message.Hijack.{continue}
use jequi.Message.Uri.{path}
use jequi.Message.Request
use jequi.Message.Request.{Request}
use jequi.Message.Response
use jequi.Message.Response.{Response}
use jequi.Proxy.Config.{Config, address}
use jequi.Proxy.Handle.{functions, pick_address, handle_request}
use jequi.Proxy.Forward.{by_handler, here, next, handle_request-upstream}
use jequi.Proxy.Query.{outcome, handle_request_no_query}

abbrev M : Type 0
M = List Header

-- The first of the addresses is chosen.
abbrev first : List Bytes → Option Bytes
first [] = none
first (a ∷ as_list) = some a

-- A head is its path, which the upstream server sends back.
abbrev build_request : Bytes → Bytes → Bytes → Bytes → Option Bytes
build_request method scheme authority path = some path

abbrev echo : Bytes → M → Option Bytes → Result (ℕ × M × Bytes)
echo head headers body = ok (201, [], head)

abbrev search : Request M
search = record Request.new {
  uri = record { text = codes "/find?q" };
  body = (Body.write_body none Body.default).0;
}

-- One handler gives an address.
abbrev conf : Config M
conf = record {
  proxy_address = some (address (codes "http://a"));
  proxy_handlers = some (
      record { function = some (λ req resp. ok (req, resp, some (some (codes "http://b")))) } ∷ []);
}

handle_request-upstream_example :
    handle_request ℕ first build_request echo conf search Response.new
    ≡ ok (
      record search { headers = (codes "host", codes "b") ∷ [] },
      record Response.new { status = 201; headers = []; body_buffer = codes "/find" },
      continue,
    )
unfolding functions pick_address before path Body.write_body
handle_request-upstream_example =
    handle_request-upstream ℕ first build_request echo conf (some (some (codes "http://b")) ∷ [])
      search search Response.new Response.new (codes "http") (codes "b") (codes "/find") 201 []
      (codes "/find") (next refl here) (by_handler refl)
      (omega arith, (omega arith, (omega arith, (omega arith, tt))))
      (known-IsValue (codes "b") refl) refl refl refl

abbrev direct : Config M
direct = record { proxy_address = some (address (codes "a")); proxy_handlers = none }

handle_request_no_query_example :
    outcome (
      handle_request ℕ first build_request echo direct
        (record search { uri = record { text = codes "/find" } })
        Response.new)
    ≡ outcome (handle_request ℕ first build_request echo direct search Response.new)
unfolding path before
handle_request_no_query_example =
    handle_request_no_query ℕ first build_request echo direct search Response.new
      (record { text = codes "/find" }) refl refl
