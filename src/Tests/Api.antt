-- ===== src/Tests/Api.antt =====
-- Calls of the C interface at concrete inputs.
use jequi.Prelude.{◌≡◌, refl, some, List, [], ◌∷◌, ◌++◌, arith, Bytes, codes, ok, panic}
use jequi.Headers.{Header, known-IsName, known-IsValue}
use jequi.Headers.Assoc.{assoc_ops}
use jequi.Text.Trim.{trim, to_lowercase}
use jequi.Message.Body
use jequi.Message.Request
use jequi.Message.Request.{Request}
use jequi.Message.Response
use jequi.Message.Response.{Response, get_header}
use jequi.Api.{get_request_body, set_response_header}
use jequi.Api.Strings.{get_request_body_zero, get_header-set_response_header}

abbrev M : Type 0
M = List Header

abbrev posted : Bytes → Request M
posted bytes = record Request.new { body = (Body.write_body (some bytes) Body.default).0 }

get_request_body_zero_example : get_request_body (posted (codes "ab" ++ (0 ∷ codes "c"))) ≡ panic
unfolding Body.write_body
get_request_body_zero_example =
    get_request_body_zero (posted (codes "ab" ++ (0 ∷ codes "c"))) (codes "ab") (codes "c") refl
      refl

get_header-set_response_header_example :
    (s : Response M) × (set_response_header Response.new
        (codes "Server" ++ (0 ∷ codes "junk"))
        (codes "go" ++ (0 ∷ []))
      ≡ ok s)
    × (get_header s (codes "SERVER ") ≡ some (codes "go"))
    × (s.status ≡ 0)
    × (s.body_buffer ≡ [])
unfolding trim to_lowercase
get_header-set_response_header_example =
    get_header-set_response_header Response.new (codes "Server") (codes "SERVER ") (codes "go")
      (codes "junk") []
      (omega arith, (omega arith, (omega arith, (omega arith, (omega arith, (omega arith, tt))))))
      (omega arith, (omega arith, (omega arith, (omega arith, (omega arith, (omega arith, tt))))))
      (known-IsName (codes "server") refl) refl (known-IsValue (codes "go") refl)
