-- ===== src/Tests/Server.antt =====
-- The chain of handlers at concrete inputs.
use jequi.Prelude.{ℕ, ◌≡◌, refl, List, [], ◌∷◌, ◌++◌, Bytes, codes, ok}
use jequi.Headers.{Header}
use jequi.Headers.Assoc.{assoc_ops}
use jequi.Message.Hijack.{continue, exit}
use jequi.Message.Request
use jequi.Message.Request.{Request}
use jequi.Message.Response
use jequi.Message.Response.{Response}
use jequi.Server.Plugin.{RequestHandler}
use jequi.Server.Handle.{run_handlers}
use jequi.Server.Chain.{PassesOn, run_handlers_stop}

abbrev M : Type 0
M = List Header

abbrev empty_request : Request M
empty_request = Request.new

abbrev empty_response : Response M
empty_response = Response.new

abbrev says : Bytes → RequestHandler M ℕ
says bytes req resp = ok (req, record resp { body_buffer = resp.body_buffer ++ bytes }, continue)

abbrev forbids : RequestHandler M ℕ
forbids req resp = ok (req, record resp { status = 403 }, exit)

abbrev hello : Response M
hello = record empty_response { body_buffer = codes "hello" }

abbrev says_passes_on :
    PassesOn (says (codes "hello") ∷ []) empty_request empty_response empty_request hello
says_passes_on = PassesOn.next refl PassesOn.here

run_handlers_stop_example :
    run_handlers
      (says (codes "hello") ∷ [] ++ (forbids ∷ (says (codes "never") ∷ [])))
      empty_request
      empty_response
    ≡ ok (empty_request, record hello { status = 403 }, exit)
run_handlers_stop_example =
    run_handlers_stop forbids (says (codes "never") ∷ []) empty_request
      (record hello { status = 403 }) exit says_passes_on (λ e. cc) refl
