-- ===== src/Proxy/Query.antt =====
-- The query of a request does not reach the upstream server.
use jequi.Prelude.{arith, ℕ, ◌≡◌, Option, none, List, Bytes, Result, ok, err, panic}
use jequi.Headers.{HeaderOps}
use jequi.Message.Body
use jequi.Message.Hijack.{PostRequestHandler}
use jequi.Message.Uri.{Uri, path}
use jequi.Message.Request.{Request}
use jequi.Message.Response.{Response}
use jequi.Proxy.Config.{Config}
use jequi.Proxy.Handle.{forward, await_body, handle_request, functions, run_proxy_handlers}

-- What a client sees of a handled request.
abbrev pub outcome :
    {M H : Type 0}
    → Result (Request M × Response M × PostRequestHandler H)
    → Result (Response M × PostRequestHandler H)
outcome (ok (req, resp, post)) = ok (resp, post)
outcome (err e) = err e
outcome panic = panic

module _ {M R : Type 0} ⦃ops : HeaderOps M⦄ (H : Type 0) (choose : List Bytes → Option Bytes)
    (build_request : Bytes → Bytes → Bytes → Bytes → Option R)
    (upstream : R → M → Option Bytes → Result (ℕ × M × Bytes)) where
  forward_path :
      (target : Bytes) (req : Request M) (resp : Response M) (uri : Uri)
      → path uri ≡ path req.uri
      → outcome (forward H choose build_request upstream target (record req { uri = uri }) resp)
        ≡ outcome (forward H choose build_request upstream target req resp)
  unfolding forward await_body Body.poll
  forward_path target req resp uri h = rw (h, forward) (ground arith)

  -- Two requests that differ only behind the `?` of their targets have the same outcome if no other
  -- plugin handles them: the upstream server is sent the path alone.
  pub handle_request_no_query :
      (conf : Config M) (req : Request M) (resp : Response M) (uri : Uri)
      → conf.proxy_handlers ≡ none
      → path uri ≡ path req.uri
      → outcome
          (handle_request H choose build_request upstream conf (record req { uri = uri }) resp)
        ≡ outcome (handle_request H choose build_request upstream conf req resp)
  unfolding handle_request functions run_proxy_handlers
  handle_request_no_query conf req resp uri none_lem h =
      rw none_lem (ground (arith, λ (target : Bytes). forward_path target req resp uri h))
