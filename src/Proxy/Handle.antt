-- ===== src/Proxy/Handle.antt =====
-- `Config::handle_request` of the proxy plugin. `choose` is the random choice of an address (`rand`),
-- `build_request` the head of a request with a method, scheme, authority and path (`http`), and
-- `upstream` sends it with headers and a body (`hyper`) and gives the status, headers and body of
-- the answer. The source takes every failure of these as a panic.
use jequi.Prelude.{
  ℕ, Option, none, some, List, [], ◌∷◌, Bytes, codes, other, Result, ok, err, panic, ◌>>=◌, unwrap,
  unwrap_option,
}
use jequi.Headers.{HeaderOps}
use jequi.Message.Body
use jequi.Message.Body.{pending, ready}
use jequi.Message.Hijack.{PostRequestHandler, continue}
use jequi.Message.Uri.{path}
use jequi.Message.Request.{Request}
use jequi.Message.Response.{Response, write_body}
use jequi.Proxy.Config.{
  ProxyAddress, address, addresses, RequestProxyHandlerFn, RequestProxyHandler, Config,
  split_address,
}

-- The configured address, where no handler has given one.
unfoldable pub configured : (List Bytes → Option Bytes) → Option ProxyAddress → Result Bytes
configured choose none = panic
configured choose (some (address a)) = ok a
configured choose (some (addresses as_list)) = unwrap_option (choose as_list)

-- The address that is sent to.
unfoldable pub pick_address :
    (List Bytes → Option Bytes) → Option ProxyAddress → Option Bytes → Result Bytes
unfolding configured
pick_address choose as_configured (some a) = ok a
pick_address choose as_configured none = configured choose as_configured

-- What a handler's future says about the address so far.
abbrev pub later_address : Option (Option Bytes) → Option Bytes → Option Bytes
later_address none chosen = chosen
later_address (some none) chosen = chosen
later_address (some (some a)) chosen = some a

module _ {M : Type 0} where
  -- The handlers that are functions, in their order.
  unfoldable pub functions : List (RequestProxyHandler M) → List (RequestProxyHandlerFn M)
  functions [] = []
  functions (h ∷ hs) = elim h.function [ none ↦ functions hs | some f ↦ f ∷ functions hs ]

  abbrev pub handlers_of : Config M → List (RequestProxyHandler M)
  handlers_of conf = elim conf.proxy_handlers [ none ↦ [] | some hs ↦ hs ]

  -- The loop over the handlers.
  unfoldable pub run_proxy_handlers :
      List (RequestProxyHandlerFn M)
      → Request M
      → Response M
      → Option Bytes
      → Result (Request M × Response M × Option Bytes)
  run_proxy_handlers [] req resp chosen = ok (req, resp, chosen)
  run_proxy_handlers (h ∷ hs) req resp chosen = do
    (req', resp', answer) ← h req resp
    run_proxy_handlers hs req' resp' (later_address answer chosen)

  -- `get_body().await`, for a body that is written; a handler whose body is never written waits
  -- without end, for which the error stands here.
  unfoldable pub await_body : Request M → Result (Option Bytes)
  unfolding Body.poll
  await_body req = elim (Body.poll 0 req.body).1 [ pending ↦ err other | ready bytes ↦ ok bytes ]

module _ {M R : Type 0} ⦃ops : HeaderOps M⦄ (H : Type 0) (choose : List Bytes → Option Bytes)
    (build_request : Bytes → Bytes → Bytes → Bytes → Option R)
    (upstream : R → M → Option Bytes → Result (ℕ × M × Bytes)) where
  -- The request is sent on to an address, and the answer becomes the response.
  unfoldable pub forward :
      Bytes → Request M → Response M → Result (Request M × Response M × PostRequestHandler H)
  unfolding split_address await_body path
  forward proxy_address req resp = do
    let target = split_address proxy_address
    head ← unwrap_option (build_request req.method target.1 target.0 (path req.uri))
    host ← unwrap_option (ops.parse_value target.0)
    let req' = record req { headers = (ops.insert req.headers (codes "host") host).0 }
    body ← await_body req'
    (status, headers, content) ← unwrap (upstream head req'.headers body)
    resp' ← write_body (record resp { status = status; headers = headers }) content
    ok (req', resp', continue)

  unfoldable pub handle_request :
      Config M → Request M → Response M → Result (Request M × Response M × PostRequestHandler H)
  unfolding functions run_proxy_handlers pick_address forward
  handle_request conf req resp = do
    (req', resp', chosen) ← run_proxy_handlers (functions (handlers_of conf)) req resp none
    proxy_address ← pick_address choose conf.proxy_address chosen
    forward proxy_address req' resp'
