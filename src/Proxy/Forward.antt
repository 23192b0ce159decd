-- ===== src/Proxy/Forward.antt =====
-- Where a request is sent, with what, and what becomes of the answer.
use jequi.Prelude.{
  Option-cases, ℕ, ◌≡◌, refl, inl, inr, Option-cases, true, Option, none, some, List, [], ◌∷◌, ◌++◌,
  Bytes, codes, Result, ok,
}
use jequi.Text.Split.{Lacks}
use jequi.Text.Lines.{split_text_of_Lacks}
use jequi.Headers.{HeaderOps, IsValue}
use jequi.Message.Body
use jequi.Message.Hijack.{continue}
use jequi.Message.Uri.{path}
use jequi.Message.Request.{Request}
use jequi.Message.Response.{Response}
use jequi.Proxy.Config.{
  ProxyAddress, address, addresses, RequestProxyHandlerFn, Config, split_address,
}
use jequi.Proxy.Handle.{
  later_address, pick_address, await_body, functions, handlers_of, run_proxy_handlers, forward,
  handle_request,
}

pub split_address_scheme :
    (scheme authority : Bytes)
    → Lacks b':' scheme
    → split_address (scheme ++ (codes "://" ++ authority)) ≡ (authority, scheme)
unfolding split_address
split_address_scheme scheme authority h =
    rw (split_text_of_Lacks b':' (codes "//") scheme authority h, split_address) refl

abbrev pub or_else {ℓ} : {A : Type ℓ} → Option A → Option A → Option A
or_else none b = b
or_else (some a) b = some a

or_else-none {ℓ} : {A : Type ℓ} (a : Option A) → or_else a none ≡ a
or_else-none none = refl
or_else-none (some a) = refl

-- The last address among the answers of handlers.
abbrev pub last_address : List (Option (Option Bytes)) → Option Bytes
last_address [] = none
last_address (none ∷ answers) = last_address answers
last_address (some a ∷ answers) = or_else (last_address answers) a

or_else-later_address :
    (a : Option (Option Bytes)) (answers : List (Option (Option Bytes))) (chosen : Option Bytes)
    → or_else (last_address answers) (later_address a chosen)
      ≡ or_else (last_address (a ∷ answers)) chosen
or_else-later_address none answers chosen = refl
or_else-later_address (some none) answers chosen = elim (Option-cases (last_address answers)) [
  | inl e ↦ rw e refl
  | inr (b, e) ↦ rw e refl
]
or_else-later_address (some (some a)) answers chosen = elim (Option-cases (last_address answers)) [
  | inl e ↦ rw e refl
  | inr (b, e) ↦ rw e refl
]

module _ {M : Type 0} where
  -- The handlers take a request and a response to others, with these answers.
  pub data Runs
      : List (RequestProxyHandlerFn M)
        → List (Option (Option Bytes))
        → Request M
        → Response M
        → Request M
        → Response M
        → Type 0 where
    here : {req : Request M} {resp : Response M} → Runs [] [] req resp req resp
    next :
        {h : RequestProxyHandlerFn M} {hs : List (RequestProxyHandlerFn M)}
        {a : Option (Option Bytes)} {answers : List (Option (Option Bytes))}
        {req req' req'' : Request M} {resp resp' resp'' : Response M}
        → h req resp ≡ ok (req', resp', a)
        → Runs hs answers req' resp' req'' resp''
        → Runs (h ∷ hs) (a ∷ answers) req resp req'' resp''

  pub run_proxy_handlers-Runs :
      {hs : List (RequestProxyHandlerFn M)} {answers : List (Option (Option Bytes))}
      {req req' : Request M} {resp resp' : Response M} (chosen : Option Bytes)
      → Runs hs answers req resp req' resp'
      → run_proxy_handlers hs req resp chosen
        ≡ ok (req', resp', or_else (last_address answers) chosen)
  unfolding run_proxy_handlers
  run_proxy_handlers-Runs chosen here = refl
  run_proxy_handlers-Runs chosen (next {a = a} {answers = answers} e r) =
      rw (e, run_proxy_handlers)
        (rw (or_else-later_address a answers chosen) at
          (run_proxy_handlers-Runs (later_address a chosen) r))

-- Where a request is sent: to the last address that a handler gave, and only if none gave one to the
-- configured address, or to the one that is chosen from the configured list.
pub data SentTo (choose : List Bytes → Option Bytes)
    : Option ProxyAddress → List (Option (Option Bytes)) → Bytes → Type 0 where
  by_handler :
      {configured : Option ProxyAddress} {answers : List (Option (Option Bytes))} {a : Bytes}
      → last_address answers ≡ some a
      → SentTo choose configured answers a
  by_address :
      {answers : List (Option (Option Bytes))} {a : Bytes}
      → last_address answers ≡ none
      → SentTo choose (some (address a)) answers a
  by_choice :
      {answers : List (Option (Option Bytes))} {a : Bytes} (as_list : List Bytes)
      → last_address answers ≡ none
      → choose as_list ≡ some a
      → SentTo choose (some (addresses as_list)) answers a

pick_address-SentTo :
    (choose : List Bytes → Option Bytes) (configured : Option ProxyAddress)
    (answers : List (Option (Option Bytes))) (a : Bytes)
    → SentTo choose configured answers a
    → pick_address choose configured (last_address answers) ≡ ok a
unfolding pick_address
pick_address-SentTo choose configured answers a (by_handler e) = rw e refl
pick_address-SentTo choose (some (address _)) answers a (by_address e) = rw e refl
pick_address-SentTo choose (some (addresses _)) answers a (by_choice as_list e f) = rw e (rw f refl)

module _ {M R : Type 0} ⦃ops : HeaderOps M⦄ (H : Type 0) (choose : List Bytes → Option Bytes)
    (build_request : Bytes → Bytes → Bytes → Bytes → Option R)
    (upstream : R → M → Option Bytes → Result (ℕ × M × Bytes)) where
  forward_lem :
      (req : Request M) (resp : Response M) (scheme authority : Bytes) (head : R) (status : ℕ)
      (headers : M) (content : Bytes)
      → Lacks b':' scheme
      → IsValue authority
      → build_request req.method scheme authority (path req.uri) ≡ some head
      → req.body.is_written ≡ true
      → upstream head (ops.insert req.headers (codes "host") authority).0 req.body.bytes
        ≡ ok (status, headers, content)
      → forward H choose build_request upstream (scheme ++ (codes "://" ++ authority)) req resp
        ≡ ok (
          record req { headers = (ops.insert req.headers (codes "host") authority).0 },
          record resp {
            status = status;
            headers = headers;
            body_buffer = resp.body_buffer ++ content;
          },
          continue,
        )
  unfolding forward await_body Body.poll
  forward_lem req resp scheme authority head status headers content s v b w u =
      rw (split_address_scheme scheme authority s, forward)
        (rw b (rw (ops.parse_value_lem authority v) (rw w (rw u refl))))

  -- A request whose body is written is sent, after the handlers of other plugins, to the last
  -- address that one of these gave, and else to the configured one or the one chosen from the
  -- configured list, if it reads `scheme://authority`: with the path, the method, the headers with `host` set to the authority,
  -- and the body that the handlers left. The answer's status and headers replace the response's, its
  -- body is put behind the response's, and the next plugin runs.
  pub handle_request-upstream :
      (conf : Config M) (answers : List (Option (Option Bytes))) (req req' : Request M)
      (resp resp' : Response M) (scheme authority : Bytes) (head : R) (status : ℕ) (headers : M)
      (content : Bytes)
      → Runs (functions (handlers_of conf)) answers req resp req' resp'
      → SentTo choose conf.proxy_address answers (scheme ++ (codes "://" ++ authority))
      → Lacks b':' scheme
      → IsValue authority
      → build_request req'.method scheme authority (path req'.uri) ≡ some head
      → req'.body.is_written ≡ true
      → upstream head (ops.insert req'.headers (codes "host") authority).0 req'.body.bytes
        ≡ ok (status, headers, content)
      → handle_request H choose build_request upstream conf req resp
        ≡ ok (
          record req' { headers = (ops.insert req'.headers (codes "host") authority).0 },
          record resp' {
            status = status;
            headers = headers;
            body_buffer = resp'.body_buffer ++ content;
          },
          continue,
        )
  unfolding handle_request
  handle_request-upstream conf answers req req' resp resp' scheme authority head status headers
        content runs target s v b w u =
      rw (run_proxy_handlers-Runs none runs) (
        rw
          (
            or_else-none (last_address answers),
            pick_address-SentTo choose conf.proxy_address answers _ target,
          )
          (forward_lem req' resp' scheme authority head status headers content s v b w u))
