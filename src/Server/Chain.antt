-- ===== src/Server/Chain.antt =====
-- The order in which plugins handle a request.
use jequi.Prelude.{◌≡◌, refl, sym, ap, ◌∙◌, ◌≢◌, List, [], ◌∷◌, ◌++◌, append-nil, ok}
use jequi.Message.Hijack.{PostRequestHandler, continue, exit, hijack_connection}
use jequi.Message.Request.{Request}
use jequi.Message.Response.{Response}
use jequi.Server.Plugin.{RequestHandler}
use jequi.Server.Handle.{default_status, run_handlers}

module _ {M H : Type 0} where
  -- The handlers `hs` take a request and a response to others, each letting the next one run.
  pub data PassesOn
      : List (RequestHandler M H) → Request M → Response M → Request M → Response M → Type 0 where
    here : {req : Request M} {resp : Response M} → PassesOn [] req resp req resp
    next :
        {h : RequestHandler M H} {hs : List (RequestHandler M H)} {req req' req'' : Request M}
        {resp resp' resp'' : Response M}
        → h req resp ≡ ok (req', resp', continue)
        → PassesOn hs req' resp' req'' resp''
        → PassesOn (h ∷ hs) req resp req'' resp''

  -- Handlers that pass a request on are followed by the others, on what they left.
  run_handlers-PassesOn :
      {hs : List (RequestHandler M H)} {req req' : Request M} {resp resp' : Response M}
      (rest : List (RequestHandler M H))
      → PassesOn hs req resp req' resp'
      → run_handlers (hs ++ rest) req resp ≡ run_handlers rest req' resp'
  unfolding run_handlers
  run_handlers-PassesOn rest here = refl
  run_handlers-PassesOn rest (next e p) = rw (e, run_handlers) (run_handlers-PassesOn rest p)

  run_handlers_first :
      (h : RequestHandler M H) (rest : List (RequestHandler M H)) (req r : Request M)
      (resp s : Response M) (post : PostRequestHandler H)
      → post ≢ continue
      → h req resp ≡ ok (r, s, post)
      → run_handlers (h ∷ rest) req resp ≡ ok (r, s, post)
  unfolding run_handlers
  run_handlers_first h rest req r resp s continue k e = absurd (k refl)
  run_handlers_first h rest req r resp s exit k e = rw (e, run_handlers) refl
  run_handlers_first h rest req r resp s (hijack_connection c) k e = rw (e, run_handlers) refl

  pub run_handlers_all :
      {hs : List (RequestHandler M H)} {req req' : Request M} {resp resp' : Response M}
      → PassesOn hs req resp req' resp'
      → run_handlers hs req resp ≡ ok (req', default_status resp', continue)
  unfolding run_handlers
  run_handlers_all {hs = hs} {req = req} {resp = resp} p =
      ap (λ l. run_handlers l req resp) (sym (append-nil hs)) ∙ run_handlers-PassesOn [] p

  -- If the handlers in front of one pass the request on and that one does not, its result is the
  -- result, whatever handlers stand behind it, and the status is left as it is.
  pub run_handlers_stop :
      {hs : List (RequestHandler M H)} {req req' : Request M} {resp resp' : Response M}
      (h : RequestHandler M H) (rest : List (RequestHandler M H)) (r : Request M) (s : Response M)
      (post : PostRequestHandler H)
      → PassesOn hs req resp req' resp'
      → post ≢ continue
      → h req' resp' ≡ ok (r, s, post)
      → run_handlers (hs ++ (h ∷ rest)) req resp ≡ ok (r, s, post)
  run_handlers_stop {req' = req'} {resp' = resp'} h rest r s post p k e =
      run_handlers-PassesOn (h ∷ rest) p ∙ run_handlers_first h rest req' r resp' s post k e
