-- ===== src/Server/Handle.antt =====
-- `Request::handle_request` of jequi/src/request.rs. `now` is the text of the date (`chrono`).
use jequi.Prelude.{
  none, some, List, [], ◌∷◌, ◌==◌, if◌then◌else◌, Bytes, codes, Result, ok, err, panic, ◌>>=◌,
  unwrap_option,
}
use jequi.Config.Select.{ConfigMap, get_config_for_request}
use jequi.Headers.{HeaderOps}
use jequi.Message.Hijack.{PostRequestHandler, continue, exit, hijack_connection}
use jequi.Message.Uri.{path}
use jequi.Message.Request.{Request}
use jequi.Message.Response.{Response, set_header}
use jequi.Server.Plugin.{Plugin, RequestHandler}

abbrev pub Handled : Type 0 → Type 0 → Type 0
Handled M H = Request M × Response M × PostRequestHandler H

-- A status that no plugin has set becomes 200.
abbrev pub default_status : {M : Type 0} → Response M → Response M
default_status r = record r { status = if r.status == 0 then 200 else r.status }

module _ {M H : Type 0} where
  -- `.map(|x| &x.request_handler.0).flat_map(|x| x)`
  unfoldable pub handlers : List (Plugin M H) → List (RequestHandler M H)
  handlers [] = []
  handlers (p ∷ ps) = elim p.request_handler [ none ↦ handlers ps | some h ↦ h ∷ handlers ps ]

  -- The loop over the handlers, and what follows it.
  unfoldable pub run_handlers :
      List (RequestHandler M H) → Request M → Response M → Result (Handled M H)
  run_handlers [] req resp = ok (req, default_status resp, continue)
  run_handlers (h ∷ hs) req resp = elim (h req resp) [
    | err e ↦ err e
    | panic ↦ panic
    | ok (req', resp', continue) ↦ run_handlers hs req' resp'
    | ok (req', resp', exit) ↦ ok (req', resp', exit)
    | ok (req', resp', hijack_connection c) ↦ ok (req', resp', hijack_connection c)
  ]

module _ {M H : Type 0} ⦃ops : HeaderOps M⦄ where
  unfoldable pub handle_request :
      Bytes → ConfigMap (List (Plugin M H)) → Request M → Response M → Result (Handled M H)
  unfolding run_handlers handlers get_config_for_request
  handle_request now config_map req resp = do
    (resp₁, _) ← set_header resp (codes "server") (codes "jequi")
    (resp₂, _) ← set_header resp₁ (codes "date") now
    config ← unwrap_option (get_config_for_request config_map req.host (some (path req.uri)))
    run_handlers (handlers config) req resp₂
