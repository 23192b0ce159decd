-- ===== src/WholeExchange/Answering.antt =====
-- A request that the plugin for static files alone answers, through the chain of handlers.
use jequi.Prelude.{
  ◌≡◌, refl, sym, subst, ◌∙◌, ◌≢◌, some, List, [], ◌∷◌, ◌++◌, Bytes, codes, All, Result, ok, err,
  panic,
}
use jequi.StaticFiles.Outcome.{
  expected_status, expected_next, expected_body, handle_request-Answers,
}
use jequi.Message.Hijack.{exit}
use jequi.Server.Plugin.{RequestHandler, Plugin}
use jequi.Server.Chain.{run_handlers_stop, here, next, run_handlers_all}
use jequi.Text.Trim.{trim, to_lowercase}
use jequi.FilePath.{PathBuf}
use jequi.Headers.{IsSent, IsName, IsValue, known-IsName, known-IsValue, HeaderOps}
use jequi.Config.Select.{ConfigMap, get_config_for_request}
use jequi.Message.Uri.{path}
use jequi.Message.Request.{Request}
use jequi.Message.Response.{Response, set_header}
use jequi.Server.Handle.{handlers, run_handlers, default_status}
use jequi.Server.Handle as Handle
use jequi.StaticFiles.Config.{Config}
use jequi.StaticFiles.Handle.{final_path}
use jequi.StaticFiles.Plugin.{request_handler}

module _ {M : Type 0} ⦃ops : HeaderOps M⦄ where
  -- A name that is written as the map has it.
  set_header_plain :
      (r : Response M) (h v : Bytes)
      → to_lowercase (trim h) ≡ h
      → IsName h
      → IsValue v
      → set_header r h v
        ≡ ok (record r { headers = (ops.insert r.headers h v).0 }, (ops.insert r.headers h v).1)
  unfolding set_header
  set_header_plain r h v same name value =
      rw same (rw (ops.parse_name_lem h name) (rw (ops.parse_value_lem v value) refl))

  -- The response that the handlers are given.
  abbrev pub with_server : Bytes → Response M → Response M
  with_server now r = record r {
    headers =
        (ops.insert (ops.insert r.headers (codes "server") (codes "jequi")).0 (codes "date") now).0;
  }

  IsSent-with_server :
      (now : Bytes) (r : Response M)
      → IsValue now
      → All IsSent (ops.iter r.headers)
      → All IsSent (ops.iter (with_server now r).headers)
  IsSent-with_server now r v h =
      ops.All-iter-insert IsSent (ops.insert r.headers (codes "server") (codes "jequi")).0
        (codes "date") now
        (ops.All-iter-insert IsSent r.headers (codes "server") (codes "jequi") h
          (known-IsName (codes "server") refl, known-IsValue (codes "jequi") refl))
        (known-IsName (codes "date") refl, v)

  module _ {H : Type 0} (now : Bytes) (config_map : ConfigMap (List (Plugin M H)))
      (fs_read : PathBuf → Result Bytes) where
    handle_request-handlers :
        (plugins : List (Plugin M H)) (req : Request M) (resp : Response M)
        → IsValue now
        → get_config_for_request config_map req.host (some (path req.uri)) ≡ some plugins
        → Handle.handle_request now config_map req resp
          ≡ run_handlers (handlers plugins) req (with_server now resp)
    unfolding Handle.handle_request trim to_lowercase
    handle_request-handlers plugins req resp date e =
        rw
          (set_header_plain resp (codes "server") (codes "jequi") refl
            (known-IsName (codes "server") refl) (known-IsValue (codes "jequi") refl))
          (rw
            (set_header_plain
              (record resp {
                headers = (ops.insert resp.headers (codes "server") (codes "jequi")).0;
              })
              (codes "date") now refl (known-IsName (codes "date") refl) date)
            (rw e refl))

    -- What the plugin for static files makes of a request.
    request_handler-Answers :
        (conf : Config) (req : Request M) (resp : Response M) (p : PathBuf)
        → All IsSent (ops.iter resp.headers)
        → final_path conf req.uri ≡ ok p
        → fs_read p ≢ panic
        → (r : Response M) × (request_handler {H = H} fs_read conf req resp
            ≡ ok (req, r, expected_next H (fs_read p)))
          × (r.status ≡ expected_status (fs_read p))
          × (r.body_buffer ≡ resp.body_buffer ++ expected_body fs_read conf (fs_read p))
          × All IsSent (ops.iter r.headers)
    request_handler-Answers conf req resp p sent f g =
        let (r, run, status, body, keeps) = handle_request-Answers H fs_read conf req resp p f g in
        (r, rw run refl, status, body, keeps sent)

    -- The chain of that handler alone.
    run_handlers_static :
        (found : Result Bytes) (h : RequestHandler M H) (req : Request M) (resp r : Response M)
        → h req resp ≡ ok (req, r, expected_next H found)
        → found ≢ panic
        → r.status ≡ expected_status found
        → (s : Response M) × (run_handlers (h ∷ []) req resp ≡ ok (req, s, expected_next H found))
          × (s.status ≡ expected_status found)
          × (s.body_buffer ≡ r.body_buffer)
          × (s.headers ≡ r.headers)
    run_handlers_static (ok content) h req resp r e k status =
        (default_status r, run_handlers_all (next e here), rw status refl, refl, refl)
    run_handlers_static (err why) h req resp r e k status =
        (r, run_handlers_stop h [] req r exit here (λ x. cc) e, status, refl, refl)
    run_handlers_static panic h req resp r e k status = absurd (k refl)

    pub handle_request-expected :
        (conf : Config) (plugins : List (Plugin M H)) (req : Request M) (resp : Response M)
        (p : PathBuf)
        → IsValue now
        → All IsSent (ops.iter resp.headers)
        → get_config_for_request config_map req.host (some (path req.uri)) ≡ some plugins
        → handlers plugins ≡ request_handler fs_read conf ∷ []
        → final_path conf req.uri ≡ ok p
        → fs_read p ≢ panic
        → (r : Response M) × (Handle.handle_request now config_map req resp
            ≡ ok (req, r, expected_next H (fs_read p)))
          × (r.status ≡ expected_status (fs_read p))
          × (r.body_buffer ≡ resp.body_buffer ++ expected_body fs_read conf (fs_read p))
          × All IsSent (ops.iter r.headers)
    handle_request-expected conf plugins req resp p date sent e hs f g =
        let (r, answered, status, body, headed) =
          request_handler-Answers conf req (with_server now resp) p
            (IsSent-with_server now resp date sent) f g in
        let (s, run, status', same_body, same_headers) =
          run_handlers_static (fs_read p) (request_handler fs_read conf) req (with_server now resp)
            r answered g status in
        (
          s,
          handle_request-handlers plugins req resp date e ∙ rw hs run,
          status',
          same_body ∙ body,
          subst (λ hs. All IsSent (ops.iter hs)) (sym same_headers) headed,
        )
