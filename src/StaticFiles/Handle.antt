-- ===== src/StaticFiles/Handle.antt =====
-- `Config::handle_request` of plugins/jequi_serve_static/src/lib.rs.
use jequi.Prelude.{
  Option, none, some, [], ◌∷◌, ◌++◌, if◌then◌else◌, Bytes, codes, permission_denied, Result, ok,
  err, panic, ◌>>=◌,
}
use jequi.Text.{strip_prefix}
use jequi.Text.Trim.{trim_start_matches}
use jequi.FilePath.{Component, parent_dir, normal, PathBuf, components, push, pop}
use jequi.Headers.{HeaderOps}
use jequi.Message.Hijack.{PostRequestHandler, continue, exit}
use jequi.Message.Uri.{Uri, path}
use jequi.Message.Request.{Request}
use jequi.Message.Response.{Response, set_header}
use jequi.StaticFiles.Config.{Config, dir, file}
use jequi.StaticFiles.ContentType.{get_content_type_by_path}

-- One component of the request's path: `..` takes the last one back, and nothing at the top.
unfoldable pub step : PathBuf → Component → PathBuf
unfolding pop push
step file_path parent_dir = elim (pop file_path) [ none ↦ file_path | some parent ↦ parent ]
step file_path p = push file_path (p ∷ [])

unfoldable pub walk : PathBuf → PathBuf → PathBuf
unfolding step
walk file_path [] = file_path
walk file_path (p ∷ ps) = walk (step file_path p) ps

-- The part of the path that the configuration does not cover, with no slash in front.
unfoldable pub inner_path : Option Bytes → Bytes → Bytes
unfolding strip_prefix trim_start_matches
inner_path none text = trim_start_matches b'/' text
inner_path (some prefix) text = elim (strip_prefix prefix text) [
  | none ↦ trim_start_matches b'/' text
  | some rest ↦ trim_start_matches b'/' rest
]

abbrev pub or_index : PathBuf → PathBuf
or_index [] = normal (codes "index.html") ∷ []
or_index (c ∷ cs) = c ∷ cs

unfoldable pub final_path : Config → Uri → Result PathBuf
unfolding walk inner_path components path push
final_path conf uri = elim conf.static_files_path [
  | none ↦ panic
  | some (file file_path) ↦ ok (push [] file_path)
  | some (dir dir_path) ↦ ok (
      push (push [] dir_path)
        (or_index (walk [] (components (inner_path conf.config_path (path uri))))))
]

-- The page for what is not found, if there is one that can be read.
abbrev pub not_found_body : (PathBuf → Result Bytes) → Option PathBuf → Bytes
not_found_body fs_read none = []
not_found_body fs_read (some p) = elim (fs_read p) [
  | ok content ↦ content
  | err _ ↦ []
  | panic ↦ []
]

module _ {M : Type 0} ⦃ops : HeaderOps M⦄ (H : Type 0) (fs_read : PathBuf → Result Bytes) where
  unfoldable pub answer_found :
      Config → PathBuf → Response M → Result (Response M × PostRequestHandler H)
  answer_found conf p resp =
      if conf.infer_content_type
      then elim (get_content_type_by_path p) [
        | none ↦ ok (resp, continue)
        | some content_type ↦ (do
          (resp', _) ← set_header resp (codes "Content-Type") content_type
          ok (resp', continue))
      ]
      else ok (resp, continue)

  -- `match std::fs::read(&final_path)`
  unfoldable pub answer :
      Config → PathBuf → Result Bytes → Response M → Result (Response M × PostRequestHandler H)
  unfolding answer_found
  answer conf p (ok content) resp =
      answer_found conf p (record resp { status = 200; body_buffer = resp.body_buffer ++ content })
  answer conf p (err permission_denied) resp = ok (record resp { status = 403 }, exit)
  answer conf p (err _) resp = ok (
    record resp {
      status = 404;
      body_buffer = resp.body_buffer ++ not_found_body fs_read conf.not_found_file_path;
    },
    exit,
  )
  answer conf p panic resp = panic

  unfoldable pub handle_request :
      Config → Request M → Response M → Result (Response M × PostRequestHandler H)
  unfolding final_path answer
  handle_request conf req resp = do p ← final_path conf req.uri; answer conf p (fs_read p) resp
