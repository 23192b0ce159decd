-- ===== src/Tests/StaticFiles.antt =====
-- Requests for files at concrete inputs.
use jequi.Prelude.{
  ◌≡◌, refl, some, List, [], ◌∷◌, ◌++◌, if◌then◌else◌, Bytes, codes, All, not_found, Result, ok,
  err,
}
use jequi.FilePath.{PathBuf, root_dir, normal, path_eq}
use jequi.Headers.{Header}
use jequi.Headers.Assoc.{assoc_ops}
use jequi.Message.Uri.{Uri}
use jequi.Message.Request
use jequi.Message.Request.{Request}
use jequi.Message.Response
use jequi.Message.Response.{Response}
use jequi.StaticFiles.Config
use jequi.StaticFiles.Config.{dir}
use jequi.StaticFiles.Handle.{final_path}
use jequi.StaticFiles.Traversal.{Stays, final_path-Stays}

abbrev srv_www : PathBuf
srv_www = root_dir ∷ normal (codes "www") ∷ []

abbrev www : Config.Config
www = record Config.default {
  static_files_path = some (dir srv_www);
  config_path = some (codes "/files");
}

abbrev evil_uri : Uri
evil_uri = record { text = codes "/files/../../a/..//etc/x.txt?q" }

final_path-Stays_example :
    (rest : PathBuf) × (final_path www evil_uri ≡ ok (srv_www ++ rest)) × All Stays rest
final_path-Stays_example = final_path-Stays www evil_uri srv_www refl

abbrev one_file : PathBuf → Result Bytes
one_file p =
    if path_eq p
      (root_dir ∷ normal (codes "www") ∷ (normal (codes "etc") ∷ normal (codes "x.txt") ∷ []))
    then ok (codes "text")
    else err not_found

abbrev evil_request : Request (List Header)
evil_request = record Request.new { uri = evil_uri }
