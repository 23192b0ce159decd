-- ===== src/Tests/Whole.antt =====
-- A file that a client asks for over HTTP/1.
use jequi.Prelude.{
  ℕ, suc, ◌≡◌, refl, false, none, some, List, [], ◌∷◌, ◌++◌, arith, Bytes, codes, length, not_found,
  Result, ok, err,
}
use jequi.Http1.ReadBody.{at_once, nothing}
use jequi.Text.Numbers.{show}
use jequi.Headers.{Header, known-IsValue, first_value, get_str}
use jequi.Headers.Assoc.{assoc_ops}
use jequi.Text.Split.{before}
use jequi.Text.Trim.{trim, to_lowercase, trim_ascii_start, trim_ascii_end}
use jequi.FilePath.{PathBuf, root_dir, normal}
use jequi.Config.Select.{ConfigMap, get_config_for_request, host_scope, select_path}
use jequi.Message.Hijack.{continue}
use jequi.Message.Body
use jequi.Message.Body.{write_body}
use jequi.Message.Request
use jequi.Message.Request.{get_content_length}
use jequi.Message.Response
use jequi.Server.Plugin
use jequi.Server.Plugin.{Plugin, own, foreign}
use jequi.Server.Handle.{handlers}
use jequi.StaticFiles.Config
use jequi.StaticFiles.Config.{dir}
use jequi.StaticFiles.Handle.{final_path}
use jequi.StaticFiles.Plugin.{request_handler}
use jequi.Http1.Read.{Http1Conn}
use jequi.Http1.Heads.{lines_text, break_text}
use jequi.Http1.FirstLine.{IsRequestLine, request_line}
use jequi.Http1.Chunks.{chunks}
use jequi.Http1.Write.Framing.{headers_text, read_framed}
use jequi.Http1.Connection.{handle_request}
use jequi.WholeExchange.{handle_request-file}
use jequi.Maps.{nat_Eq}

abbrev M : Type 0
M = List Header

abbrev every_file : PathBuf → Result Bytes
every_file p = ok (codes "text")

abbrev www : Config.Config
www = record Config.default { static_files_path = some (dir (root_dir ∷ [])) }

abbrev no_file : PathBuf → Result Bytes
no_file p = err not_found

abbrev plugins_of : (PathBuf → Result Bytes) → List (Plugin M ℕ)
plugins_of fs_read =
    record { config = own Plugin.default; request_handler = none }
    ∷ (record { config = foreign 1; request_handler = some (request_handler fs_read www) } ∷ [])

abbrev map_of : (PathBuf → Result Bytes) → ConfigMap (List (Plugin M ℕ))
map_of fs_read = record { host = none; path = none; config = plugins_of fs_read }

abbrev asking : Http1Conn M
asking = record {
  input =
      request_line false (codes "G") (codes "/a") (codes "H") []
        (lines_text [] (break_text false (codes "next")));
  output = [];
  version = [];
  request = Request.new;
  response = Response.new;
}

is_line : IsRequestLine (codes "G") (codes "/a") (codes "H") []
unfolding trim_ascii_start trim_ascii_end
is_line = record {
  method_word = ((omega arith, tt), (omega arith, tt));
  uri_ne_nil = λ e. cc;
  uri_word = ((omega arith, (omega arith, tt)), (omega arith, (omega arith, tt)), (refl, refl));
  version_text = ((omega arith, tt), (omega arith, tt), (refl, refl));
  right_spaces = (tt, tt);
}

handle_request-file_example :
    (done : Http1Conn M) × (body : Bytes) × (handle_request
        (codes "now")
        (map_of every_file)
        3
        at_once
        asking
      ≡ ok (done, continue))
    × (done.input ≡ codes "next")
    × (done.request ≡ record Request.new {
      method = codes "G";
      uri = record { text = codes "/a" };
      body = (write_body none Body.default).0;
    })
    × (done.response.status ≡ 200)
    × (done.output
        ≡ []
          ++ ((codes "H" ++ (b' ' ∷ (show 10 200 ++ (b'\n' ∷ []))))
              ++ headers_text done.response.headers (b'\n' ∷ body)))
    × ((more : Bytes)
        → read_framed done.response.headers (suc (length (chunks 3 (codes "text")))) (body ++ more)
          ≡ some (codes "text", more))
unfolding get_content_length first_value get_str trim to_lowercase get_config_for_request host_scope
    select_path handlers final_path before
handle_request-file_example =
    handle_request-file (codes "now") (map_of every_file) every_file at_once 3 www
      (plugins_of every_file) asking false (codes "G") (codes "/a") (codes "H") [] [] false none
      (codes "next") (root_dir ∷ (normal (codes "a") ∷ [])) is_line tt refl (nothing refl)
      (nothing refl) (known-IsValue (codes "now") refl) tt refl refl refl refl (λ e. cc)
      (omega arith) (omega arith) (omega arith)
