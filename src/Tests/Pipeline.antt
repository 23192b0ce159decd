-- ===== src/Tests/Pipeline.antt =====
-- Two files that a client asks for on one connection over HTTP/1.
use jequi.Prelude.{
  ap, ℕ, ◌≡◌, refl, true, false, none, some, List, [], ◌∷◌, arith, if◌then◌else◌, Bytes, codes, All,
  not_found, Result, ok, err,
}
use jequi.Headers.{Header, known-IsValue, first_value, get_str, known-IsName}
use jequi.Headers.Assoc.{assoc_ops}
use jequi.Text.Numbers.{parse}
use jequi.Text.Split.{before}
use jequi.Text.Trim.{trim, to_lowercase, trim_ascii_start, trim_ascii_end}
use jequi.FilePath.{PathBuf, root_dir, normal, path_eq}
use jequi.Config.Select.{ConfigMap, get_config_for_request, host_scope, select_path}
use jequi.Message.Hijack.{continue}
use jequi.Message.Request.{get_content_length}
use jequi.Server.Plugin
use jequi.Server.Plugin.{Plugin, own, foreign, get_jequi}
use jequi.Server.Handle.{handlers}
use jequi.StaticFiles.Config
use jequi.StaticFiles.Config.{dir}
use jequi.StaticFiles.Handle.{final_path}
use jequi.StaticFiles.Plugin.{request_handler}
use jequi.Http1.Read.{Http1Conn}
use jequi.Http1.ReadBody.{nothing, content}
use jequi.Http1.Chunks.{concat}
use jequi.Http1.Heads.{IsLine}
use jequi.Http1.Write.Sent.{sent_line, IsLine-sent_line}
use jequi.Http1.FirstLine.{IsRequestLine}
use jequi.Http1.Connection.{wants_keep_alive, handle_connection, new}
use jequi.WholeExchange.Pipeline.{handle_connection-Responses}
use jequi.WholeExchange.Asked.{Asked, asked_texts, IsForFile, Responses}

abbrev M : Type 0
M = List Header

-- One file is there.
abbrev files : PathBuf → Result Bytes
files p =
    if path_eq p (root_dir ∷ (normal (codes "a") ∷ [])) then ok (codes "text") else err not_found

abbrev www : Config.Config
www = record Config.default { static_files_path = some (dir (root_dir ∷ [])) }

abbrev plugins : List (Plugin M ℕ)
plugins =
    record { config = own Plugin.default; request_handler = none }
    ∷ (record { config = foreign 1; request_handler = some (request_handler files www) } ∷ [])

abbrev config_map : ConfigMap (List (Plugin M ℕ))
config_map = record { host = none; path = none; config = plugins }

abbrev first : Asked
first = record {
  padded = false;
  method = codes "G";
  uri = codes "/a";
  version = codes "H";
  right = [];
  lines = sent_line (codes "connection", codes "keep-alive") ∷ [];
  crlf = false;
  carried = none;
}

abbrev second : Asked
second = record {
  padded = true;
  method = codes "P";
  uri = codes "/b";
  version = codes "H";
  right = [];
  lines = sent_line (codes "content-length", codes "2") ∷ [];
  crlf = true;
  carried = some (codes "hi");
}

first_line : IsRequestLine (codes "G") (codes "/a") (codes "H") []
unfolding trim_ascii_start trim_ascii_end
first_line = record {
  method_word = ((omega arith, tt), (omega arith, tt));
  uri_ne_nil = λ e. cc;
  uri_word = ((omega arith, (omega arith, tt)), (omega arith, (omega arith, tt)), (refl, refl));
  version_text = ((omega arith, tt), (omega arith, tt), (refl, refl));
  right_spaces = (tt, tt);
}

second_line : IsRequestLine (codes "P") (codes "/b") (codes "H") []
unfolding trim_ascii_start trim_ascii_end
second_line = record {
  method_word = ((omega arith, tt), (omega arith, tt));
  uri_ne_nil = λ e. cc;
  uri_word = ((omega arith, (omega arith, tt)), (omega arith, (omega arith, tt)), (refl, refl));
  version_text = ((omega arith, tt), (omega arith, tt), (refl, refl));
  right_spaces = (tt, tt);
}

first_lines : All IsLine first.lines
unfolding trim_ascii_start trim_ascii_end
first_lines =
    IsLine-sent_line ((codes "connection", codes "keep-alive") ∷ [])
      ((known-IsName (codes "connection") refl, known-IsValue (codes "keep-alive") refl), tt)
      ((refl, refl), tt)

second_lines : All IsLine second.lines
unfolding trim_ascii_start trim_ascii_end
second_lines =
    IsLine-sent_line ((codes "content-length", codes "2") ∷ [])
      ((known-IsName (codes "content-length") refl, known-IsValue (codes "2") refl), tt)
      ((refl, refl), tt)

both_for_files :
    All (IsForFile (codes "now") config_map files Plugin.default.chunk_size) (first ∷ (second ∷ []))
unfolding get_config_for_request host_scope select_path handlers final_path before
    get_content_length first_value get_str trim to_lowercase parse path_eq
both_for_files = (
  record {
    conf = www;
    plugins = plugins;
    file = root_dir ∷ (normal (codes "a") ∷ []);
    line = first_line;
    heads = first_lines;
    content = nothing refl;
    chosen = refl;
    one = refl;
    target = refl;
    readable = λ e. cc;
    short = omega arith;
  },
  (
    record {
      conf = www;
      plugins = plugins;
      file = root_dir ∷ (normal (codes "b") ∷ []);
      line = second_line;
      heads = second_lines;
      content = content refl;
      chosen = refl;
      one = refl;
      target = refl;
      readable = λ e. cc;
      short = omega arith;
    },
    tt,
  ),
)

-- Input that comes by two bytes.
abbrev by_two : Bytes → List Bytes
by_two [] = []
by_two (x ∷ []) = (x ∷ []) ∷ []
by_two (x ∷ (y ∷ rest)) = (x ∷ (y ∷ [])) ∷ by_two rest

concat-by_two : (t : Bytes) → concat (by_two t) ≡ t
concat-by_two [] = refl
concat-by_two (x ∷ []) = refl
concat-by_two (x ∷ (y ∷ rest)) = ap (λ t. x ∷ (y ∷ t)) (concat-by_two rest)

handle_connection-Responses_example :
    (done : Http1Conn M) × (handle_connection
        (codes "now")
        config_map
        by_two
        1
        (new (asked_texts (first ∷ (second ∷ [])) (codes "next")))
      ≡ ok (done, continue))
    × (done.input ≡ codes "next")
    × Responses
        (codes "now")
        config_map
        files
        Plugin.default.chunk_size
        (first ∷ (second ∷ []))
        both_for_files
        done.output
unfolding get_jequi wants_keep_alive to_lowercase first_value get_str trim
handle_connection-Responses_example =
    handle_connection-Responses (codes "now") config_map files by_two Plugin.default first
      (second ∷ []) both_for_files (codes "next")
      (nothing (concat-by_two _), (content [] (by_two (codes "next")) refl (concat-by_two _), tt))
      refl (known-IsValue (codes "now") refl) (omega arith) (omega arith) refl
