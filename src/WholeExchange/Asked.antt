-- ===== src/WholeExchange/Asked.antt =====
-- Requests for files as clients send them over HTTP/1, and the responses that they are to be given.
use jequi.Prelude.{
  ℕ, suc, ◌<◌, ◌≡◌, ◌≢◌, Bool, Option, some, List, [], ◌∷◌, ◌++◌, Bytes, length, All, Result, ok,
  panic,
}
use jequi.Text.Numbers.{usize_mod, show}
use jequi.FilePath.{PathBuf}
use jequi.Headers.{HeaderOps}
use jequi.Config.Select.{ConfigMap, get_config_for_request}
use jequi.Message.Uri.{path}
use jequi.Message.Request
use jequi.Message.Request.{Request}
use jequi.Server.Plugin.{Plugin}
use jequi.Server.Handle.{handlers}
use jequi.StaticFiles.Config.{Config}
use jequi.StaticFiles.Handle.{final_path}
use jequi.StaticFiles.Outcome.{expected_status, expected_body}
use jequi.StaticFiles.Plugin.{request_handler}
use jequi.Http1.ReadBody.{Carries, content_text, ArrivesWhole}
use jequi.Http1.Heads.{Line, IsLine, lines_text, break_text}
use jequi.Http1.FirstLine.{IsRequestLine, request_line}
use jequi.Http1.Chunks.{chunks}
use jequi.Http1.Write.Framing.{headers_text, read_framed}
use jequi.Http1.Connection.Exchange.{said}

-- A request as a client sends it.
pub record Asked : Type 0 where
  pub padded : Bool
  pub method : Bytes
  pub uri : Bytes
  pub version : Bytes
  pub right : Bytes
  pub lines : List Line
  pub crlf : Bool
  pub carried : Option Bytes

abbrev pub asked_text : Asked → Bytes → Bytes
asked_text q rest =
    request_line q.padded q.method q.uri q.version q.right
      (lines_text q.lines (break_text q.crlf (content_text q.carried ++ rest)))

abbrev pub asked_texts : List Asked → Bytes → Bytes
asked_texts [] rest = rest
asked_texts (q ∷ qs) rest = asked_text q (asked_texts qs rest)

-- The content of each request has arrived whole when it is first read.
abbrev pub AllWhole : (Bytes → List Bytes) → List Asked → Bytes → Type 0
AllWhole arrivals [] rest = Unit
AllWhole arrivals (q ∷ qs) rest =
    ArrivesWhole arrivals q.carried (asked_texts qs rest) × AllWhole arrivals qs rest

module _ {M : Type 0} ⦃ops : HeaderOps M⦄ where
  -- The request that it is read as.
  abbrev pub as_read : Asked → Request M
  as_read q = said Request.new q.method q.uri q.lines

module _ {M H : Type 0} ⦃ops : HeaderOps M⦄ (now : Bytes)
    (config_map : ConfigMap (List (Plugin M H))) (fs_read : PathBuf → Result Bytes)
    (chunk_size : ℕ) where
  -- A request that the plugin for static files, alone, can answer.
  pub record IsForFile (q : Asked) : Type 0 where
    pub conf : Config
    pub plugins : List (Plugin M H)
    pub file : PathBuf
    pub line : IsRequestLine q.method q.uri q.version q.right
    pub heads : All IsLine q.lines
    pub content : Carries (as_read {M = M} q) q.carried
    pub chosen :
        get_config_for_request config_map
          (as_read {M = M} q).host
          (some (path (as_read {M = M} q).uri))
        ≡ some plugins
    pub one : handlers plugins ≡ request_handler fs_read conf ∷ []
    pub target : final_path conf (as_read {M = M} q).uri ≡ ok file
    pub readable : fs_read file ≢ panic
    pub short : length (expected_body fs_read conf (fs_read file)) < usize_mod

  -- `text` is the response to it: its status, and headers by which a client reads its body.
  abbrev pub IsResponse : (q : Asked) → IsForFile q → Bytes → Type 0
  IsResponse q f text =
      (headers : M) × (body : Bytes) × (text
        ≡ (q.version ++ (b' ' ∷ (show 10 (expected_status (fs_read f.file)) ++ (b'\n' ∷ []))))
          ++ headers_text (ops.iter headers) (b'\n' ∷ body))
      × ((more : Bytes)
          → read_framed headers
              (suc (length (chunks chunk_size (expected_body fs_read f.conf (fs_read f.file)))))
              (body ++ more)
            ≡ some (expected_body fs_read f.conf (fs_read f.file), more))

  -- The responses to requests, in their order.
  pub data Responses : (qs : List Asked) → All IsForFile qs → Bytes → Type 0 where
    none_left : Responses [] tt []
    next :
        {q : Asked} {qs : List Asked} {f : IsForFile q} {fs : All IsForFile qs} {text rest : Bytes}
        → IsResponse q f text
        → Responses qs fs rest
        → Responses (q ∷ qs) (f, fs) (text ++ rest)
