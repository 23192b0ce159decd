-- ===== src/WholeExchange.antt =====
-- A request for a file over HTTP/1, from the bytes that the client sends to those that it reads: the
-- connection, the chain of handlers, the plugin for static files and the writing of responses
-- together.
mod Answering
pub mod Asked
pub mod Streams
pub mod Pipeline
use jequi.Prelude.{
  ℕ, suc, ◌+◌, ◌<◌, ◌≡◌, refl, ap, subst, ◌∙◌, ◌≢◌, Bool, Option, some, List, [], ◌∷◌, ◌++◌, arith,
  Bytes, length, All, Result, ok, panic,
}
use jequi.Http1.ReadBody.{Carries, content_text, ArrivesWhole}
use jequi.StaticFiles.Outcome.{expected_status, expected_next, expected_body}
use jequi.Server.Plugin.{Plugin}
use jequi.Text.Numbers.{usize_mod, show}
use jequi.FilePath.{PathBuf}
use jequi.Headers.{IsSent, IsValue, HeaderOps}
use jequi.Config.Select.{ConfigMap, get_config_for_request}
use jequi.Message.Body.{write_body}
use jequi.Message.Uri.{path}
use jequi.Message.Request.{Request}
use jequi.Server.Handle.{handlers}
use jequi.Server.Handle as Handle
use jequi.StaticFiles.Config.{Config}
use jequi.StaticFiles.Handle as StaticHandle
use jequi.StaticFiles.Handle.{final_path}
use jequi.StaticFiles.Plugin.{request_handler}
use jequi.Http1.Read.{Http1Conn}
use jequi.Http1.Heads.{Line, IsLine, lines_text, break_text}
use jequi.Http1.FirstLine.{IsRequestLine, request_line}
use jequi.Http1.Chunks.{chunks}
use jequi.Http1.Write.Framing.{headers_text, read_framed}
use jequi.Http1.Write.Sent.{status_line, write_response-read_framed}
use jequi.Http1.Connection.{handle_request, handle_parsed}
use jequi.Http1.Connection.Exchange.{said, handle_request-lines}
use jequi.WholeExchange.Answering.{handle_request-expected}

module _ {M H : Type 0} ⦃ops : HeaderOps M⦄ (now : Bytes)
    (config_map : ConfigMap (List (Plugin M H))) (fs_read : PathBuf → Result Bytes)
    (arrivals : Bytes → List Bytes) where
  -- A client sends a request line and header lines of the form that both readers accept, with an
  -- empty line behind them and then the content whose length the headers say, or none, which has
  -- arrived whole when it is first read. If the plugins for the host and the path that it says have
  -- one handler, that for static files, whose path for the target is read without a panic, the date
  -- is visible text, the response is empty but for headers that can be sent, and the chunk size, which
  -- is not 0, and what is to be sent are below 2^64, then the exchange succeeds, what follows the
  -- request is left for the next one, the request is kept as it says, with its content for a body, the
  -- response has status 200, or 403 where reading is not allowed, or 404 where it fails otherwise, and
  -- a client that follows the headers of the response reads from it the contents of the file, nothing,
  -- or the page for what is not found.
  pub handle_request-file :
      (chunk_size : ℕ) (conf : Config) (plugins : List (Plugin M H)) (c : Http1Conn M)
      (padded : Bool) (method uri version right : Bytes) (ls : List Line) (crlf : Bool)
      (carried : Option Bytes) (rest : Bytes) (p : PathBuf)
      → IsRequestLine method uri version right
      → All IsLine ls
      → c.input
        ≡ request_line padded method uri version right
            (lines_text ls (break_text crlf (content_text carried ++ rest)))
      → Carries (said c.request method uri ls) carried
      → ArrivesWhole arrivals carried rest
      → IsValue now
      → All IsSent (ops.iter c.response.headers)
      → c.response.body_buffer ≡ []
      → get_config_for_request config_map
          (said c.request method uri ls).host
          (some (path (said c.request method uri ls).uri))
        ≡ some plugins
      → handlers plugins ≡ request_handler fs_read conf ∷ []
      → final_path conf (said c.request method uri ls).uri ≡ ok p
      → fs_read p ≢ panic
      → 0 < chunk_size
      → chunk_size < usize_mod
      → length (expected_body fs_read conf (fs_read p)) < usize_mod
      → (done : Http1Conn M) × (body : Bytes) × (handle_request now config_map chunk_size arrivals c
          ≡ ok (done, expected_next H (fs_read p)))
        × (done.input ≡ rest)
        × (done.request ≡ record (said c.request method uri ls) {
          body = (write_body carried (said c.request method uri ls).body).0;
        })
        × (done.response.status ≡ expected_status (fs_read p))
        × (done.output
            ≡ c.output
              ++ ((version ++ (b' ' ∷ (show 10 (expected_status (fs_read p)) ++ (b'\n' ∷ []))))
                  ++ headers_text (ops.iter done.response.headers) (b'\n' ∷ body)))
        × ((more : Bytes)
            → read_framed done.response.headers
                (suc (length (chunks chunk_size (expected_body fs_read conf (fs_read p)))))
                (body ++ more)
              ≡ some (expected_body fs_read conf (fs_read p), more))
  unfolding handle_parsed
  handle_request-file chunk_size conf plugins c padded method uri version right ls crlf carried rest
        p line heads input sized arrived date sent empty chosen one target file h k l =
      let req : Request M = record (said c.request method uri ls) {
        body = (write_body carried (said c.request method uri ls).body).0;
      } in
      let (r, run, status, whole, headed) =
        handle_request-expected now config_map fs_read conf plugins req c.response p date sent
          chosen one target file in
      let filled : r.body_buffer ≡ expected_body fs_read conf (fs_read p) = whole ∙ rw empty refl in
      let answering : Http1Conn M = record c {
        input = rest;
        version = version;
        request = req;
        response = r;
      } in
      let (resp, body, written, framed, _, kept, _) =
        write_response-read_framed answering chunk_size h k (omega (arith, ap length filled))
          headed in
      (
        record answering {
          response = resp;
          output =
              c.output
              ++ (status_line answering ++ headers_text (ops.iter resp.headers) (b'\n' ∷ body));
        },
        body,
        handle_request-lines now config_map chunk_size arrivals c padded method uri version right ls
              crlf carried rest line heads input sized arrived
            ∙ rw run (rw written refl),
        refl,
        refl,
        kept ∙ status,
        ap
            (λ n.
              c.output
              ++ ((version ++ (b' ' ∷ (show 10 n ++ (b'\n' ∷ []))))
                  ++ headers_text (ops.iter resp.headers) (b'\n' ∷ body)))
            status,
        λ more.
            subst
              (λ t.
                read_framed resp.headers (suc (length (chunks chunk_size t))) (body ++ more)
                ≡ some (t, more))
              filled (framed more),
      )
