-- ===== src/WholeExchange/Pipeline.antt =====
-- A connection over HTTP/1 on which a client asks for many files: the responses come in the order of
-- the requests.
use jequi.Prelude.{
  ℕ, ◌<◌, ◌≡◌, refl, sym, ap, subst, ◌∙◌, true, none, some, List, [], ◌∷◌, ◌++◌, append-nil,
  append_assoc, Bytes, length, All, Result, ok, err, panic,
}
use jequi.Text.{bytes_eq_iff}
use jequi.Text.Numbers.{usize_mod, show}
use jequi.FilePath.{PathBuf}
use jequi.Headers.{IsSent, IsValue, HeaderOps, first_value, Header}
use jequi.Config.Select.{ConfigMap}
use jequi.Message.Hijack.{continue}
use jequi.Message.Request
use jequi.Message.Request.{Request}
use jequi.Message.Response
use jequi.Server.Plugin
use jequi.Server.Plugin.{Plugin, get_jequi}
use jequi.StaticFiles.Outcome.{expected_status, expected_next}
use jequi.Http1.Read.{Http1Conn}
use jequi.Http1.ReadBody.{ArrivesWhole}
use jequi.Http1.Write.Framing.{headers_text}
use jequi.Http1.Connection.{
  handle_request, keep_alive, wants_keep_alive, after_first, handle_connection, new,
}
use jequi.WholeExchange.{handle_request-file}
use jequi.WholeExchange.Asked.{
  AllWhole, Asked, asked_text, asked_texts, as_read, IsForFile, IsResponse, Responses, none_left,
  next,
}

iter-empty_of : (hs : List Header) → ((k : Bytes) → first_value k hs ≡ none) → hs ≡ []
unfolding first_value
iter-empty_of [] h = refl
iter-empty_of ((k, v) ∷ hs) h =
    let found : none ≡ some v = sym (h k) ∙ rw ((bytes_eq_iff k k).1 refl) refl in cc

iter-empty : (M : Type 0) ⦃ops : HeaderOps M⦄ → ops.iter ops.empty ≡ []
iter-empty M ⦃ops⦄ =
    iter-empty_of (ops.iter ops.empty) (λ k. sym (ops.get-iter ops.empty k) ∙ ops.get-empty k)

module _ {M H : Type 0} ⦃ops : HeaderOps M⦄ (now : Bytes)
    (config_map : ConfigMap (List (Plugin M H))) (fs_read : PathBuf → Result Bytes) (chunk_size : ℕ)
    (arrivals : Bytes → List Bytes) where
  module _ (date : IsValue now) (pos : 0 < chunk_size) (small : chunk_size < usize_mod) where
    handle_request-asked :
        (c : Http1Conn M) (q : Asked) (f : IsForFile now config_map fs_read chunk_size q)
        (rest : Bytes)
        → c.input ≡ asked_text q rest
        → ArrivesWhole arrivals q.carried rest
        → (done : Http1Conn M) × (text : Bytes) × (handle_request now config_map chunk_size arrivals
              (record c { request = Request.new; response = Response.new })
            ≡ ok (done, expected_next H (fs_read f.file)))
          × (done.input ≡ rest)
          × (done.request.headers ≡ (as_read {M = M} q).headers)
          × (done.output ≡ c.output ++ text)
          × IsResponse now config_map fs_read chunk_size q f text
    handle_request-asked c q f rest e whole =
        let (done, body, run, left, request, status, output, framed) =
          handle_request-file now config_map fs_read arrivals chunk_size f.conf f.plugins
            (record c { request = Request.new; response = Response.new }) q.padded q.method q.uri
            q.version q.right q.lines q.crlf q.carried rest f.file f.line f.heads e f.content whole
            date (subst (All IsSent) (sym (iter-empty M)) tt) refl f.chosen f.one f.target
            f.readable pos small f.short in
        (
          done,
          (q.version ++ (b' ' ∷ (show 10 (expected_status (fs_read f.file)) ++ (b'\n' ∷ []))))
              ++ headers_text (ops.iter done.response.headers) (b'\n' ∷ body),
          run,
          left,
          ap (λ r. r.headers) request,
          output,
          (done.response.headers, body, refl, framed),
        )

    -- The rounds of the loop.
    keep_alive-asked :
        (c : Http1Conn M) (qs : List Asked)
        (fs : All (IsForFile now config_map fs_read chunk_size) qs) (rest : Bytes)
        → c.input ≡ asked_texts qs rest
        → AllWhole arrivals qs rest
        → (done : Http1Conn M) × (text : Bytes) × (keep_alive now config_map chunk_size arrivals
              (length qs)
              c
            ≡ ok (done, continue))
          × (done.input ≡ rest)
          × (done.output ≡ c.output ++ text)
          × Responses now config_map fs_read chunk_size qs fs text
    unfolding keep_alive
    keep_alive-asked c [] fs rest e whole = (c, [], refl, e, sym (append-nil c.output), none_left)
    keep_alive-asked c (q ∷ qs) (f, fs) rest e (whole, wholes) =
        let (first, text, run, left, headers, output, response) =
          handle_request-asked c q f (asked_texts qs rest) e whole in
        let (done, more, runs, ends, outputs, responses) =
          keep_alive-asked first qs fs rest left wholes in
        (
          done,
          text ++ more,
          rw (run, keep_alive) runs,
          ends,
          outputs ∙ ap (λ t. t ++ more) output ∙ append_assoc c.output text more,
          next response responses,
        )

    after_first_again :
        (found : Result Bytes) (rounds : ℕ) (c : Http1Conn M)
        → wants_keep_alive c.request.headers ≡ ok true
        → after_first now config_map chunk_size arrivals rounds c (expected_next H found)
          ≡ keep_alive now config_map chunk_size arrivals rounds c
    unfolding after_first
    after_first_again (ok content) rounds c h = rw h refl
    after_first_again (err why) rounds c h = rw h refl
    after_first_again panic rounds c h = rw h refl

-- A client sends requests one behind the other on a new connection, each of the form that both
-- readers accept, with the content whose length its headers say, which has arrived whole when it is
-- first read; the first asks to keep the connection. If the server's own configuration has a chunk
-- size that is not 0 and below 2^64, the date is visible text, and each request is for the plugin for
-- static files alone, whose path for it is read without a panic as something below 2^64 bytes, then
-- after as many rounds as there are requests behind the first, what follows them is left, and the
-- responses were written in the order of the requests, and nothing else: each has the status of what
-- was read, 200, 403 or 404, and headers by which the client reads the contents of the file, nothing,
-- or the page for what is not found, and comes to the next response.
pub handle_connection-Responses :
    {M H : Type 0} ⦃ops : HeaderOps M⦄ (now : Bytes) (config_map : ConfigMap (List (Plugin M H)))
    (fs_read : PathBuf → Result Bytes) (arrivals : Bytes → List Bytes) (main : Plugin.Config)
    (q : Asked) (qs : List Asked)
    (fs : All (IsForFile now config_map fs_read main.chunk_size) (q ∷ qs)) (rest : Bytes)
    → AllWhole arrivals (q ∷ qs) rest
    → get_jequi config_map.config ≡ some main
    → IsValue now
    → 0 < main.chunk_size
    → main.chunk_size < usize_mod
    → wants_keep_alive (as_read {M = M} q).headers ≡ ok true
    → (done : Http1Conn M) × (handle_connection now config_map arrivals
          (length qs)
          (new (asked_texts (q ∷ qs) rest))
        ≡ ok (done, continue))
      × (done.input ≡ rest)
      × Responses now config_map fs_read main.chunk_size (q ∷ qs) fs done.output
unfolding handle_connection new
handle_connection-Responses now config_map fs_read arrivals main q qs (f, fs) rest (whole, wholes)
      own date pos small again =
    let (first, text, run, left, headers, output, response) =
      handle_request-asked now config_map fs_read main.chunk_size arrivals date pos small
        (new (asked_texts (q ∷ qs) rest)) q f (asked_texts qs rest) refl whole in
    let (done, more, runs, ends, outputs, responses) =
      keep_alive-asked now config_map fs_read main.chunk_size arrivals date pos small first qs fs
        rest left wholes in
    (
      done,
      rw own (
          rw run (
            after_first_again now config_map fs_read main.chunk_size arrivals date pos small
              (fs_read f.file) (length qs) first (ap wants_keep_alive headers ∙ again)
            ∙ runs)),
      ends,
      subst (Responses now config_map fs_read main.chunk_size (q ∷ qs) (f, fs))
          (sym (outputs ∙ ap (λ t. t ++ more) output)) (next response responses),
    )
