-- ===== src/Http1/Connection/Exchange.antt =====
-- One exchange on a connection, and the end of the exchanges.
use jequi.Prelude.{ℕ, suc, ◌≡◌, refl, inl, inr, Bool, Option, List, [], ◌++◌, Bytes, All, panic}
use jequi.Headers.{HeaderOps}
use jequi.Config.Select.{ConfigMap}
use jequi.Message.Body.{write_body}
use jequi.Message.Request.{Request}
use jequi.Http1.Read.{Http1Conn, parse_first_line, read_until_handle_eof}
use jequi.Http1.ReadBody.{Carries, content_text, ArrivesWhole, read_body-Carries}
use jequi.Http1.Heads.{Line, IsLine, lines_text, break_text, add_lines, parse_headers-lines_text}
use jequi.Http1.FirstLine.{IsRequestLine, request_line, parse_first_line-request_line}
use jequi.Http1.Connection.{handle_parsed, handle_request, handle_scope, keep_alive}
use jequi.Server.Plugin.{Plugin}

module _ {M : Type 0} ⦃ops : HeaderOps M⦄ where
  -- The request that the lines of a request say, on top of another.
  abbrev pub said : Request M → Bytes → Bytes → List Line → Request M
  said r method uri ls = add_lines (record r { method = method; uri = record { text = uri } }) ls

module _ {M H : Type 0} ⦃ops : HeaderOps M⦄ (now : Bytes)
    (config_map : ConfigMap (List (Plugin M H))) (chunk_size : ℕ)
    (arrivals : Bytes → List Bytes) where
  handle_scope-Carries :
      (c : Http1Conn M) (sent : Option Bytes) (rest : Bytes)
      → c.input ≡ content_text sent ++ rest
      → Carries c.request sent
      → ArrivesWhole arrivals sent rest
      → handle_scope now config_map chunk_size arrivals c
        ≡ handle_parsed now config_map chunk_size (record c {
          input = rest;
          request = record c.request { body = (write_body sent c.request.body).0 };
        })
  unfolding handle_scope
  handle_scope-Carries c sent rest e h whole =
      let (r, fine, run) = read_body-Carries arrivals c.request sent rest h whole in
      elim fine [ inl f ↦ rw e (rw run (rw f refl)) | inr f ↦ rw e (rw run (rw f refl)) ]

  -- A request line and header lines of the form that the readers of both accept, with an empty line
  -- behind them and then the content whose length the headers say, or none if they say none, are
  -- handled as the request that they say with its body written as that content, and what follows
  -- them is left for the next request, if the content has arrived whole when it is first read, which
  -- is done before the handlers run; what follows it may arrive then or in any later parts.
  pub handle_request-lines :
      (c : Http1Conn M) (padded : Bool) (method uri version right : Bytes) (ls : List Line)
      (crlf : Bool) (sent : Option Bytes) (rest : Bytes)
      → IsRequestLine method uri version right
      → All IsLine ls
      → c.input
        ≡ request_line padded method uri version right
            (lines_text ls (break_text crlf (content_text sent ++ rest)))
      → Carries (said c.request method uri ls) sent
      → ArrivesWhole arrivals sent rest
      → handle_request now config_map chunk_size arrivals c
        ≡ handle_parsed now config_map chunk_size (record c {
          input = rest;
          version = version;
          request = record (said c.request method uri ls) {
            body = (write_body sent (said c.request method uri ls).body).0;
          };
        })
  unfolding handle_request
  handle_request-lines c padded method uri version right ls crlf sent rest line heads e carried
        whole =
      rw
        (parse_first_line-request_line c padded method uri version right
          (lines_text ls (break_text crlf (content_text sent ++ rest))) line e)
        (rw
          (parse_headers-lines_text
            (record c {
              input = lines_text ls (break_text crlf (content_text sent ++ rest));
              version = version;
              request = record c.request { method = method; uri = record { text = uri } };
            })
            ls crlf (content_text sent ++ rest) heads refl)
          (handle_scope-Carries
            (record c {
              input = content_text sent ++ rest;
              version = version;
              request = said c.request method uri ls;
            })
            sent rest refl carried whole))

  -- Where the peer has closed the connection, the next round of the loop is a panic.
  pub keep_alive_closed :
      (rounds : ℕ) (c : Http1Conn M)
      → c.input ≡ []
      → keep_alive now config_map chunk_size arrivals (suc rounds) c ≡ panic
  unfolding keep_alive handle_request parse_first_line read_until_handle_eof
  keep_alive_closed rounds c e = rw e refl
