-- ===== src/Tests/Connection.antt =====
-- Whole exchanges at concrete inputs.
use jequi.Prelude.{ℕ, ◌≡◌, refl, true, false, none, List, [], ◌∷◌, ◌++◌, arith, Bytes, codes}
use jequi.Http1.ReadBody.{nothing}
use jequi.Http1.Write.Sent.{sent_line}
use jequi.Headers.{Header, first_value, get_str}
use jequi.Headers.Assoc.{assoc_ops}
use jequi.Text.Trim.{trim, to_lowercase, trim_ascii_start, trim_ascii_end}
use jequi.Config.Select.{ConfigMap}
use jequi.Message.Body
use jequi.Message.Request
use jequi.Message.Request.{get_content_length}
use jequi.Message.Response
use jequi.Http1.Read.{Http1Conn}
use jequi.Http1.Heads.{lines_text, break_text}
use jequi.Http1.FirstLine.{IsRequestLine, request_line}
use jequi.Http1.Connection.{handle_request, handle_parsed}
use jequi.Http1.Connection.Exchange.{handle_request-lines}
use jequi.Server.Plugin
use jequi.Server.Plugin.{Plugin}
use jequi.Server.Negotiate.{http2, select_alpn, offer, new_conn, new_conn-offer}

abbrev M : Type 0
M = List Header

abbrev no_plugins : ConfigMap (List (Plugin M ℕ))
no_plugins = record { host = none; path = none; config = [] }

abbrev reading : Bytes → Http1Conn M
reading input = record {
  input = input;
  output = [];
  version = [];
  request = Request.new;
  response = Response.new;
}

is_line : IsRequestLine (codes "A") (codes "/") (codes "H") []
unfolding trim_ascii_start trim_ascii_end
is_line = record {
  method_word = ((omega arith, tt), (omega arith, tt));
  uri_ne_nil = λ e. cc;
  uri_word = ((omega arith, tt), (omega arith, tt), (refl, refl));
  version_text = ((omega arith, tt), (omega arith, tt), (refl, refl));
  right_spaces = (tt, tt);
}

abbrev one_request : Bytes
one_request =
    request_line false (codes "A") (codes "/") (codes "H") []
      (lines_text [] (break_text false (codes "next")))

-- Input that comes one byte at a time.
abbrev byte_by_byte : Bytes → List Bytes
byte_by_byte [] = []
byte_by_byte (x ∷ xs) = (x ∷ []) ∷ byte_by_byte xs

abbrev posting : Bytes
posting = request_line false (codes "A") (codes "/") (codes "H") [] (
    lines_text (sent_line (codes "content-length", codes "2") ∷ [])
      (break_text false (codes "hi" ++ [])))

handle_request-lines_example :
    handle_request (codes "now") no_plugins 10 byte_by_byte (reading one_request)
    ≡ handle_parsed (codes "now") no_plugins 10 (record (reading (codes "next")) {
      version = codes "H";
      request = record Request.new {
        method = codes "A";
        uri = record { text = codes "/" };
        body = (Body.write_body none Body.default).0;
      };
    })
unfolding get_content_length first_value get_str trim to_lowercase
handle_request-lines_example =
    handle_request-lines (codes "now") no_plugins 10 byte_by_byte (reading one_request) false
      (codes "A") (codes "/") (codes "H") [] [] false none (codes "next") is_line tt refl
      (nothing refl) (nothing refl)

abbrev tls_conf : Plugin.Config
tls_conf = record Plugin.default { tls_active = true; http2 = true }

new_conn-offer_example :
    new_conn tls_conf
      (select_alpn true (offer (codes "spdy" ∷ [] ++ (codes "h2" ∷ (codes "http/1.1" ∷ [])))))
    ≡ http2
new_conn-offer_example =
    new_conn-offer tls_conf tls_conf (codes "spdy" ∷ []) (codes "http/1.1" ∷ []) refl
