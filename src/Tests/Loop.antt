-- ===== src/Tests/Loop.antt =====
-- A connection on which one stream is opened.
use jequi.Prelude.{
  ℕ, suc, ◌≤◌, ◌≡◌, refl, true, false, none, List, [], ◌∷◌, ◌++◌, arith, Bytes, codes, Result, ok,
}
use jequi.Headers.{Header, get_str, first_value}
use jequi.Headers.Assoc.{assoc_ops}
use jequi.Maps
use jequi.Maps.{nat_Eq}
use jequi.Text.{bytes_eq}
use jequi.Text.Lossy.{from_utf8_lossy}
use jequi.Text.Split.{before}
use jequi.Text.Trim.{trim, to_lowercase}
use jequi.Config.Select.{ConfigMap, get_config_for_request, host_scope, select_path}
use jequi.Message.Body
use jequi.Message.Hijack.{continue}
use jequi.Message.Uri.{path}
use jequi.Message.Request
use jequi.Message.Request.{Request}
use jequi.Message.Response
use jequi.Message.Response.{Response, set_header}
use jequi.Server.Plugin
use jequi.Server.Plugin.{Plugin, own, get_jequi}
use jequi.Server.Handle.{handlers, run_handlers, handle_request}
use jequi.Http2.Frame.{new, headers_frame, data_frame, encode, encode_header, to_u8}
use jequi.Http2.Response.{response_bytes, header_list, body_frames, encode_all}
use jequi.Http2.Streams.{
  Stream, process_headers, run_stream, header_block, add_fields, add_field, pseudo_header,
}
use jequi.Http2.Loop.{
  Conn, Opens, headers, Run, start, opens, Panics, open_stream, finish_stream, stream_response,
}
use jequi.Http2.Loop.Count.{count}
use jequi.Http2.Loop.View.{view}
use jequi.Http2.Loop.Spec.{Serves, Run-Serves}
use jequi.Http2.Loop.Once.{fresh, Unique, answers, is_open, Run-answers, Run-response_found}
use jequi.Http2.Loop
use jequi.Http2.Loop.Answer.{holding_Run, holding, finish_stream-Panics}

abbrev M : Type 0
M = List Header

-- Every header block is that of a request for `/`, and is encoded as two bytes.
abbrev decode : ℕ → Bytes → Result (List Header × ℕ)
decode d bytes = ok ((codes ":method", codes "GET") ∷ ((codes ":path", codes "/") ∷ []), suc d)

abbrev to_bytes : ℕ → List Header → Bytes × ℕ
to_bytes e hs = (codes "hs", suc e)

abbrev plugins : ConfigMap (List (Plugin M ℕ))
plugins = record {
  host = none;
  path = none;
  config = record { config = own Plugin.default; request_handler = none } ∷ [];
}

abbrev request : Request M
request = record Request.new { method = codes "GET"; uri = record { text = codes "/" } }

abbrev stream : Stream M
stream = record { id = 1; request = request; response = Response.new }

abbrev now : Bytes
now = codes "now"

-- No place has a stream that counts.
abbrev before_all : Conn M ℕ ℕ
before_all = fresh (λ n. stream) 0 0

abbrev opened : Conn M ℕ ℕ
opened = open_stream before_all 1 stream false 1

opening : Opens now plugins decode to_bytes before_all 1 opened
unfolding process_headers header_block add_fields add_field pseudo_header bytes_eq from_utf8_lossy
    Maps.insert new
opening = headers (new headers_frame 5 1 []) ((1, stream) ∷ []) stream false 1 refl refl refl refl

abbrev one_stream : Run now plugins decode to_bytes before_all (1 ∷ []) opened
one_stream = opens start opening

Unique-one : Unique (1 ∷ [])
Unique-one i = ground arith

Run-answers_example : answers 1 opened ≤ count 1 (1 ∷ [])
Run-answers_example =
    Run-answers now plugins decode to_bytes (λ n. stream) 0 0 1 one_stream Unique-one

-- The request and the response behind the handlers.
abbrev handled : Request M
handled = record request { body = (Body.write_body none Body.default).0 }

abbrev answered : Response M
answered = record {
  status = 200;
  headers = (codes "server", codes "jequi") ∷ ((codes "date", codes "now") ∷ []);
  body_buffer = [];
}

is_handled : run_stream {H = ℕ} now plugins false stream ≡ ok (handled, answered, continue)
unfolding run_stream handle_request set_header run_handlers handlers get_config_for_request
    host_scope select_path to_lowercase trim path before first_value bytes_eq get_str
is_handled = refl

Run-response_found_example :
    is_open (Maps.get 1 (holding before_all 1 stream 1 handled answered).streams) ≡ true
unfolding open_stream Loop.run_handlers
Run-response_found_example =
    Run-response_found now plugins decode to_bytes (λ n. stream) 0 0 1 []
      (holding_Run now plugins decode to_bytes 1 stream 1 handled answered continue start opening
        is_handled (omega arith))
      Unique-one refl

Run-Serves_example :
    Serves now plugins decode to_bytes
      (1 ∷ [])
      (view (holding before_all 1 stream 1 handled answered))
      (holding before_all 1 stream 1 handled answered).written
Run-Serves_example =
    Run-Serves now plugins decode to_bytes (λ n. stream) 0 0
      (holding_Run now plugins decode to_bytes 1 stream 1 handled answered continue start opening
        is_handled (omega arith))

abbrev response_text : Bytes
response_text =
    0 ∷ (0 ∷ (2 ∷ (1 ∷ (4 ∷ (0 ∷ (0 ∷ (0 ∷ (1 ∷ codes "hs"))))))))
    ++ (0 ∷ (0 ∷ (0 ∷ (0 ∷ (1 ∷ (0 ∷ (0 ∷ (0 ∷ (1 ∷ [])))))))))

is_answer :
    stream_response now plugins decode to_bytes 0
      (record stream { request = handled; response = answered })
    ≡ ok (response_text, 1)
unfolding stream_response get_config_for_request host_scope select_path path before get_jequi
    response_bytes header_list body_frames encode_all encode encode_header to_u8 new
is_answer = refl

finish_stream-Panics_example :
    Panics now plugins decode to_bytes (finish_stream opened 1 [] response_text 1)
unfolding new
finish_stream-Panics_example =
    finish_stream-Panics now plugins decode to_bytes opened 1 [] response_text 1
      (new data_frame 1 1 (codes "late")) refl refl
