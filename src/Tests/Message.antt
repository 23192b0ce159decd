-- ===== src/Tests/Message.antt =====
-- Requests, responses and their bodies at concrete inputs.
use jequi.Prelude.{◌↔◌, ◌≡◌, refl, none, some, List, [], ◌∷◌, arith, codes, ok}
use jequi.Text.{bytes_eq}
use jequi.Text.Numbers.{show, parse}
use jequi.Text.Numbers.RoundTrip.{parse-show}
use jequi.Text.Split.{Lacks, joined}
use jequi.Text.Trim.{trim, to_lowercase}
use jequi.Headers.{Header, known-IsName, known-IsValue, first_value}
use jequi.Headers.Assoc.{assoc_ops}
use jequi.Message.Body.{default, ready, polls, writes, run, poll, poll-run}
use jequi.Message.Body.Race.{Lost, fresh, race, left, right, done, race-Lost}
use jequi.Message.Body.Race as Race
use jequi.Message.Uri.{Uri, path, query_string, path-query_string}
use jequi.Message.Response.{Response, set_header, remove_header, get_header}
use jequi.Message.Response.Laws.{get_header-set_header, get_header-remove_header}

abbrev two_headers : Response (List Header)
two_headers = record {
  status = 0;
  headers = (codes "server", codes "jequi") ∷ (codes "vary", codes "accept") ∷ [];
  body_buffer = codes "hello";
}

get_header-set_header_example :
    (s : Response (List Header)) × (set_header two_headers (codes " Server") (codes "other")
      ≡ ok (s, some (codes "jequi")))
    × (get_header s (codes "SERVER ") ≡ some (codes "other"))
    × (s.status ≡ 0)
    × (s.body_buffer ≡ codes "hello")
unfolding to_lowercase trim bytes_eq first_value
get_header-set_header_example =
    get_header-set_header two_headers (codes " Server") (codes "SERVER ")
      (known-IsName (codes "server") refl) (known-IsName (codes "server") refl) (codes "other")
      (known-IsValue (codes "other") refl)

get_header-remove_header_example :
    (s : Response (List Header)) × (remove_header two_headers (codes "Server")
      ≡ ok (s, some (codes "jequi")))
    × (get_header s (codes "server") ≡ none)
    × (s.status ≡ 0)
    × (s.body_buffer ≡ codes "hello")
unfolding to_lowercase trim bytes_eq first_value
get_header-remove_header_example =
    get_header-remove_header two_headers (codes "Server") (codes "server")
      (known-IsName (codes "server") refl) (known-IsName (codes "server") refl)

poll-run_example :
    (poll 5 (run default (polls 1 ∷ writes none ∷ writes (some (codes "x")) ∷ [])).0).1
    ≡ ready (some (codes "x"))
unfolding poll
poll-run_example = poll-run default (polls 1 ∷ writes none ∷ writes (some (codes "x")) ∷ []) 5 refl

abbrev search_uri : Uri
search_uri = record { text = codes "/a?b?c" }

path-query_string_example :
    Lacks b'?' (path search_uri)
    × (joined b'?' (path search_uri) (query_string search_uri) ≡ codes "/a?b?c")
path-query_string_example = path-query_string search_uri

parse-show_example : parse 16 (show 16 65536) ≡ some 65536
parse-show_example = parse-show 16 65536 (omega arith) (omega arith) (omega arith)

race-Lost_example : Lost (Race.run 7 (some (codes "hi")) race (fresh default)) ↔ (race ≡ race)
race-Lost_example =
    race-Lost 7 (some (codes "hi")) default race refl refl (left (right (right (left done))))
