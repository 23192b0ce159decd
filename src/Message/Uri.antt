-- ===== src/Message/Uri.antt =====
-- `Uri` of jequi/src/request.rs.
use jequi.Prelude.{◌≡◌, Option, Bytes}
use jequi.Text.Split.{before, after, Lacks, joined, before-Lacks, joined-before-after}

pub record Uri : Type 0 where
  pub text : Bytes

abbrev pub raw : Uri → Bytes
raw u = u.text

unfoldable pub path : Uri → Bytes
path u = before b'?' u.text

unfoldable pub query_string : Uri → Option Bytes
query_string u = after b'?' u.text

-- The path has no `?`, and path and query make up the text again: the path alone if there is no
-- query, else the path, `?` and the query.
pub path-query_string :
    (u : Uri) → Lacks b'?' (path u) × (joined b'?' (path u) (query_string u) ≡ u.text)
unfolding path query_string
path-query_string u = (before-Lacks b'?' u.text, joined-before-after b'?' u.text)
