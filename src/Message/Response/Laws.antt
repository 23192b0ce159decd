-- ===== src/Message/Response/Laws.antt =====
-- What the header methods of a response do, for names and values that the header crate accepts.
use jequi.Prelude.{◌≡◌, refl, none, some, if◌then◌else◌, Bytes, ok}
use jequi.Text.{bytes_eq}
use jequi.Text.Trim.{trim, to_lowercase}
use jequi.Headers.{HeaderOps, IsName, IsValue, get_str}
use jequi.Message.Response.{Response, set_header, remove_header, get_header}

module _ {M : Type 0} ⦃ops : HeaderOps M⦄ (r : Response M) (h j : Bytes)
    (name : IsName (to_lowercase (trim h))) (asked : IsName (trim (to_lowercase j))) where
  get_header_lem : (s : Response M) → get_header s j ≡ ops.get s.headers (trim (to_lowercase j))
  unfolding get_header
  get_header_lem s = rw (ops.parse_name_lem _ asked, get_str) refl

  -- For two names that are letters, digits and `-` after trimming and lowering, and a visible value,
  -- `set_header` of the first succeeds and gives the old value; `get_header` of the second then gives
  -- the value if the names are the same after trimming and lowering, and else what it gave before.
  -- Status and body stay.
  pub get_header-set_header :
      (v : Bytes)
      → IsValue v
      → (s : Response M) × (set_header r h v ≡ ok (s, ops.get r.headers (to_lowercase (trim h))))
        × (get_header s j ≡ (
            if bytes_eq (to_lowercase (trim h)) (trim (to_lowercase j))
            then some v
            else get_header r j))
        × (s.status ≡ r.status)
        × (s.body_buffer ≡ r.body_buffer)
  unfolding set_header
  get_header-set_header v value = (
    record r { headers = (ops.insert r.headers (to_lowercase (trim h)) v).0 },
    rw (ops.parse_name_lem _ name) (rw (ops.parse_value_lem v value) (rw ops.insert_old refl)),
    rw get_header_lem (
        rw get_header_lem
          (ops.get-insert r.headers (to_lowercase (trim h)) v (trim (to_lowercase j)))),
    refl,
    refl,
  )

  -- For two such names, `remove_header` of the first succeeds and gives the old value; `get_header` of
  -- the second then gives none if the names are the same, and else what it gave before. Status and
  -- body stay.
  pub get_header-remove_header :
      (s : Response M) × (remove_header r h ≡ ok (s, ops.get r.headers (to_lowercase (trim h))))
      × (get_header s j ≡ (
          if bytes_eq (to_lowercase (trim h)) (trim (to_lowercase j))
          then none
          else get_header r j))
      × (s.status ≡ r.status)
      × (s.body_buffer ≡ r.body_buffer)
  unfolding remove_header
  get_header-remove_header = (
    record r { headers = (ops.remove r.headers (to_lowercase (trim h))).0 },
    rw (ops.parse_name_lem _ name) (rw ops.remove_old refl),
    rw get_header_lem (
        rw get_header_lem
          (ops.get-remove r.headers (to_lowercase (trim h)) (trim (to_lowercase j)))),
    refl,
    refl,
  )
