-- ===== src/StaticFiles/ContentType.antt =====
-- plugins/jequi_serve_static/src/content_type.rs.
use jequi.Prelude.{
  ◌≡◌, refl, inl, inr, true, Option, none, some, List, [], ◌∷◌, arith, within, Option-cases, Bytes,
  codes, all,
}
use jequi.FilePath.{PathBuf, extension}
use jequi.Maps
use jequi.Maps.{bytes_Eq}
use jequi.Headers.{IsValue, known-IsValue}

-- The cases of the match, in order.
abbrev content_types : List (Bytes × Bytes)
content_types =
    (codes "js", codes "text/javascript")
    ∷ (codes "css", codes "text/css")
    ∷ (codes "csv", codes "text/csv")
    ∷ (codes "gif", codes "image/gif")
    ∷ (codes "html", codes "text/html")
    ∷ (codes "jpeg", codes "image/jpeg")
    ∷ (codes "jpg", codes "image/jpeg")
    ∷ (codes "json", codes "application/json")
    ∷ (codes "mp3", codes "audio/mpeg")
    ∷ (codes "mp4", codes "video/mp4")
    ∷ (codes "mpeg", codes "video/mpeg")
    ∷ (codes "txt", codes "text/plain")
    ∷ (codes "ttf", codes "font/ttf")
    ∷ (codes "weba", codes "audio/webm")
    ∷ (codes "webm", codes "video/webm")
    ∷ (codes "webp", codes "image/webp")
    ∷ (codes "woff", codes "font/woff")
    ∷ (codes "woff2", codes "font/woff2")
    ∷ (codes "xhtml", codes "application/xhtml+xml")
    ∷ (codes "xml", codes "application/xml")
    ∷ (codes "zip", codes "application/zip")
    ∷ []

unfoldable pub get_content_type_by_path : PathBuf → Option Bytes
unfolding extension
get_content_type_by_path path = elim (extension path) [
  | none ↦ none
  | some e ↦ Maps.get e content_types
]

get_of_all :
    (k v : Bytes) (m : List (Bytes × Bytes))
    → all (λ e. all (λ c. within 32 126 c) e.1) m ≡ true
    → Maps.get k m ≡ some v
    → all (λ c. within 32 126 c) v ≡ true
unfolding Maps.get
get_of_all k v [] h e = cc
get_of_all k v ((j, w) ∷ m) h e = ground (arith, get_of_all k v m)

-- Every content type is a header value.
pub get_content_type_by_path-IsValue :
    (p : PathBuf) (v : Bytes) → get_content_type_by_path p ≡ some v → IsValue v
unfolding get_content_type_by_path
get_content_type_by_path-IsValue p v h = elim (Option-cases (extension p)) [
  | inl e ↦ absurd (none_ne (rw (e, get_content_type_by_path) at h))
  | inr (x, e) ↦
      known-IsValue v (get_of_all x v content_types refl (rw (e, get_content_type_by_path) at h))
]
  where
    none_ne : ◌≡◌ {A = Option Bytes} none (some v) → ⊥
    none_ne q = cc
