-- ===== src/StaticFiles/Outcome.antt =====
-- The answer to a request for a file.
use jequi.Prelude.{
  All, ℕ, ◌≡◌, refl, sym, ◌≢◌, inl, inr, some, [], ◌++◌, append-nil, Bool-cases, Option-cases,
  Bytes, codes, unexpected_eof, invalid_data, not_found, permission_denied, other, Result, ok, err,
  panic,
}
use jequi.Text.Trim.{trim, to_lowercase}
use jequi.FilePath.{PathBuf}
use jequi.Headers.{IsSent, HeaderOps, IsValue, known-IsName}
use jequi.Message.Hijack.{PostRequestHandler, continue, exit}
use jequi.Message.Request.{Request}
use jequi.Message.Response.{Response, set_header}
use jequi.StaticFiles.Config.{Config}
use jequi.StaticFiles.ContentType.{get_content_type_by_path, get_content_type_by_path-IsValue}
use jequi.StaticFiles.Handle.{final_path, not_found_body, answer_found, answer, handle_request}

abbrev pub expected_status : Result Bytes → ℕ
expected_status (ok content) = 200
expected_status (err permission_denied) = 403
expected_status _ = 404

abbrev pub expected_body : (PathBuf → Result Bytes) → Config → Result Bytes → Bytes
expected_body fs_read conf (ok content) = content
expected_body fs_read conf (err permission_denied) = []
expected_body fs_read conf _ = not_found_body fs_read conf.not_found_file_path

abbrev pub expected_next : (H : Type 0) → Result Bytes → PostRequestHandler H
expected_next H (ok content) = continue
expected_next H _ = exit

type_name :
    (M : Type 0) ⦃ops : HeaderOps M⦄
    → ops.parse_name (to_lowercase (trim (codes "Content-Type"))) ≡ some (codes "content-type")
unfolding to_lowercase trim
type_name M ⦃ops⦄ =
    ops.parse_name_lem (codes "content-type") (known-IsName (codes "content-type") refl)

module _ {M : Type 0} ⦃ops : HeaderOps M⦄ (H : Type 0) (fs_read : PathBuf → Result Bytes) where
  -- The answer `resp` to `before`, with the plugin's verdict.
  abbrev pub Answers :
      Config → Result Bytes → Response M → Result (Response M × PostRequestHandler H) → Type 0
  Answers conf found before result =
      (resp : Response M) × (result ≡ ok (resp, expected_next H found))
      × (resp.status ≡ expected_status found)
      × (resp.body_buffer ≡ before.body_buffer ++ expected_body fs_read conf found)
      × (All IsSent (ops.iter before.headers) → All IsSent (ops.iter resp.headers))

  set_type :
      (r : Response M) (v : Bytes)
      → IsValue v
      → set_header r (codes "Content-Type") v
        ≡ ok (
          record r { headers = (ops.insert r.headers (codes "content-type") v).0 },
          (ops.insert r.headers (codes "content-type") v).1,
        )
  unfolding set_header
  set_type r v h = rw (type_name M) (rw (ops.parse_value_lem v h) refl)

  -- A header that is added is a known type of contents.
  pub answer_found_lem :
      (conf : Config) (p : PathBuf) (r : Response M)
      → (resp : Response M) × (answer_found H fs_read conf p r ≡ ok (resp, continue))
        × (resp.status ≡ r.status)
        × (resp.body_buffer ≡ r.body_buffer)
        × (All IsSent (ops.iter r.headers) → All IsSent (ops.iter resp.headers))
  unfolding answer_found
  answer_found_lem conf p r = elim (Bool-cases conf.infer_content_type) [
    | inr off ↦ (r, rw off refl, refl, refl, λ h. h)
    | inl on ↦ elim (Option-cases (get_content_type_by_path p)) [
      | inl e ↦ (r, rw (on, answer_found) (rw (e, answer_found) refl), refl, refl, λ h. h)
      | inr (v, e) ↦ (
        record r { headers = (ops.insert r.headers (codes "content-type") v).0 },
        rw (on, answer_found)
            (rw (e, answer_found)
              (rw (set_type r v (get_content_type_by_path-IsValue p v e)) refl)),
        refl,
        refl,
        λ h.
            ops.All-iter-insert IsSent r.headers (codes "content-type") v h
              (known-IsName (codes "content-type") refl, get_content_type_by_path-IsValue p v e),
      )
    ]
  ]

  answer_lem :
      (conf : Config) (p : PathBuf) (found : Result Bytes) (r : Response M)
      → found ≢ panic
      → Answers conf found r (answer H fs_read conf p found r)
  unfolding answer
  answer_lem conf p (ok content) r h =
      answer_found_lem conf p (record r { status = 200; body_buffer = r.body_buffer ++ content })
  answer_lem conf p (err permission_denied) r h =
      (record r { status = 403 }, refl, refl, sym (append-nil r.body_buffer), λ h. h)
  answer_lem conf p (err unexpected_eof) r h = (_, refl, refl, refl, λ h. h)
  answer_lem conf p (err invalid_data) r h = (_, refl, refl, refl, λ h. h)
  answer_lem conf p (err not_found) r h = (_, refl, refl, refl, λ h. h)
  answer_lem conf p (err other) r h = (_, refl, refl, refl, λ h. h)
  answer_lem conf p panic r h = absurd (h refl)

  pub handle_request-Answers :
      (conf : Config) (req : Request M) (before : Response M) (p : PathBuf)
      → final_path conf req.uri ≡ ok p
      → fs_read p ≢ panic
      → Answers conf (fs_read p) before (handle_request H fs_read conf req before)
  unfolding handle_request
  handle_request-Answers conf req before p e h = rw e (answer_lem conf p (fs_read p) before h)
