-- ===== src/Http1/Scope/Sequential.antt =====
-- Reading the body while the handlers run gives what reading it first gives.
use jequi.Prelude.{
  append-nil, ℕ, ◌≡◌, sym, ap, ◌∙◌, ◌≢◌, true, false, Option, List, append-nil, [], ◌∷◌, ◌++◌,
  arith, Bytes, Result, ok, err, panic,
}
use jequi.Headers.{HeaderOps}
use jequi.Config.Select.{ConfigMap}
use jequi.Message.Body.{RequestBody, pending, ready, write_body}
use jequi.Message.Request.{Request, get_content_length}
use jequi.Http1.Read.{Http1Conn}
use jequi.Http1.ReadBody
use jequi.Http1.ReadBody.{Polled, drive, read_body, at_once}
use jequi.Http1.Connection.{handle_parsed, handle_scope, expect_body}
use jequi.Http1.Scope.{Handlers, finished, Scope, enter, Run, outcome, leave}
use jequi.Http1.Scope.Wakes.{Run-outcome, poll-Reads, waits, writes}
use jequi.Http1.Scope.Reading.{poll-Alike, first_poll, unread, read, Fed-Run}
use jequi.Server.Plugin.{Plugin}
use jequi.Server.Handle.{Handled}
use jequi.Server.Handle as Handle

-- A poll that is ready has written its body, and changed it in no other way.
poll_body :
    (content_length : Result ℕ) (arrived : Bytes) (b : RequestBody) (r : Result (Unit {0}))
    → content_length ≢ panic
    → (ReadBody.poll content_length arrived false b).answer ≡ ready r
    → (ReadBody.poll content_length arrived false b).body
      ≡ (write_body (ReadBody.poll content_length arrived false b).body.bytes b).0
unfolding write_body
poll_body content_length arrived b r h k = elim (poll-Reads content_length arrived false b h) [
  | waits e f ↦ absurd cc
  | writes q bs e f ↦
      f ∙ ap (λ x. record b { bytes = x; is_written = true }) (sym (ap (λ x. x.bytes) f))
]

not_panic :
    (content_length : Result ℕ) (arrived : Bytes) (b : RequestBody) (r : Result (Unit {0}))
    → (ReadBody.poll content_length arrived false b).answer ≡ ready r
    → expect_body (ready r) ≡ ok tt
    → content_length ≢ panic
unfolding ReadBody.poll
not_panic (ok n) arrived b r h k e = cc
not_panic (err x) arrived b r h k e = cc
not_panic panic arrived b (ok x) h k e = cc
not_panic panic arrived b (err x) h k e = cc
not_panic panic arrived b panic h k e = cc

settle :
    (p q : Polled) (r : Result (Unit {0}))
    → p.answer ≡ ready r
    → ◌≡◌ {A = Polled}
        (elim p.answer [ ready r ↦ record p { unread = p.unread ++ [] } | pending ↦ q ])
        p
settle p q r h = ground (arith, append-nil p.unread)

drive_ready :
    (content_length : Result ℕ) (arrived : Bytes) (b : RequestBody) (r : Result (Unit {0}))
    → (ReadBody.poll content_length arrived false b).answer ≡ ready r
    → drive content_length (arrived ∷ []) [] b ≡ ReadBody.poll content_length arrived false b
unfolding drive
drive_ready content_length arrived b r h = settle _ _ r h

-- The request and its body once it is read.
abbrev pub with_body : {M : Type 0} → Request M → Option Bytes → Request M
with_body request bytes = record request { body = (write_body bytes request.body).0 }

module _ {M H : Type 0} ⦃ops : HeaderOps M⦄ (now : Bytes)
    (config_map : ConfigMap (List (Plugin M H))) (chunk_size : ℕ) where
  handle_scope_ready :
      (c : Http1Conn M) (r : Result (Unit {0}))
      → (first_poll (get_content_length c.request) c.input c.request.body).answer ≡ ready r
      → expect_body (ready r) ≡ ok tt
      → handle_scope now config_map chunk_size at_once c
        ≡ leave chunk_size c
            (first_poll (get_content_length c.request) c.input c.request.body).unread
            (Handle.handle_request now config_map
              (with_body c.request
                (first_poll (get_content_length c.request) c.input c.request.body).body.bytes)
              c.response)
  unfolding handle_scope handle_parsed read_body leave
  handle_scope_ready c r h k =
      let content_length : Result ℕ = get_content_length c.request in
      let polled : Polled = first_poll content_length c.input c.request.body in
      rw (drive_ready content_length c.input c.request.body r h) (
        rw h (
          rw k (
            ap
              (λ (b : RequestBody).
                leave chunk_size c polled.unread
                  (Handle.handle_request now config_map (record c.request { body = b }) c.response))
              (poll_body content_length c.input c.request.body r
                (not_panic content_length c.input c.request.body r h k) h))))

  -- The headers of a request are read, its body is not written, and the first poll of the reader
  -- would have an answer that is no error (its content is there, or it has no content length). Then,
  -- whatever comes in behind and whichever task runs when, the exchange in which the tasks run at the
  -- same time ends as the one does that reads the body first, on the same input, all of it there at
  -- once: if `proc` are handlers that come to what `Request::handle_request` gives for the body that
  -- they get, what they have come to when both tasks have ended makes the same response and leaves
  -- the same input.
  pub leave-handle_scope :
      (c : Http1Conn M) (proc : Handlers (Result (Handled M H))) (more : Bytes)
      (s : Scope (Result (Handled M H))) (r last : Result (Unit {0}))
      (result : Result (Handled M H))
      → c.request.body.is_written ≡ false
      → (ReadBody.poll (get_content_length c.request) c.input false c.request.body).answer ≡ ready r
      → expect_body (ready r) ≡ ok tt
      → ((bytes : Option Bytes)
          → outcome bytes proc
            ≡ Handle.handle_request now config_map (with_body c.request bytes) c.response)
      → Run (get_content_length c.request) (enter c.input c.request.body proc) more s
      → s.reading ≡ ready last
      → s.handlers ≡ finished result
      → leave chunk_size c s.arrived result
        ≡ handle_scope now config_map chunk_size at_once (record c { input = c.input ++ more })
  unfolding leave
  leave-handle_scope c proc more s r last result unwritten whole fine same run ended done =
      let content_length : Result ℕ = get_content_length c.request in
      let b : RequestBody = c.request.body in
      let h : content_length ≢ panic = not_panic content_length c.input b r whole fine in
      let (answer, left, bytes) = poll-Alike content_length c.input more false b b r h whole in
      let only : result ≡ outcome s.body.bytes proc =
        Run-outcome proc content_length c.input more b s last result h unwritten run ended done in
      elim (Fed-Run content_length c.input b r h whole proc more s run) [
        | unread e f ↦ absurd cc
        | read e f g ↦
            ap (λ (x : Bytes × Result (Handled M H)). leave chunk_size c x.0 x.1)
              (λ i. ((f ∙ sym left) i, (only ∙ same s.body.bytes) i))
            ∙ ap
                (λ (x : Option Bytes).
                  leave chunk_size c (first_poll content_length (c.input ++ more) b).unread
                    (Handle.handle_request now config_map (with_body c.request x) c.response))
                (g ∙ sym bytes)
            ∙ sym
                (handle_scope_ready (record c { input = c.input ++ more }) r (answer ∙ whole) fine)
      ]
