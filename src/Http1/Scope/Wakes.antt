-- ===== src/Http1/Scope/Wakes.antt =====
-- What the handlers come to with the body that is read, and that they can wait for it for ever.
use jequi.Prelude.{
  ℕ, ◌≡◌, refl, sym, ap, subst, ◌∙◌, ◌≢◌, inl, inr, Bool, true, false, Option, none, some, [],
  arith, leb, Bool-cases, Bytes, length, take, unexpected_eof, Result, ok, err, panic,
}
use jequi.Message.Body.{RequestBody, pending, ready, write_body}
use jequi.Http1.ReadBody
use jequi.Http1.ReadBody.{Polled}
use jequi.Http1.Scope.{
  Handlers, finished, get_body, Scope, enter, poll_reader, poll_handlers, register, wake_handlers,
  Step, arrives, closes, reads, handles, registers, wakes, Run, start, next, outcome,
}

-- A poll of the reader leaves the body as it is, or writes it and is ready.
pub data Reads (b : RequestBody) (p : Polled) : Type 0 where
  waits : p.answer ≡ pending → p.body ≡ b → Reads b p
  writes :
      (r : Result (Unit {0})) (bs : Option Bytes)
      → p.answer ≡ ready r
      → p.body ≡ (write_body bs b).0
      → Reads b p

pub poll-Reads :
    (content_length : Result ℕ) (arrived : Bytes) (closed : Bool) (b : RequestBody)
    → content_length ≢ panic
    → Reads b (ReadBody.poll content_length arrived closed b)
unfolding ReadBody.poll
poll-Reads (err e) arrived closed b h = writes (err e) none refl refl
poll-Reads panic arrived closed b h = absurd (h refl)
poll-Reads (ok n) arrived closed b h = elim (Bool-cases (leb n (length arrived))) [
  | inl e ↦ rw e (writes (ok tt) (some (take n arrived)) refl refl)
  | inr e ↦ rw e (elim (Bool-cases closed) [
    | inl f ↦ rw f (writes (err unexpected_eof) none refl refl)
    | inr f ↦ rw f (waits refl refl)
  ])
]

module _ {A : Type 0} where
  pub poll_handlers_unwritten :
      (go_on : Option Bytes → Handlers A) (s : Scope A)
      → s.body.is_written ≡ false
      → poll_handlers go_on s ≡ record s { registering = true }
  unfolding poll_handlers
  poll_handlers_unwritten go_on s h = ground arith

  pub poll_handlers_written :
      (go_on : Option Bytes → Handlers A) (s : Scope A)
      → s.body.is_written ≡ true
      → poll_handlers go_on s ≡ record s { handlers = go_on s.body.bytes }
  unfolding poll_handlers
  poll_handlers_written go_on s h = ground arith

module _ {A : Type 0} (proc : Handlers A) where
  -- Until the body is written nothing of the handlers has run past their first wait; after it they
  -- have taken it and nothing else.
  pub data Sound (s : Scope A) : Type 0 where
    unread : s.reading ≡ pending → s.body.is_written ≡ false → s.handlers ≡ proc → Sound s
    read :
        (r : Result (Unit {0}))
        → s.reading ≡ ready r
        → s.body.is_written ≡ true
        → outcome s.body.bytes s.handlers ≡ outcome s.body.bytes proc
        → Sound s

  Sound-enter :
      (arrived : Bytes) (b : RequestBody) → b.is_written ≡ false → Sound (enter arrived b proc)
  unfolding enter
  Sound-enter arrived b h = unread refl h refl

  Sound-poll_reader :
      (content_length : Result ℕ) (s : Scope A)
      → content_length ≢ panic
      → s.reading ≡ pending
      → Sound s
      → Sound (poll_reader content_length s)
  unfolding poll_reader write_body
  Sound-poll_reader content_length s h k (read r e w o) = absurd cc
  Sound-poll_reader content_length s h k (unread e w o) =
      elim (poll-Reads content_length s.arrived s.closed s.body h) [
        | waits f g ↦ unread f (ap (λ b. b.is_written) g ∙ w) o
        | writes r bs f g ↦
            read r f (ap (λ b. b.is_written) g)
              (ap (outcome (ReadBody.poll content_length s.arrived s.closed s.body).body.bytes) o)
      ]

  Sound-poll_handlers :
      (go_on : Option Bytes → Handlers A) (s : Scope A)
      → s.handlers ≡ get_body go_on
      → Sound s
      → Sound (poll_handlers go_on s)
  Sound-poll_handlers go_on s h (unread e w o) =
      subst Sound (sym (poll_handlers_unwritten go_on s w)) (unread e w o)
  Sound-poll_handlers go_on s h (read r e w o) =
      subst Sound (sym (poll_handlers_written go_on s w))
        (read r e w (sym (ap (outcome s.body.bytes) h) ∙ o))

  -- The steps that touch wakers and the input leave the rest.
  Sound-Step :
      (content_length : Result ℕ) (s t : Scope A) (part : Bytes)
      → content_length ≢ panic
      → Sound s
      → Step content_length s part t
      → Sound t
  unfolding register wake_handlers
  Sound-Step content_length s t part h (unread e w o) (arrives _ c) = unread e w o
  Sound-Step content_length s t part h (read r e w o) (arrives _ c) = read r e w o
  Sound-Step content_length s t part h (unread e w o) closes = unread e w o
  Sound-Step content_length s t part h (read r e w o) closes = read r e w o
  Sound-Step content_length s t part h (unread e w o) (registers k) = unread e w o
  Sound-Step content_length s t part h (read r e w o) (registers k) = read r e w o
  Sound-Step content_length s t part h (unread e w o) (wakes k) = unread e w o
  Sound-Step content_length s t part h (read r e w o) (wakes k) = read r e w o
  Sound-Step content_length s t part h sound (reads k awake) =
      Sound-poll_reader content_length s h k sound
  Sound-Step content_length s t part h sound (handles go_on k awake free) =
      Sound-poll_handlers go_on s k sound

  pub Sound-Run :
      (content_length : Result ℕ) (s t : Scope A) (more : Bytes)
      → content_length ≢ panic
      → Sound s
      → Run content_length s more t
      → Sound t
  Sound-Run content_length s t more h sound start = sound
  Sound-Run content_length s t more h sound (next {t = u} run step) =
      Sound-Step content_length u t _ h (Sound-Run content_length s u _ h sound run) step

  -- Whatever comes in and whichever task runs when, once the reader has ended, handlers that have
  -- finished have come to what they come to with the body that the reader has written.
  pub Run-outcome :
      (content_length : Result ℕ) (arrived more : Bytes) (b : RequestBody) (s : Scope A)
      (r : Result (Unit {0})) (a : A)
      → content_length ≢ panic
      → b.is_written ≡ false
      → Run content_length (enter arrived b proc) more s
      → s.reading ≡ ready r
      → s.handlers ≡ finished a
      → a ≡ outcome s.body.bytes proc
  Run-outcome content_length arrived more b s r a h k run ended f =
      elim (Sound-Run content_length (enter arrived b proc) s more h (Sound-enter arrived b k)
        run) [ unread e w o ↦ absurd cc | read q e w o ↦ sym (ap (outcome s.body.bytes) f) ∙ o ]

module _ {A : Type 0} where
  -- The reader has ended, and the handlers wait.
  pub record Stuck (go_on : Option Bytes → Handlers A) (s : Scope A) : Type 0 where
    pub result : Result (Unit {0})
    pub ended : s.reading ≡ ready result
    pub waiting : s.handlers_wait ≡ true
    pub at_body : s.handlers ≡ get_body go_on
    pub registered : s.registering ≡ false
    pub woken : s.waking ≡ false

  Stuck-Step :
      (go_on : Option Bytes → Handlers A) (content_length : Result ℕ) (s t : Scope A) (part : Bytes)
      → Stuck go_on s
      → Step content_length s part t
      → Stuck go_on t
  Stuck-Step go_on content_length s t part k (arrives _ c) = record {
    result = k.result;
    ended = k.ended;
    waiting = k.waiting;
    at_body = k.at_body;
    registered = k.registered;
    woken = k.woken;
  }
  Stuck-Step go_on content_length s t part k closes = record {
    result = k.result;
    ended = k.ended;
    waiting = k.waiting;
    at_body = k.at_body;
    registered = k.registered;
    woken = k.woken;
  }
  Stuck-Step go_on content_length s t part k (reads e awake) =
      let no_poll : ready k.result ≡ pending = sym k.ended ∙ e in absurd cc
  Stuck-Step go_on content_length s t part k (handles _ e awake free) =
      let no_turn : true ≡ false = sym k.waiting ∙ awake in absurd cc
  Stuck-Step go_on content_length s t part k (registers e) =
      let no_waker : true ≡ false = sym e ∙ k.registered in absurd cc
  Stuck-Step go_on content_length s t part k (wakes e) =
      let no_wake : true ≡ false = sym e ∙ k.woken in absurd cc

  Stuck-Run :
      (go_on : Option Bytes → Handlers A) (content_length : Result ℕ) (s t : Scope A) (more : Bytes)
      → Stuck go_on s
      → Run content_length s more t
      → Stuck go_on t
  Stuck-Run go_on content_length s t more k start = k
  Stuck-Run go_on content_length s t more k (next {t = u} run step) =
      Stuck-Step go_on content_length u t _ (Stuck-Run go_on content_length s u _ k run) step

  -- The handlers look, the reader reads, writes and wakes, and only then do they store their waker.
  abbrev looked : Bytes → RequestBody → (Option Bytes → Handlers A) → Scope A
  unfolding enter
  looked arrived b go_on = record (enter arrived b (get_body go_on)) { registering = true }

  abbrev lost : Result ℕ → Bytes → RequestBody → (Option Bytes → Handlers A) → Scope A
  lost content_length arrived b go_on =
      register (wake_handlers (poll_reader content_length (looked arrived b go_on)))

  -- If handlers ask for a body that nobody has polled or written, and all of it has come in (or the
  -- first poll of the reader has an answer for another reason), then the tasks can take steps after
  -- which the handlers never finish, whatever else comes in and whichever task runs when.
  pub Run-never_finished :
      (go_on : Option Bytes → Handlers A) (content_length : Result ℕ) (arrived : Bytes)
      (b : RequestBody) (r : Result (Unit {0}))
      → b.is_written ≡ false
      → b.waker ≡ none
      → (ReadBody.poll content_length arrived false b).answer ≡ ready r
      → (s : Scope A) × Run content_length (enter arrived b (get_body go_on)) [] s
        × ((more : Bytes) (t : Scope A) (a : A)
            → Run content_length s more t
            → t.handlers ≢ finished a)
  unfolding enter poll_reader wake_handlers register
  Run-never_finished go_on content_length arrived b r h k answered =
      let stuck : Stuck go_on (lost content_length arrived b go_on) = record {
        result = r;
        ended = answered;
        waiting = refl;
        at_body = refl;
        registered = refl;
        woken = refl;
      } in
      (
        lost content_length arrived b go_on,
        next
            (next
              (next
                (next start (
                  subst (Step content_length (enter arrived b (get_body go_on)) [])
                    (poll_handlers_unwritten go_on (enter arrived b (get_body go_on)) h)
                    (handles go_on refl refl refl)))
                (reads refl refl))
              (wakes (rw answered refl)))
            (registers refl),
        λ more t a run e.
            let never : get_body go_on ≡ finished a =
              sym (Stuck-Run go_on content_length _ t more stuck run).at_body ∙ e in
            absurd cc,
      )
