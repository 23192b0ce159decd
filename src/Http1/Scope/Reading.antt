-- ===== src/Http1/Scope/Reading.antt =====
-- What the reader leaves in the scope, whatever comes in behind the body.
use jequi.Prelude.{
  take-append, drop-append, ℕ, ◌≤◌, ◌≡◌, refl, sym, ap, subst, ◌∙◌, ◌≢◌, inl, inr, Bool, true,
  false, Option, some, ◌++◌, append-nil, append_assoc, arith, leb, leb→le, le→leb, Bool-cases,
  Bytes, length, take, drop, length-append, Result, ok, err, panic,
}
use jequi.Message.Body.{RequestBody, pending, ready, write_body}
use jequi.Http1.ReadBody
use jequi.Http1.ReadBody.{Polled, drive, read_body}
use jequi.Http1.Scope.{
  Handlers, Scope, enter, poll_reader, poll_handlers, Step, arrives, closes, reads, handles,
  registers, wakes, register, wake_handlers, Run, start, next,
}
use jequi.Http1.Scope.Wakes.{poll_handlers_unwritten, poll_handlers_written}

-- What two polls have in common.
abbrev pub Alike : Polled → Bytes → Polled → Type 0
Alike p more q =
    (q.answer ≡ p.answer) × (q.unread ≡ p.unread ++ more) × (q.body.bytes ≡ p.body.bytes)

poll_enough :
    (n : ℕ) (arrived : Bytes) (closed : Bool) (b : RequestBody)
    → n ≤ length arrived
    → ReadBody.poll (ok n) arrived closed b ≡ record {
      unread = drop n arrived;
      body = (write_body (some (take n arrived)) b).0;
      answer = ready (ok tt);
    }
unfolding ReadBody.poll
poll_enough n arrived closed b h = rw (le→leb n (length arrived) h) refl

short_poll :
    (n : ℕ) (arrived : Bytes) (b : RequestBody)
    → leb n (length arrived) ≡ false
    → (ReadBody.poll (ok n) arrived false b).answer ≡ pending
unfolding ReadBody.poll
short_poll n arrived b h = rw h refl

ready≢pending : {x : Result (Unit {0})} → ready x ≢ pending
ready≢pending e = cc

-- A poll that is ready takes its own bytes only, whatever else is there.
pub poll-Alike :
    (content_length : Result ℕ) (arrived more : Bytes) (closed : Bool) (b d : RequestBody)
    (r : Result (Unit {0}))
    → content_length ≢ panic
    → (ReadBody.poll content_length arrived false b).answer ≡ ready r
    → Alike
        (ReadBody.poll content_length arrived false b)
        more
        (ReadBody.poll content_length (arrived ++ more) closed d)
unfolding ReadBody.poll write_body
poll-Alike (err e) arrived more closed b d r h k = (refl, refl, refl)
poll-Alike panic arrived more closed b d r h k = absurd (h refl)
poll-Alike (ok n) arrived more closed b d r h k = elim (Bool-cases (leb n (length arrived))) [
  | inl e ↦
      let enough : n ≤ length arrived = leb→le n (length arrived) e in
      rw (poll_enough n arrived false b enough) (
        rw (poll_enough n (arrived ++ more) closed d (omega (arith, length-append arrived more)))
          (refl, drop-append n arrived more enough, ap some (take-append n arrived more enough)))
  | inr e ↦ absurd (ready≢pending (sym k ∙ short_poll n arrived b e))
]

module _ (content_length : Result ℕ) (input : Bytes) (b : RequestBody) where
  abbrev pub first_poll : Polled
  first_poll = ReadBody.poll content_length input false b

  -- The scope after `more` has come in: nothing is read, or what the first poll would have read.
  pub data Fed {A : Type 0} (more : Bytes) (s : Scope A) : Type 0 where
    unread : s.reading ≡ pending → s.arrived ≡ input ++ more → Fed more s
    read :
        s.reading ≡ first_poll.answer
        → s.arrived ≡ first_poll.unread ++ more
        → s.body.bytes ≡ first_poll.body.bytes
        → Fed more s

  module _ {A : Type 0} (r : Result (Unit {0})) (h : content_length ≢ panic)
      (whole : first_poll.answer ≡ ready r) where
    Fed-poll_reader :
        (more : Bytes) (s : Scope A)
        → s.reading ≡ pending
        → Fed more s
        → Fed more (poll_reader content_length s)
    unfolding poll_reader
    Fed-poll_reader more s k (unread e f) =
        let (answer, left, bytes) =
          poll-Alike content_length input more s.closed b s.body r h whole in
        let same : ReadBody.poll content_length s.arrived s.closed s.body
            ≡ ReadBody.poll content_length (input ++ more) s.closed s.body =
          ap (λ t. ReadBody.poll content_length t s.closed s.body) f in
        read (ap (λ p. p.answer) same ∙ answer) (ap (λ p. p.unread) same ∙ left)
          (ap (λ p. p.body.bytes) same ∙ bytes)
    Fed-poll_reader more s k (read e f g) = absurd (ready≢pending (sym whole ∙ sym e ∙ k))

    Fed-poll_handlers :
        (more : Bytes) (go_on : Option Bytes → Handlers A) (s : Scope A)
        → Fed more s
        → Fed more (poll_handlers go_on s)
    Fed-poll_handlers more go_on s fed = elim (Bool-cases s.body.is_written) [
      | inl e ↦
          subst (Fed more) (sym (poll_handlers_written go_on s e))
            (elim fed [ unread f g ↦ unread f g | read f g k ↦ read f g k ])
      | inr e ↦
          subst (Fed more) (sym (poll_handlers_unwritten go_on s e))
            (elim fed [ unread f g ↦ unread f g | read f g k ↦ read f g k ])
    ]

    Fed-arrives :
        (more part : Bytes) (s : Scope A)
        → Fed more s
        → Fed (more ++ part) (record s { arrived = s.arrived ++ part; reader_waits = false })
    Fed-arrives more part s (unread e f) =
        unread e (ap (λ t. t ++ part) f ∙ append_assoc input more part)
    Fed-arrives more part s (read e f g) =
        read e (ap (λ t. t ++ part) f ∙ append_assoc first_poll.unread more part) g

    Fed-closes :
        (more : Bytes) (s : Scope A)
        → Fed more s
        → Fed more (record s { closed = true; reader_waits = false })
    Fed-closes more s (unread e f) = unread e f
    Fed-closes more s (read e f g) = read e f g

    Fed-register : (more : Bytes) (s : Scope A) → Fed more s → Fed more (register s)
    unfolding register
    Fed-register more s (unread e f) = unread e f
    Fed-register more s (read e f g) = read e f g

    Fed-wake_handlers : (more : Bytes) (s : Scope A) → Fed more s → Fed more (wake_handlers s)
    unfolding wake_handlers
    Fed-wake_handlers more s (unread e f) = unread e f
    Fed-wake_handlers more s (read e f g) = read e f g

    Fed-Step :
        (more part : Bytes) (s t : Scope A)
        → Fed more s
        → Step content_length s part t
        → Fed (more ++ part) t
    Fed-Step more part s t fed (arrives _ c) = Fed-arrives more part s fed
    Fed-Step more part s t fed closes = rw append-nil (Fed-closes more s fed)
    Fed-Step more part s t fed (reads k awake) = rw append-nil (Fed-poll_reader more s k fed)
    Fed-Step more part s t fed (handles go_on k awake free) =
        rw append-nil (Fed-poll_handlers more go_on s fed)
    Fed-Step more part s t fed (registers k) = rw append-nil (Fed-register more s fed)
    Fed-Step more part s t fed (wakes k) = rw append-nil (Fed-wake_handlers more s fed)

    pub Fed-Run :
        (proc : Handlers A) (more : Bytes) (s : Scope A)
        → Run content_length (enter input b proc) more s
        → Fed more s
    unfolding enter
    Fed-Run proc more s start = unread refl (rw append-nil refl)
    Fed-Run proc more s (next {t = u} run step) = Fed-Step _ _ u s (Fed-Run proc _ u run) step
