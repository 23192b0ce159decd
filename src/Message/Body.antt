-- ===== src/Message/Body.antt =====
-- jequi/src/body.rs: the body of a request, written by the connection and awaited by handlers. A
-- waker is known by a number; `write_body` also gives the waker that it wakes.
pub mod Race
use jequi.Prelude.{
  ℕ, ◌≡◌, refl, ap, ◌∙◌, Bool, true, false, not, Option, none, some, List, [], ◌∷◌, ◌++◌, arith,
  if◌then◌else◌, Bytes,
}

pub record RequestBody : Type 0 where
  pub bytes : Option Bytes
  pub is_written : Bool
  pub waker : Option ℕ

abbrev pub default : RequestBody
default = record { bytes = none; is_written = false; waker = none }

-- `std::task::Poll`
pub data Poll {ℓ} (A : Type ℓ) : Type ℓ where
  pending : Poll A
  ready : A → Poll A

-- `GetBody::poll` by a task whose waker is `w`
unfoldable pub poll : ℕ → RequestBody → RequestBody × Poll (Option Bytes)
poll w b = if not b.is_written then (record b { waker = some w }, pending) else (b, ready b.bytes)

unfoldable pub write_body : Option Bytes → RequestBody → RequestBody × Option ℕ
write_body bs b = (record b { bytes = bs; is_written = true }, b.waker)

-- What the tasks that share a body do to it, in the order in which they do it.
pub data Event : Type 0 where
  polls : ℕ → Event
  writes : Option Bytes → Event

-- The body after the events, and the wakers woken on the way.
unfoldable pub run : RequestBody → List Event → RequestBody × List ℕ
run b [] = (b, [])
run b (polls w ∷ es) = run (poll w b).0 es
run b (writes bs ∷ es) =
    let (b', woken) = write_body bs b in
    let (c, more) = run b' es in (c, elim woken [ none ↦ more | some w ↦ w ∷ more ])

-- No write is among the events.
abbrev pub OnlyPolls : List Event → Type 0
OnlyPolls [] = Unit
OnlyPolls (polls w ∷ es) = OnlyPolls es
OnlyPolls (writes bs ∷ es) = ⊥

last_poll : Option ℕ → List Event → Option ℕ
last_poll w [] = w
last_poll w (polls v ∷ es) = last_poll (some v) es
last_poll w (writes bs ∷ es) = last_poll w es

-- Polls of an unwritten body leave it unwritten and keep the waker of the last of them.
run-OnlyPolls :
    (b : RequestBody) (es : List Event)
    → b.is_written ≡ false
    → OnlyPolls es
    → run b es ≡ (record b { waker = last_poll b.waker es }, [])
unfolding run poll last_poll
run-OnlyPolls b [] h k = refl
run-OnlyPolls b (polls w ∷ es) h k =
    ground (arith, run-OnlyPolls (record b { waker = some w }) es h k)
run-OnlyPolls b (writes bs ∷ es) h k = absurd k

run-append :
    (b : RequestBody) (xs ys : List Event)
    → run b (xs ++ ys) ≡ ((run (run b xs).0 ys).0, (run b xs).1 ++ (run (run b xs).0 ys).1)
unfolding run
run-append b [] ys = refl
run-append b (polls w ∷ xs) ys = run-append (poll w b).0 xs ys
run-append b (writes bs ∷ xs) ys = ground (arith, run-append (write_body bs b).0 xs ys)

-- A task that polls an unwritten body last before the body is written is the one that is woken.
pub wake_of_last_poll :
    (b : RequestBody) (es : List Event) (w : ℕ) (bs : Option Bytes)
    → b.is_written ≡ false
    → OnlyPolls es
    → (run b (es ++ (polls w ∷ writes bs ∷ []))).1 ≡ w ∷ []
wake_of_last_poll b es w bs h k =
    ap (λ r. r.1) (run-append b es (polls w ∷ writes bs ∷ []))
    ∙ ap (λ (r : RequestBody × List ℕ). r.1 ++ (run r.0 (polls w ∷ writes bs ∷ [])).1)
        (run-OnlyPolls b es h k)
    ∙ woken
  where
    woken : (run (record b { waker = last_poll b.waker es }) (polls w ∷ writes bs ∷ [])).1 ≡ w ∷ []
    woken = unfold run poll write_body in ground arith

-- What a poll after the events answers: the last write among them, else what it was before.
abbrev pub last_write : Poll (Option Bytes) → List Event → Poll (Option Bytes)
last_write p [] = p
last_write p (polls w ∷ es) = last_write p es
last_write p (writes bs ∷ es) = last_write (ready bs) es

poll-poll : (b : RequestBody) (w v : ℕ) → (poll v (poll w b).0).1 ≡ (poll v b).1
unfolding poll
poll-poll b w v = ground arith

poll-write_body :
    (b : RequestBody) (bs : Option Bytes) (v : ℕ) → (poll v (write_body bs b).0).1 ≡ ready bs
unfolding poll write_body
poll-write_body b bs v = refl

poll-run_from :
    (b : RequestBody) (es : List Event) (v : ℕ)
    → (poll v (run b es).0).1 ≡ last_write (poll v b).1 es
unfolding run
poll-run_from b [] v = refl
poll-run_from b (polls w ∷ es) v =
    poll-run_from (poll w b).0 es v ∙ ap (λ p. last_write p es) (poll-poll b w v)
poll-run_from b (writes bs ∷ es) v =
    poll-run_from (write_body bs b).0 es v ∙ ap (λ p. last_write p es) (poll-write_body b bs v)

-- Whatever tasks poll and write a body that is not written, in whatever order, a poll by any task is
-- pending until the first write and then gives what was written last.
pub poll-run :
    (b : RequestBody) (es : List Event) (v : ℕ)
    → b.is_written ≡ false
    → (poll v (run b es).0).1 ≡ last_write pending es
unfolding poll
poll-run b es v h = poll-run_from b es v ∙ rw h refl
