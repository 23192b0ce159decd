-- ===== src/Message/Body/Race.antt =====
-- `GetBody::poll` and `write_body` of jequi/src/body.rs by their accesses to the body, as two threads
-- make them: there is no lock, and `get_mut` gives both the same body. The accesses of one thread
-- stay in their order, and each is seen at once by the other thread.
use jequi.Prelude.{
  ℕ, ◌≡◌, refl, sym, subst, ◌↔◌, true, false, Option, none, some, List, [], ◌∷◌, arith,
  if◌then◌else◌, Bytes,
}
use jequi.Message.Body.{RequestBody, Poll, pending, ready, poll, write_body}

-- A poll reads `is_written`; if that is not set, it stores its waker. A write stores the bytes and
-- sets `is_written`, and then wakes the waker that it finds.
pub data Access : Type 0 where
  loads registers stores wakes : Access

-- The body, what the poll has found so far, and the wakers woken. `pending` is a poll that is not
-- ready, or not made.
pub record Shared : Type 0 where
  pub body : RequestBody
  pub answer : Poll (Option Bytes)
  pub woken : List ℕ

module _ (w : ℕ) (bytes : Option Bytes) where
  unfoldable pub access : Access → Shared → Shared
  access loads s = record s { answer = if s.body.is_written then ready s.body.bytes else pending }
  access registers s = elim s.answer [
    | pending ↦ record s { body = record s.body { waker = some w } }
    | ready _ ↦ s
  ]
  access stores s = record s { body = record s.body { bytes = bytes; is_written = true } }
  access wakes s = record s { woken = elim s.body.waker [ none ↦ s.woken | some v ↦ v ∷ s.woken ] }

  unfoldable pub run : List Access → Shared → Shared
  unfolding access
  run [] s = s
  run (a ∷ more) s = run more (access a s)

-- The orders in which the accesses of two threads can fall.
pub data Interleaved {A : Type 0} : List A → List A → List A → Type 0 where
  done : Interleaved [] [] []
  left : {x : A} {xs ys zs : List A} → Interleaved xs ys zs → Interleaved (x ∷ xs) ys (x ∷ zs)
  right : {y : A} {xs ys zs : List A} → Interleaved xs ys zs → Interleaved xs (y ∷ ys) (y ∷ zs)

-- A body that nobody has polled or written.
abbrev pub fresh : RequestBody → Shared
fresh b = record { body = b; answer = pending; woken = [] }

-- The task waits, and nobody will wake it.
abbrev pub Lost : Shared → Type 0
Lost s = (s.answer ≡ pending) × (s.woken ≡ [])

abbrev pub polling : List Access
polling = loads ∷ registers ∷ []

abbrev pub writing : List Access
writing = stores ∷ wakes ∷ []

abbrev pub race : List Access
race = loads ∷ stores ∷ wakes ∷ registers ∷ []

-- One after the other, the accesses are the operations of the body.
pub run-poll :
    (w : ℕ) (bytes : Option Bytes) (b : RequestBody)
    → ((run w bytes polling (fresh b)).body, (run w bytes polling (fresh b)).answer) ≡ poll w b
unfolding run access poll
run-poll w bytes b = ground arith

pub run-write_body :
    (w : ℕ) (bytes : Option Bytes) (b : RequestBody)
    → (run w bytes writing (fresh b)).body ≡ (write_body bytes b).0
unfolding run access write_body
run-write_body w bytes b = refl

race-Lost_empty :
    (w : ℕ) (bytes old : Option Bytes) (order : List Access)
    → Interleaved polling writing order
    → Lost (run w bytes order (fresh (record { bytes = old; is_written = false; waker = none })))
      ↔ (order ≡ race)
unfolding run access
race-Lost_empty w bytes old order (left (left (right (right done)))) =
    (λ l. absurd cc, λ e. absurd cc)
race-Lost_empty w bytes old order (left (right (left (right done)))) =
    (λ l. absurd cc, λ e. absurd cc)
race-Lost_empty w bytes old order (left (right (right (left done)))) =
    (λ l. refl, λ e. (refl, refl))
race-Lost_empty w bytes old order (right (left (left (right done)))) =
    (λ l. absurd cc, λ e. absurd cc)
race-Lost_empty w bytes old order (right (left (right (left done)))) =
    (λ l. absurd cc, λ e. absurd cc)
race-Lost_empty w bytes old order (right (right (left (left done)))) =
    (λ l. absurd cc, λ e. absurd cc)

-- A task that polls a body which nobody has polled or written, while another writes it, is ready or
-- is woken in every order of their accesses but one: where it finds the body unwritten, and stores
-- its waker only after the other has stored the bytes and looked for a waker, it is neither.
pub race-Lost :
    (w : ℕ) (bytes : Option Bytes) (b : RequestBody) (order : List Access)
    → b.is_written ≡ false
    → b.waker ≡ none
    → Interleaved polling writing order
    → Lost (run w bytes order (fresh b)) ↔ (order ≡ race)
race-Lost w bytes b order h k i =
    subst (λ (x : RequestBody). Lost (run w bytes order (fresh x)) ↔ (order ≡ race))
      (λ j. record { bytes = b.bytes; is_written = sym h j; waker = sym k j })
      (race-Lost_empty w bytes b.bytes order i)
