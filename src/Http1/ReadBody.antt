-- ===== src/Http1/ReadBody.antt =====
-- `ReadBody` of jequi/src/http1/read.rs: the future that reads the body of a request, polled while
-- the body arrives.
use jequi.Prelude.{
  ErrorKind, inl, inr, ◌⊎◌, not_found, Option, ℕ, ◌<◌, ◌≡◌, refl, Bool, true, false, none, some,
  List, [], ◌∷◌, ◌++◌, arith, leb, if◌then◌else◌, le→leb, Bytes, length, take, drop, length-append,
  take-length_append, drop-length_append, All, unexpected_eof, Result, ok, err, panic,
}
use jequi.Headers.{HeaderOps}
use jequi.Http1.Chunks.{concat}
use jequi.Message.Body.{RequestBody, Poll, pending, ready, write_body}
use jequi.Message.Request.{Request, get_content_length}

-- What a poll leaves: the bytes that have arrived and are not read, the body and the answer.
pub record Polled : Type 0 where
  pub unread : Bytes
  pub body : RequestBody
  pub answer : Poll (Result (Unit {0}))

-- `poll` reads into a buffer that it has just made: if fewer bytes have arrived than it wants, it
-- takes them from the connection and drops them with its buffer. `closed` says that no more follow.
unfoldable pub poll : Result ℕ → Bytes → Bool → RequestBody → Polled
poll (err e) arrived closed b = record {
  unread = arrived;
  body = (write_body none b).0;
  answer = ready (err e);
}
poll panic arrived closed b = record { unread = arrived; body = b; answer = ready panic }
poll (ok n) arrived closed b =
    if leb n (length arrived)
    then record {
      unread = drop n arrived;
      body = (write_body (some (take n arrived)) b).0;
      answer = ready (ok tt);
    }
    else if closed
    then record { unread = []; body = (write_body none b).0; answer = ready (err unexpected_eof) }
    else record { unread = []; body = b; answer = pending }

-- The future is polled each time that more has arrived, and a last time when the peer has closed.
-- What arrives when it has ended is left unread.
unfoldable pub drive : Result ℕ → List Bytes → Bytes → RequestBody → Polled
drive content_length [] unread b = poll content_length unread true b
drive content_length (part ∷ parts) unread b =
    let p = poll content_length (unread ++ part) false b in
    elim p.answer [
      | ready r ↦ record p { unread = p.unread ++ concat parts }
      | pending ↦ drive content_length parts p.unread p.body
    ]

-- `Http1Conn::read_body`, and its future driven to the end.
unfoldable pub read_body :
    {M : Type 0} ⦃ops : HeaderOps M⦄ → Request M → List Bytes → Bytes → Polled
unfolding drive get_content_length
read_body request parts unread = drive (get_content_length request) parts unread request.body

poll_whole :
    (content rest : Bytes) (closed : Bool) (b : RequestBody)
    → poll (ok (length content)) (content ++ rest) closed b
      ≡ record { unread = rest; body = (write_body (some content) b).0; answer = ready (ok tt) }
unfolding poll
poll_whole content rest closed b =
    rw
      (le→leb (length content) (length (content ++ rest))
        (omega (arith, length-append content rest)))
      (rw (take-length_append content rest, drop-length_append content rest) refl)

poll_short :
    (n : ℕ) (arrived : Bytes) (b : RequestBody)
    → length arrived < n
    → poll (ok n) arrived false b ≡ record { unread = []; body = b; answer = pending }
unfolding poll
poll_short n arrived b h = ground arith

poll_closed :
    (n : ℕ) (b : RequestBody)
    → 0 < n
    → poll (ok n) [] true b
      ≡ record { unread = []; body = (write_body none b).0; answer = ready (err unexpected_eof) }
unfolding poll
poll_closed n b h = ground arith

-- A body that has arrived whole at the first poll is read whole, and what follows it is left.
pub drive_whole :
    (content rest : Bytes) (parts : List Bytes) (b : RequestBody)
    → drive (ok (length content)) ((content ++ rest) ∷ parts) [] b ≡ record {
      unread = rest ++ concat parts;
      body = (write_body (some content) b).0;
      answer = ready (ok tt);
    }
unfolding drive
drive_whole content rest parts b =
    rw (poll_whole content rest false b, drive) (rw (poll_whole content rest false b) refl)

-- A body of which every part that arrives between two polls is shorter than the whole is lost,
-- whatever the parts hold together: the future ends with an unexpected end of file, and the body is
-- written as none.
pub drive_parts :
    (n : ℕ) (parts : List Bytes) (b : RequestBody)
    → 0 < n
    → All (λ part. length part < n) parts
    → drive (ok n) parts [] b
      ≡ record { unread = []; body = (write_body none b).0; answer = ready (err unexpected_eof) }
unfolding drive
drive_parts n [] b p h = poll_closed n b p
drive_parts n (part ∷ parts) b p (k, h) =
    rw (poll_short n part b k, drive) (rw (poll_short n part b k) (drive_parts n parts b p h))

-- A request carries a content: it says the length of one, or none and has none.
pub data Carries {M : Type 0} ⦃ops : HeaderOps M⦄ (request : Request M)
    : Option Bytes → Type 0 where
  nothing : get_content_length request ≡ err not_found → Carries request none
  content :
      {text : Bytes} → get_content_length request ≡ ok (length text) → Carries request (some text)

-- The text of a content behind the headers.
abbrev pub content_text : Option Bytes → Bytes
content_text none = []
content_text (some text) = text

-- `arrivals` is the way in which input comes: the parts between two polls of the future. A content
-- arrives whole if the first part has all of it; without a content any parts are right.
pub data ArrivesWhole (arrivals : Bytes → List Bytes) : Option Bytes → Bytes → Type 0 where
  nothing : {rest : Bytes} → concat (arrivals rest) ≡ rest → ArrivesWhole arrivals none rest
  content :
      {text rest : Bytes} (more : Bytes) (parts : List Bytes)
      → arrivals (text ++ rest) ≡ (text ++ more) ∷ parts
      → more ++ concat parts ≡ rest
      → ArrivesWhole arrivals (some text) rest

-- All that comes is there at the first poll.
abbrev pub at_once : Bytes → List Bytes
at_once input = input ∷ []

drive_error :
    (e : ErrorKind) (parts : List Bytes) (b : RequestBody)
    → drive (err e) parts [] b
      ≡ record { unread = concat parts; body = (write_body none b).0; answer = ready (err e) }
unfolding drive poll
drive_error e [] b = refl
drive_error e (part ∷ parts) b = refl

-- What the future of `read_body` leaves of a content that arrives whole.
pub read_body-Carries :
    {M : Type 0} ⦃ops : HeaderOps M⦄ (arrivals : Bytes → List Bytes) (request : Request M)
    (sent : Option Bytes) (rest : Bytes)
    → Carries request sent
    → ArrivesWhole arrivals sent rest
    → (r : Result (Unit {0})) × ((r ≡ ok tt) ⊎ (r ≡ err not_found))
      × (read_body request (arrivals (content_text sent ++ rest)) []
          ≡ record { unread = rest; body = (write_body sent request.body).0; answer = ready r })
unfolding read_body
read_body-Carries arrivals request none rest (nothing e) (nothing all) = (
  err not_found,
  inr refl,
  rw e (rw (drive_error not_found (arrivals rest) request.body) (rw all refl)),
)
read_body-Carries arrivals request (some text) rest (content e) (content more parts first all) =
    (ok tt, inl refl, rw e (rw first (rw (drive_whole text more parts request.body) (rw all refl))))
