-- ===== src/Server/RawStream.antt =====
-- `RawStream` of jequi/src/lib.rs and jequi/src/tcp_stream.rs: a stream that is one of two, over TLS
-- or not. The streams behind it are `tokio`'s and `openssl`'s, here any with the operations of
-- `AsyncRead`, `AsyncBufRead` and `AsyncWrite`. What a task hands over to be woken is left out.
use jequi.Prelude.{ℕ, Bool, List, Bytes, Result, panic}
use jequi.Message.Body.{Poll, ready}

-- An operation that can panic gives a `Result`; a poll that is ready gives one in any case.
pub record AsyncStream (S : Type 0) : Type 0 where
  -- Reads into a buffer with room for so many bytes.
  pub poll_read : ℕ → S → S × Poll (Result Bytes)
  pub poll_fill_buf : S → S × Poll (Result Bytes)
  pub consume : ℕ → S → S × Result (Unit {0})
  pub poll_write : Bytes → S → S × Poll (Result ℕ)
  pub poll_write_vectored : List Bytes → S → S × Poll (Result ℕ)
  pub is_write_vectored : S → Bool
  pub poll_flush : S → S × Poll (Result (Unit {0}))
  pub poll_shutdown : S → S × Poll (Result (Unit {0}))

pub data RawStream (S T : Type 0) : Type 0 where
  ssl : S → RawStream S T
  normal : T → RawStream S T

module _ {S T : Type 0} (tls : AsyncStream S) (tcp : AsyncStream T) where
  -- What an operation on the inner stream makes of the outer one.
  abbrev pub in_ssl : {A : Type 0} → S × A → RawStream S T × A
  in_ssl (s, a) = (ssl s, a)

  abbrev pub in_normal : {A : Type 0} → T × A → RawStream S T × A
  in_normal (t, a) = (normal t, a)

  unfoldable pub poll_read : ℕ → RawStream S T → RawStream S T × Poll (Result Bytes)
  poll_read room (ssl s) = in_ssl (tls.poll_read room s)
  poll_read room (normal t) = in_normal (tcp.poll_read room t)

  -- `todo!()`
  unfoldable pub poll_fill_buf : RawStream S T → RawStream S T × Poll (Result Bytes)
  poll_fill_buf s = (s, ready panic)

  -- `todo!()`
  unfoldable pub consume : ℕ → RawStream S T → RawStream S T × Result (Unit {0})
  consume amt s = (s, panic)

  unfoldable pub poll_write : Bytes → RawStream S T → RawStream S T × Poll (Result ℕ)
  poll_write buf (ssl s) = in_ssl (tls.poll_write buf s)
  poll_write buf (normal t) = in_normal (tcp.poll_write buf t)

  unfoldable pub poll_write_vectored : List Bytes → RawStream S T → RawStream S T × Poll (Result ℕ)
  poll_write_vectored bufs (ssl s) = in_ssl (tls.poll_write_vectored bufs s)
  poll_write_vectored bufs (normal t) = in_normal (tcp.poll_write_vectored bufs t)

  unfoldable pub is_write_vectored : RawStream S T → Bool
  is_write_vectored (ssl s) = tls.is_write_vectored s
  is_write_vectored (normal t) = tcp.is_write_vectored t

  unfoldable pub poll_flush : RawStream S T → RawStream S T × Poll (Result (Unit {0}))
  poll_flush (ssl s) = in_ssl (tls.poll_flush s)
  poll_flush (normal t) = in_normal (tcp.poll_flush t)

  unfoldable pub poll_shutdown : RawStream S T → RawStream S T × Poll (Result (Unit {0}))
  poll_shutdown (ssl s) = in_ssl (tls.poll_shutdown s)
  poll_shutdown (normal t) = in_normal (tcp.poll_shutdown t)

  abbrev pub raw_stream : AsyncStream (RawStream S T)
  unfolding poll_read poll_fill_buf consume poll_write poll_write_vectored is_write_vectored
      poll_flush poll_shutdown
  raw_stream = record {
    poll_read = poll_read;
    poll_fill_buf = poll_fill_buf;
    consume = consume;
    poll_write = poll_write;
    poll_write_vectored = poll_write_vectored;
    is_write_vectored = is_write_vectored;
    poll_flush = poll_flush;
    poll_shutdown = poll_shutdown;
  }
