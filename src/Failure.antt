-- ===== src/Failure.antt =====
-- `crate::Error` (redis-lib/src/lib.rs): any of the errors that `?` turns into a boxed one.
pub mod Text
use redis_demo.Base.{Bytes, Outcome, ok, err, ◌>>=◌}
use redis_demo.Frame
use redis_demo.Frame.{Frame}
use redis_demo.Parse.{ParseError}

pub data Failure : Type 0 where
  -- `frame::Error`
  frame : Frame.Error → Failure
  -- `ParseError`
  parse : ParseError → Failure
  -- a `std::io::Error` of the socket
  io : Failure
  -- "connection reset by peer", and `ErrorKind::ConnectionReset` of the client
  reset_by_peer reset_by_server : Failure
  -- "currently `SET` only supports the expiration option"
  set_option : Failure
  -- "`Unsubscribe` is unsupported in this context"
  unsubscribe_unsupported : Failure
  -- "unexpected frame: …"
  unexpected_frame : Frame → Failure
  -- the text of an error frame from the server
  server_error : Bytes → Failure
  -- "channel(s) must be provided"
  no_channels : Failure

-- The run returned with `P`, or an operation of the stream failed, of which `X` says more.
pub data OrIo (X : Type 0) {A : Type 0} (P : A → Type 0) : Outcome Failure A → Type 0 where
  returned : (a : A) → P a → OrIo X P (ok a)
  broken : X → OrIo X P (err io)

module _ {X A : Type 0} {P : A → Type 0} where
  pub OrIo-bind :
      {B : Type 0} {Q : B → Type 0} {m : Outcome Failure A} {f : A → Outcome Failure B}
      → OrIo X P m
      → ((a : A) → P a → OrIo X Q (f a))
      → OrIo X Q (m >>= f)
  OrIo-bind (returned a h) k = k a h
  OrIo-bind (broken h) k = broken h

  pub OrIo-weaken :
      {Q : A → Type 0} {m : Outcome Failure A} → OrIo X P m → ((a : A) → P a → Q a) → OrIo X Q m
  OrIo-weaken (returned a h) k = returned a (k a h)
  OrIo-weaken (broken h) k = broken h
