-- ===== src/Connection.antt =====
-- redis-lib/src/connection.rs: a connection reads frames from a stream and writes frames to it.
pub mod Write
pub mod Read
pub mod Speaks
use redis_demo.Base.{ℕ, ◌≡◌, Bytes, [], ◌++◌, Option, none, some}

-- `BufWriter<TcpStream>` of tokio, for streams `S`: what the program relies on of it. `written` is
-- what the calls of `write_all` were given, `flushed` what was passed on to the socket, `arriving`
-- what the peer still sends before it closes its side. `none` is an `io::Error`.
pub record Stream (S : Type 0) : Type 0 where
  pub written : S → Bytes
  pub flushed : S → Bytes
  pub arriving : S → Bytes
  pub write_all : S → Bytes → Option S
  pub write_all_lem :
      (s s' : S) (b : Bytes)
      → write_all s b ≡ some s'
      → (written s' ≡ written s ++ b) × (arriving s' ≡ arriving s)
  pub flush : S → Option S
  pub flush_lem :
      (s s' : S)
      → flush s ≡ some s'
      → (flushed s' ≡ written s) × (written s' ≡ written s) × (arriving s' ≡ arriving s)
  -- `read_buf`: the bytes that were appended to the buffer; no bytes at the end of the stream only
  pub read_buf : S → Option (Bytes × S)
  pub read_buf_lem :
      (s s' : S) (b : Bytes)
      → read_buf s ≡ some (b, s')
      → (arriving s ≡ b ++ arriving s') × (written s' ≡ written s) × (flushed s' ≡ flushed s)
  pub read_buf_end : (s s' : S) → read_buf s ≡ some ([], s') → arriving s ≡ []

-- An operation of the stream fails in some state.
pub data Breaks {S : Type 0} (t : Stream S) : Type 0 where
  write_breaks : (s : S) (b : Bytes) → t.write_all s b ≡ none → Breaks t
  flush_breaks : (s : S) → t.flush s ≡ none → Breaks t
  read_breaks : (s : S) → t.read_buf s ≡ none → Breaks t

pub record Connection (S : Type 0) : Type 0 where
  pub stream : S
  pub read_buf : Bytes

-- `Connection::new`
abbrev pub new : {S : Type 0} → S → Connection S
new s = record { stream = s; read_buf = [] }
