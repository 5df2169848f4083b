-- ===== src/Exchange/Interleaved.antt =====
-- A `SET` and a `GET` of its key, with operations of other tasks in between.
use redis_demo.Base.{◌≡◌, refl, ◌∙◌, ap, true, false, ◌++◌, Bytes, some, ok, is_refl}
use redis_demo.Std.HashMap
use redis_demo.Std.BTreeSet.{Instant}
use redis_demo.Env.{Env}
use redis_demo.Frame.{bulk}
use redis_demo.Frame.Wire.{encode, IsWire}
use redis_demo.Failure.{OrIo, OrIo-weaken}
use redis_demo.Command.{Set, get, set}
use redis_demo.Command.IntoFrame.{get_frame, set_frame}
use redis_demo.Command.RoundTrip.{IsRequest, whole_millis}
use redis_demo.Db.{Shared, Broadcast, Entry, bytes_of}
use redis_demo.Db.Steps.{Runs}
use redis_demo.Db.Spared.{AreSparing, Runs-Has}
use redis_demo.Db.Spec.{Spec, sets, fits, instant, entry}
use redis_demo.Db.Spec.Kept.{IsOpen}
use redis_demo.Connection.{Stream, Connection, Breaks}
use redis_demo.Subscriptions.{StreamMap}
use redis_demo.Apply.{value_frame}
use redis_demo.Server.Session.{Session, reading, arrives, turn}
use redis_demo.Client
use redis_demo.Client.Requests.{get-OrIo}
use redis_demo.Exchange.{IsJoined, served, reply_arrives}

module _ {S T R M : Type 0} (x : Env) (t : Stream S) (b : Broadcast T R) (p : StreamMap R M) where
  module _ (cmd : Set) (now now₂ : Instant) (db db₁ db₂ db₃ : Shared T) (s s' s₂ s₂' : Session S M)
      (c : Connection S) (rest rest₂ rest₃ : Bytes) where
    -- The entry that the `SET` makes.
    abbrev pub made : Entry
    made = entry cmd.value (instant now (whole_millis cmd.expire))

    -- The frame of a `SET` arrives at a task of the server, which returns from its turn. Then other tasks
    -- do any number of operations on the database, of any kind but a `SET` of the same key or a purge at
    -- or after the instant at which the entry expires; none has panicked and the database is not shut
    -- down. Then the frame of a `GET` of that key arrives at a task, the same or another, which returns
    -- from its turn. If what it wrote arrives at the client, then `Client::get` returns the value of the
    -- `SET`, unless the client's stream fails. Before the `SET`, the database had not panicked and was
    -- not shut down, and the platform holds the instant of the expiry.
    pub get_between-OrIo :
        IsRequest (set cmd)
        → IsWire x.max_capacity (set_frame cmd)
        → IsWire x.max_capacity (get_frame (record { key = cmd.key }))
        → IsWire x.max_capacity (bulk cmd.value)
        → fits x (sets now cmd.key cmd.value (whole_millis cmd.expire)) ≡ true
        → IsOpen db
        → s.mode ≡ reading
        → s.dst.read_buf ++ t.arriving s.dst.stream ≡ encode (set_frame cmd) ++ rest
        → turn x t p b (arrives now) s db ≡ (ok s', db₁)
        → (r : Runs x b db₁ db₂) → AreSparing cmd.key made.expires_at r
        → db₂.poisoned ≡ false
        → db₂.state.shutdown ≡ false
        → s₂.mode ≡ reading
        → s₂.dst.read_buf ++ t.arriving s₂.dst.stream
          ≡ encode (get_frame (record { key = cmd.key })) ++ rest₂
        → turn x t p b (arrives now₂) s₂ db₂ ≡ (ok s₂', db₃)
        → IsJoined x t b p s₂ s₂' c rest₃
        → OrIo (Breaks t) (λ r. r.0 ≡ some cmd.value) (Client.get x t cmd.key c)
    get_between-OrIo text w w₂ w₃ fit ready waits input turned r spares sound running waits₂ input₂
          turned₂ joined =
        let first =
          served x t b p now (set cmd) (set_frame cmd) _ s s' db db₁ rest w refl text refl fit ready
            waits input turned in
        let held : HashMap.lookup cmd.key db₁.state.entries ≡ some made =
          ap (λ (m : Spec). m.values cmd.key) first.called ∙ rw (is_refl cmd.key) refl in
        let (cons, kept) = Runs-Has cmd.key made r spares first.still_open.consistent held in
        OrIo-weaken
          (get-OrIo x t c rest₃ (bulk cmd.value) cmd.key (some cmd.value) refl w₃ (
            reply_arrives x t b p now₂ (get (record { key = cmd.key }))
              (get_frame (record { key = cmd.key })) _ s₂ s₂' db₂ db₃ rest₂ w₂ refl text refl refl
              (record { consistent = cons; sound = sound; running = running }) waits₂ input₂ turned₂
              c rest₃ joined
            ∙ ap (λ o. encode (value_frame (bytes_of o)) ++ rest₃) kept))
          λ q h. h.answer
