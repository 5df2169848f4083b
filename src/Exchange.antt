-- ===== src/Exchange.antt =====
-- A client (redis-lib/src/clients/client.rs) and the server (redis-lib/src/server.rs) at the two ends
-- of a connection: what the one writes arrives at the other.
pub mod Messages
pub mod Interleaved
pub mod Subscribing
use redis_demo.Base.{
  ◌≡◌, refl, sym, ◌∙◌, ap, subst, true, ◌++◌, Bytes, Option, some, Outcome, ok, Bool-cases, inl,
  inr, ◌is◌, if◌then◌else◌, ℕ,
}
use mathlib.Core.List.{append_cancel_left}
use redis_demo.Std.HashMap
use redis_demo.Std.BTreeSet.{Instant}
use redis_demo.Env.{Env}
use redis_demo.Frame.{Frame}
use redis_demo.Frame.Wire.{encode, IsWire}
use redis_demo.Failure.{Failure, OrIo, returned, OrIo-weaken}
use redis_demo.Command.{Command, Set, get, set}
use redis_demo.Command.IntoFrame.{get_frame, set_frame}
use redis_demo.Command.RoundTrip.{into_frame, IsRequest, received, whole_millis}
use redis_demo.Db.{Shared, Broadcast, bytes_of}
use redis_demo.Db.Spec.{Call, Spec, sets, answer, fits, view}
use redis_demo.Db.Spec.Kept.{IsOpen}
use redis_demo.Connection.{Stream, Connection, Breaks}
use redis_demo.Subscriptions.{StreamMap}
use redis_demo.Apply.{value_frame}
use redis_demo.Server.Session.{Session, reading, arrives, turn}
use redis_demo.Server.Session.Answers.{IsServed, call_of, reply_frame, turn-answers}
use redis_demo.Client
use redis_demo.Client.Requests.{get-OrIo}

pub OrIo-ok :
    {X A : Type 0} {P : A → Type 0} {m : Outcome Failure A} {a : A} → OrIo X P m → m ≡ ok a → P a
OrIo-ok {P} (returned b h) e = subst P (cc) h
OrIo-ok _ e = cc

module _ {S T R M : Type 0} (x : Env) (t : Stream S) (b : Broadcast T R) (p : StreamMap R M) where
  -- The client's end `c` reads what the turn from `s` to `s'` wrote, and then `rest`.
  abbrev pub IsJoined : Session S M → Session S M → Connection S → Bytes → Type 0
  IsJoined s s' c rest =
      (sent : Bytes) × ((t.written s'.dst.stream ≡ t.written s.dst.stream ++ sent)
        × (c.read_buf ++ t.arriving c.stream ≡ sent ++ rest))

  module _ (now : Instant) (cmd : Command) (f : Frame) (call : Call) (s s' : Session S M)
      (db db' : Shared T) (rest : Bytes) (w : IsWire x.max_capacity f)
      (made : into_frame cmd ≡ some f) (request : IsRequest cmd)
      (calls : call_of now (received cmd) ≡ some call) (fit : fits x call ≡ true)
      (ready : IsOpen db) (waits : s.mode ≡ reading)
      (input : s.dst.read_buf ++ t.arriving s.dst.stream ≡ encode f ++ rest)
      (turned : turn x t p b (arrives now) s db ≡ (ok s', db')) where
    pub served : IsServed x t b call rest s.dst db s'.mode s'.dst db'
    served =
        subst (λ d. IsServed x t b call rest s.dst db s'.mode s'.dst d) (ap (λ r. r.1) turned)
          (OrIo-ok
            (turn-answers x t b p now cmd f call s db rest w made request calls fit ready waits
              input)
            (ap (λ r. r.0) turned))

    -- The reply arrives at the client.
    pub reply_arrives :
        (c : Connection S) (rest₂ : Bytes)
        → IsJoined s s' c rest₂
        → c.read_buf ++ t.arriving c.stream
          ≡ encode (reply_frame (answer call (view x b db)).0) ++ rest₂
    reply_arrives c rest₂ (sent, (wrote, comes)) =
        comes
        ∙ ap (λ q. q ++ rest₂)
            (append_cancel_left (t.written s.dst.stream) _ _ (sym wrote ∙ served.reply_written))

  bytes_of_if :
      (m : Spec) (now : Instant) (key value j : Bytes) (expire : Option ℕ)
      → bytes_of ((answer (sets now key value expire) m).1.values j)
        ≡ (if key is j then some value else bytes_of (m.values j))
  bytes_of_if m now key value j expire = elim (Bool-cases (key is j)) [
    | inl same ↦ rw same refl
    | inr different ↦ rw different refl
  ]

  module _ (cmd : Set) (j : Bytes) (now now₂ : Instant) (db db₁ db₂ : Shared T)
      (s s' s₂ s₂' : Session S M) (c : Connection S) (rest rest₂ rest₃ : Bytes) where
    -- The frame of a `SET` arrives at a task of the server, and the frame of a `GET` at a task, the same
    -- or another, which has the next turn; the turns return. The database had not panicked and was not shut
    -- down, and the platform holds the instant of the expiry. If what the second turn wrote arrives at
    -- the client of the `GET`, then `Client::get` returns the value of the `SET` for its key, and for
    -- any other key the value in the database before the `SET`, or that there is none, unless the
    -- client's stream fails.
    pub get_after_set-OrIo :
        IsRequest (set cmd)
        → IsRequest (get (record { key = j }))
        → IsWire x.max_capacity (set_frame cmd)
        → IsWire x.max_capacity (get_frame (record { key = j }))
        → IsWire x.max_capacity (
            value_frame (
              if cmd.key is j
              then some cmd.value
              else bytes_of (HashMap.lookup j db.state.entries)))
        → fits x (sets now cmd.key cmd.value (whole_millis cmd.expire)) ≡ true
        → IsOpen db
        → s.mode ≡ reading
        → s₂.mode ≡ reading
        → s.dst.read_buf ++ t.arriving s.dst.stream ≡ encode (set_frame cmd) ++ rest
        → s₂.dst.read_buf ++ t.arriving s₂.dst.stream
          ≡ encode (get_frame (record { key = j })) ++ rest₂
        → turn x t p b (arrives now) s db ≡ (ok s', db₁)
        → turn x t p b (arrives now₂) s₂ db₁ ≡ (ok s₂', db₂)
        → IsJoined s₂ s₂' c rest₃
        → OrIo
            (Breaks t)
            (λ r. r.0 ≡ (
              if cmd.key is j
              then some cmd.value
              else bytes_of (HashMap.lookup j db.state.entries)))
            (Client.get x t j c)
    get_after_set-OrIo text text₂ w w₂ w₃ fit ready waits waits₂ input input₂ turned turned₂
          joined =
        let first =
          served now (set cmd) (set_frame cmd) _ s s' db db₁ rest w refl text refl fit ready waits
            input turned in
        let value : bytes_of (HashMap.lookup j db₁.state.entries) ≡ (
            if cmd.key is j then some cmd.value else bytes_of (HashMap.lookup j db.state.entries)) =
          ap (λ (m : Spec). bytes_of (m.values j)) first.called
          ∙ bytes_of_if (view x b db) now cmd.key cmd.value j (whole_millis cmd.expire) in
        OrIo-weaken
          (get-OrIo x t c rest₃
            (value_frame (
              if cmd.key is j
              then some cmd.value
              else bytes_of (HashMap.lookup j db.state.entries)))
            j _ refl w₃
            (reply_arrives now₂ (get (record { key = j })) (get_frame (record { key = j })) _ s₂ s₂'
                db₁ db₂ rest₂ w₂ refl text₂ refl refl first.still_open waits₂ input₂ turned₂ c rest₃
                joined
              ∙ ap (λ v. encode (value_frame v) ++ rest₃) value))
          λ r h. h.answer
