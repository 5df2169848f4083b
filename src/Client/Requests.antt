-- ===== src/Client/Requests.antt =====
-- A request of the client (redis-lib/src/clients/client.rs) returns what the response says.
use redis_demo.Base.{
  codes, ◌≡◌, refl, ap, sym, ◌∙◌, ℕ, ◌++◌, Bytes, Option, none, some, Outcome, ok,
}
use redis_demo.Env.{Env}
use redis_demo.Frame.{Frame, simple, integer}
use redis_demo.Frame.Wire.{encode, IsWire}
use redis_demo.Failure.{Failure, OrIo, returned, OrIo-bind}
use redis_demo.Command.IntoFrame.{get_frame, publish_frame, set_frame, ping_frame}
use redis_demo.Command.{Set}
use redis_demo.Command.Flat.{set_frame-IsFlat}
use redis_demo.Connection.{Stream, Connection, Breaks}
use redis_demo.Connection.Write.Sends.{IsFlat, write_frame-OrIo}
use redis_demo.Connection.Read.Reads.{Left, read_frame-OrIo}
use redis_demo.Apply.{value_frame, pong}
use redis_demo.Client.{
  response_of, got, published, read_response, ask, get, publish, set_cmd, ping, acknowledged,
  pinged,
}

-- What a `PING` returns.
abbrev pub echoed : Option Bytes → Bytes
echoed none = codes "PONG"
echoed (some s) = s

module _ {S : Type 0} (x : Env) (t : Stream S) where
  -- The call returned `a`: it has sent the request and nothing else, and `rest` is left to read.
  pub record Answered {A : Type 0} (request : Frame) (rest : Bytes) (a : A) (c : Connection S)
      (r : A × Connection S) : Type 0 where
    pub answer : r.0 ≡ a
    pub request_written : t.written r.1.stream ≡ t.written c.stream ++ encode request
    pub request_flushed : t.flushed r.1.stream ≡ t.written r.1.stream
    pub left : r.1.read_buf ++ t.arriving r.1.stream ≡ rest

  module _ (c : Connection S) (rest : Bytes) where
    module _ (f : Frame) (w : IsWire x.max_capacity f) where
      -- The next frame is a response, and no error frame.
      pub read_response-OrIo :
          ((c' : Connection S) → response_of (some f, c') ≡ ok (f, c'))
          → c.read_buf ++ t.arriving c.stream ≡ encode f ++ rest
          → OrIo (Breaks t) (λ r. (r.0 ≡ f) × Left x f w t rest c r.1) (read_response x t c)
      unfolding read_response
      read_response-OrIo good whole =
          OrIo-bind (read_frame-OrIo x f w t c rest whole)
            λ (o, c') (e, left). rw (e, good c') (returned (f, c') (refl, left))

  module _ (c : Connection S) (rest : Bytes) (f : Frame) where
    ask-OrIo :
        {A : Type 0} (request : Frame) (answer : Frame → Outcome Failure A) (a : A)
        → IsFlat request
        → IsWire x.max_capacity f
        → ((c' : Connection S) → response_of (some f, c') ≡ ok (f, c'))
        → answer f ≡ ok a
        → c.read_buf ++ t.arriving c.stream ≡ encode f ++ rest
        → OrIo (Breaks t) (Answered request rest a c) (ask x t request answer c)
    ask-OrIo request answer a flat w good e whole =
        OrIo-bind (write_frame-OrIo t c request flat) λ c₁ sent.
          OrIo-bind
            (read_response-OrIo c₁ rest f w good (
              ap (λ b. b ++ t.arriving c₁.stream) sent.same_buffer
              ∙ ap (λ m. c.read_buf ++ m) sent.same_input
              ∙ whole))
            λ (g, c₂) (same, left).
              rw (same, e)
                (returned (a, c₂)
                  (record {
                    answer = refl;
                    request_written = left.same_written ∙ sent.written_frame;
                    request_flushed = left.same_flushed ∙ sent.all_flushed ∙ sym left.same_written;
                    left = left.left;
                  }))

    -- If the response to a `GET` is the frame of a value, or null for none, as `Get::apply` writes
    -- it, then `Client::get` returns that value, or meets an error of the stream; it has sent the
    -- `GET` and nothing else, and read that frame and nothing behind it.
    pub get-OrIo :
        (key : Bytes) (v : Option Bytes)
        → f ≡ value_frame v
        → IsWire x.max_capacity f
        → c.read_buf ++ t.arriving c.stream ≡ encode f ++ rest
        → OrIo (Breaks t) (Answered (get_frame (record { key = key })) rest v c) (get x t key c)
    unfolding get get_frame
    get-OrIo key none e w whole =
        ask-OrIo _ got none (tt, (tt, tt)) w (rw e λ c'. refl) (ap got e) whole
    get-OrIo key (some v) e w whole =
        ask-OrIo _ got (some v) (tt, (tt, tt)) w (rw e λ c'. refl) (ap got e) whole

    -- If the response to a `PUBLISH` is an integer, as `Publish::apply` writes it, then
    -- `Client::publish` returns that number, or meets an error of the stream; it has sent the
    -- `PUBLISH` and nothing else, and read that frame and nothing behind it.
    pub publish-OrIo :
        (channel message : Bytes) (n : ℕ)
        → f ≡ integer n
        → IsWire x.max_capacity f
        → c.read_buf ++ t.arriving c.stream ≡ encode f ++ rest
        → OrIo
            (Breaks t)
            (Answered (publish_frame (record { channel = channel; message = message })) rest n c)
            (publish x t channel message c)
    unfolding publish publish_frame
    publish-OrIo channel message n e w whole =
        ask-OrIo _ published n (tt, (tt, (tt, tt))) w (rw e λ c'. refl) (ap published e) whole

    -- If the response to a `SET` is the simple frame "OK", as `Set::apply` writes it, then
    -- `Client::set_cmd` returns, or meets an error of the stream; it has sent the `SET` and nothing
    -- else, and read that frame and nothing behind it.
    pub set_cmd-OrIo :
        (cmd : Set)
        → f ≡ simple (codes "OK")
        → IsWire x.max_capacity f
        → c.read_buf ++ t.arriving c.stream ≡ encode f ++ rest
        → OrIo (Breaks t) (Answered (set_frame cmd) rest tt c) (set_cmd x t cmd c)
    unfolding set_cmd
    set_cmd-OrIo cmd e w whole =
        ask-OrIo _ acknowledged tt (set_frame-IsFlat cmd) w (rw e λ c'. refl) (ap acknowledged e)
          whole

    -- If the response to a `PING` is the frame that `Ping::apply` answers it with, "PONG" or the bytes
    -- of the request, then `Client::ping` returns that text, or meets an error of the stream; it has
    -- sent the `PING` and nothing else, and read that frame and nothing behind it.
    pub ping-OrIo :
        (msg : Option Bytes)
        → f ≡ pong msg
        → IsWire x.max_capacity f
        → c.read_buf ++ t.arriving c.stream ≡ encode f ++ rest
        → OrIo
            (Breaks t)
            (Answered (ping_frame (record { echo = msg })) rest (echoed msg) c)
            (ping x t msg c)
    unfolding ping ping_frame
    ping-OrIo none e w whole =
        ask-OrIo _ pinged (codes "PONG") (tt, tt) w (rw e λ c'. refl) (ap pinged e) whole
    ping-OrIo (some s) e w whole =
        ask-OrIo _ pinged s (tt, (tt, tt)) w (rw e λ c'. refl) (ap pinged e) whole
