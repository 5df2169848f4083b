-- ===== src/Cli/Prints.antt =====
-- What redis-bin/src/bin/cli.rs prints when the server answers.
use redis_demo.Base.{
  ◌≢◌, ◌>>=◌, ◌<◌, ℕ, zero, suc, ◌+◌, ◌^◌, ◌<◌, ◌≤◌, ◌≡◌, refl, sym, ◌∙◌, ap, subst, Bytes, codes,
  List, [], ◌∷◌, ◌++◌, append_assoc, All, length, Option, none, some, Outcome, ok, err, arith,
}
use redis_demo.Env.{Env}
use redis_demo.Frame.{Frame, simple, integer}
use redis_demo.Frame.Wire.{encode, IsWire}
use redis_demo.Failure.{Failure, io, reset_by_peer, OrIo, returned, broken}
use redis_demo.Command.{Duration}
use redis_demo.Connection.{Stream, Connection, Breaks}
use redis_demo.Connection.Read.{read_frame}
use redis_demo.Connection.Read.Ends.{Ends, closed, reset, failed as broken_off, read_frame-Ends}
use redis_demo.Apply.{value_frame, pong}
use redis_demo.Client
use redis_demo.Client.Requests.{echoed, ping-OrIo, get-OrIo, set_cmd-OrIo, publish-OrIo}
use redis_demo.Subscriptions.{make_subscribe_frame, make_message_frame}
use redis_demo.Client.Subscriber.{message_in, next_message, Subscriber, Message}
use redis_demo.Client.Subscriber.Confirms.{IsReply, IsRead, replies_of, named, into_subscriber-OrIo}
use redis_demo.Client.Subscriber.Receives.{shown, next_message-OrIo}
use redis_demo.Cli.{
  Command, ping, get, set, publish, subscribe, Printed, quoted, value_line, message_line,
  print_line, print_message, calls, print_messages, main,
}

-- The response that the server gives to a subcommand, and the line that is to be printed for it.
pub data IsAnswer (x : Env) : Command → Frame → Bytes → Type 0 where
  pongs : (echo : Option Bytes) → IsAnswer x (ping echo) (pong echo) (quoted x (echoed echo))
  finds : (key : Bytes) (v : Option Bytes) → IsAnswer x (get key) (value_frame v) (value_line x v)
  stores :
      (key value : Bytes) (expires : Option Duration)
      → IsAnswer x (set key value expires) (simple (codes "OK")) (codes "OK")
  reaches :
      (channel message : Bytes) (n : ℕ)
      → IsAnswer x (publish channel message) (integer n) (codes "Publish OK")

module _ {S : Type 0} (t : Stream S) where
  -- The program printed just that line and ended well, or it printed nothing and ended with an error
  -- of the stream.
  pub data IsPrinted (line : Bytes) : Printed → Type 0 where
    printed : IsPrinted line (line ∷ [], ok tt)
    failed : Breaks t → IsPrinted line ([], err io)

  print-IsPrinted :
      {A : Type 0} {P : A × Connection S → Type 0} (line_of : A → Bytes) (line : Bytes)
      {m : Outcome Failure (A × Connection S)}
      → ((r : A × Connection S) → P r → line_of r.0 ≡ line)
      → OrIo (Breaks t) P m
      → IsPrinted line (print_line line_of m)
  print-IsPrinted line_of line same (returned (a, c) h) =
      subst (λ l. IsPrinted line (l ∷ [], ok tt)) (sym (same (a, c) h)) printed
  print-IsPrinted line_of line same (broken h) = failed h

module _ {S : Type 0} (x : Env) (t : Stream S) where
  -- Where the server's response to a `ping`, `get`, `set` or `publish` arrives, the program prints
  -- one line, with the text or value in the response, "(nil)" if there is none, or the word of
  -- success, and ends well, or it prints nothing and ends with the error of the stream.
  pub main-IsPrinted :
      (rounds : ℕ) (cmd : Command) (f : Frame) (line : Bytes) (client : Connection S) (rest : Bytes)
      → IsAnswer x cmd f line
      → IsWire x.max_capacity f
      → client.read_buf ++ t.arriving client.stream ≡ encode f ++ rest
      → IsPrinted t line (main x t rounds cmd client)
  unfolding main Client.set Client.set_expires
  main-IsPrinted rounds _ _ _ client rest (pongs echo) w whole =
      print-IsPrinted t (quoted x) _ (λ r h. ap (quoted x) h.answer)
        (ping-OrIo x t client rest (pong echo) echo refl w whole)
  main-IsPrinted rounds _ _ _ client rest (finds key v) w whole =
      print-IsPrinted t (value_line x) _ (λ r h. ap (value_line x) h.answer)
        (get-OrIo x t client rest (value_frame v) key v refl w whole)
  main-IsPrinted rounds _ _ _ client rest (stores key value none) w whole =
      print-IsPrinted t (λ _. codes "OK") _ (λ r h. refl)
        (set_cmd-OrIo x t client rest (simple (codes "OK")) _ refl w whole)
  main-IsPrinted rounds _ _ _ client rest (stores key value (some d)) w whole =
      print-IsPrinted t (λ _. codes "OK") _ (λ r h. refl)
        (set_cmd-OrIo x t client rest (simple (codes "OK")) _ refl w whole)
  main-IsPrinted rounds _ _ _ client rest (reaches channel message n) w whole =
      print-IsPrinted t (λ _. codes "Publish OK") _ (λ r h. refl)
        (publish-OrIo x t client rest (integer n) channel message n refl w whole)

-- A message that the server can send: its channel and its content.
abbrev pub IsShort : Bytes × Bytes → Type 0
IsShort (k, msg) = (length k + 2 < 2 ^ 64) × (length msg + 2 < 2 ^ 64)

-- The messages on the wire.
abbrev pub deliveries : List (Bytes × Bytes) → Bytes
deliveries [] = []
deliveries ((k, msg) ∷ ms) = encode (make_message_frame k msg) ++ deliveries ms

-- The lines for them.
abbrev pub message_lines : Env → List (Bytes × Bytes) → List Bytes
message_lines x [] = []
message_lines x ((k, msg) ∷ ms) =
    message_line x (record { channel = shown x k; content = shown x msg }) ∷ message_lines x ms

module _ {S : Type 0} (t : Stream S) where
  -- The lines were printed and no other, and the program ended, well if the stream had closed behind
  -- the messages, and with the error of a reset if it had closed within a frame, of which the bytes
  -- `rest` had come; or the stream failed after the first of the lines.
  pub data ArePrinted (lines : List Bytes) (rest : Bytes) : Printed → Type 0 where
    ended : rest ≡ [] → ArePrinted lines rest (lines, ok tt)
    was_reset : rest ≢ [] → ArePrinted lines rest (lines, err reset_by_peer)
    cut_off :
        (before after : List Bytes)
        → Breaks t
        → lines ≡ before ++ after
        → ArePrinted lines rest (before, err io)

  pub next-ArePrinted :
      (line : Bytes) (lines : List Bytes) (rest : Bytes) (r : Printed)
      → ArePrinted lines rest r
      → ArePrinted (line ∷ lines) rest (line ∷ r.0, r.1)
  next-ArePrinted line lines rest _ (ended e) = ended e
  next-ArePrinted line lines rest _ (was_reset ne) = was_reset ne
  next-ArePrinted line lines rest _ (cut_off before after h e) =
      cut_off (line ∷ before) after h (ap (λ l. line ∷ l) e)

  -- `?` on a call that returns with `P` or breaks off with the stream.
  pub calls-ArePrinted :
      {A : Type 0} {P : A → Type 0} (lines : List Bytes) (rest : Bytes) (o : Outcome Failure A)
      (next : A → Printed)
      → OrIo (Breaks t) P o
      → ((a : A) → P a → ArePrinted lines rest (next a))
      → ArePrinted lines rest (calls o next)
  calls-ArePrinted lines rest _ next (returned a h) go_on = go_on a h
  calls-ArePrinted lines rest _ next (broken h) go_on = cut_off [] lines h refl

  closed-ArePrinted :
      (x : Env) (s : Subscriber S) (rest : Bytes) (next : Subscriber S → Printed)
      (o : Outcome Failure (Option Frame × Connection S))
      → Ends t rest o
      → ArePrinted [] rest (print_message x next (o >>= message_in x t s))
  closed-ArePrinted x s rest next _ (closed c e) = ended e
  closed-ArePrinted x s rest next _ (reset ne) = was_reset ne
  closed-ArePrinted x s rest next _ (broken_off h) = cut_off [] [] h refl

module _ {S : Type 0} (x : Env) (t : Stream S) (room : 3 ≤ x.max_capacity) where
  message-ArePrinted :
      (k msg rest last : Bytes) (s : Subscriber S) (lines : List Bytes)
      (next : Subscriber S → Printed) (o : Outcome Failure (Option Message × Subscriber S))
      → OrIo
          (Breaks t)
          (λ (m, s').
            (m ≡ some (record { channel = shown x k; content = shown x msg }))
            × (s'.subscribed_channels ≡ s.subscribed_channels)
            × IsRead t rest s.client s'.client)
          o
      → ((s' : Subscriber S)
          → s'.client.read_buf ++ t.arriving s'.client.stream ≡ rest
          → ArePrinted t lines last (next s'))
      → ArePrinted t
          (message_line x (record { channel = shown x k; content = shown x msg }) ∷ lines)
          last
          (print_message x next o)
  message-ArePrinted k msg rest last s lines next _ (returned (m, s') (same, kept, read)) go_on =
      subst
        (λ q.
          ArePrinted t
            (message_line x (record { channel = shown x k; content = shown x msg }) ∷ lines) last
            (print_message x next (ok (q, s'))))
        (sym same) (next-ArePrinted t _ lines last (next s') (go_on s' read.left))
  message-ArePrinted k msg rest last s lines next _ (broken h) go_on = cut_off [] _ h refl

  -- The stream closes within the frame `f`, or before it, if `rest` is empty.
  module _ (rest missing : Bytes) (f : Frame) (w : IsWire x.max_capacity f)
      (part : rest ++ missing ≡ encode f) (some_missing : missing ≢ []) where
    messages-ArePrinted :
        (ms : List (Bytes × Bytes)) (rounds : ℕ) (s : Subscriber S)
        → length ms < rounds
        → All IsShort ms
        → s.client.read_buf ++ t.arriving s.client.stream ≡ deliveries ms ++ rest
        → ArePrinted t (message_lines x ms) rest (print_messages x t rounds s)
    unfolding print_messages next_message
    messages-ArePrinted ms zero s fuel short whole = absurd (omega arith)
    messages-ArePrinted [] (suc rounds) s fuel short whole =
        closed-ArePrinted t x s rest (print_messages x t rounds) (read_frame x t s.client)
          (read_frame-Ends x t f w rest missing part some_missing s.client whole)
    messages-ArePrinted ((k, msg) ∷ ms) (suc rounds) s fuel ((short, small), shorts) whole =
        message-ArePrinted k msg (deliveries ms ++ rest) rest s (message_lines x ms)
          (print_messages x t rounds) _
          (next_message-OrIo x t room k msg (deliveries ms ++ rest) s short small
            (whole ∙ append_assoc _ (deliveries ms) rest))
          (λ s' left. messages-ArePrinted ms rounds s' (omega arith) shorts left)

    -- Where the confirmations of a subscription to some channels and then messages arrive and then the
    -- stream closes, with no more than a part of a frame behind them, the program prints a line for
    -- each message, in their order, and nothing else, and ends, with an error if there was a part of a
    -- frame; unless the stream fails, and then it has printed the first of these lines and no other and
    -- ends with that error. There is fuel for one more round than messages.
    pub main-ArePrinted :
        (k : Bytes) (n : ℕ) (rs : List (Bytes × ℕ)) (ms : List (Bytes × Bytes)) (rounds : ℕ)
        (client : Connection S)
        → length ms < rounds
        → All IsReply ((k, n) ∷ rs)
        → All IsShort ms
        → client.read_buf ++ t.arriving client.stream
          ≡ replies_of make_subscribe_frame ((k, n) ∷ rs) ++ (deliveries ms ++ rest)
        → ArePrinted t (message_lines x ms) rest (main x t rounds (subscribe (k ∷ named rs)) client)
    unfolding main
    main-ArePrinted k n rs ms rounds client fuel fits shorts whole =
        calls-ArePrinted t _ rest _ (print_messages x t rounds)
          (into_subscriber-OrIo x t room ((k, n) ∷ rs) (deliveries ms ++ rest) client fits whole)
          (λ s asked. messages-ArePrinted ms rounds s fuel shorts asked.1.left)
