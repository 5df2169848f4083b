-- ===== src/Demo/Prints.antt =====
-- What redis-bin/src/main.rs prints when the server answers.
use redis_demo.Base.{
  ℕ, ◌+◌, ◌^◌, ◌<◌, ◌≤◌, ◌≡◌, refl, sym, ◌∙◌, ap, subst, Bytes, codes, List, [], ◌∷◌, ◌++◌,
  append-nil, length, Option, some, true, arith,
}
use redis_demo.Env.{Env}
use redis_demo.Frame.{simple, integer}
use redis_demo.Frame.Wire.{encode, IsWire}
use redis_demo.Std.Utf8.{is_utf8}
use redis_demo.Connection
use redis_demo.Connection.{Stream, Connection, Breaks}
use redis_demo.Apply.{value_frame}
use redis_demo.Subscriptions.{make_subscribe_frame, make_message_frame}
use redis_demo.Client
use redis_demo.Client.{Network}
use redis_demo.Client.Requests.{get-OrIo, set_cmd-OrIo, publish-OrIo}
use redis_demo.Client.Subscriber.{Subscriber, Message}
use redis_demo.Client.Subscriber.Confirms.{replies_of, into_subscriber-OrIo}
use redis_demo.Client.Subscriber.Receives.{shown, next_message-OrIo}
use redis_demo.Cli.{Printed, prints}
use redis_demo.Cli.Prints.{ArePrinted, ended, calls-ArePrinted, next-ArePrinted}
use redis_demo.Demo.{main, exchange, print_received, success_line, received_line}

-- The replies of the server to the first client, on the wire: OK, the value of "hello", the
-- confirmation of the subscription, and the message.
abbrev pub replies : Option Bytes → ℕ → Bytes → Bytes → Bytes
replies value n msg rest =
    encode (simple (codes "OK"))
    ++ (encode (value_frame value)
        ++ (encode (make_subscribe_frame (codes "foo") n)
            ++ (encode (make_message_frame (codes "foo") msg) ++ rest)))

abbrev pub lines : Env → Option Bytes → Bytes → List Bytes
lines x value msg =
    success_line value
    ∷ received_line x (record { channel = codes "foo"; content = shown x msg })
    ∷ []

module _ {S : Type 0} (x : Env) (t : Stream S) where
  -- The two lines were printed and the program ended well, or the stream failed after the first of them.
  abbrev pub IsDemonstrated : Option Bytes → Bytes → Printed → Type 0
  IsDemonstrated value msg r = ArePrinted t (lines x value msg) [] r

ok_text : is_utf8 (codes "OK") ≡ true
unfolding is_utf8
ok_text = refl

shown-foo : (x : Env) → shown x (codes "foo") ≡ codes "foo"
unfolding is_utf8
shown-foo x = refl

module _ {S : Type 0} (x : Env) (t : Stream S) (room : 3 ≤ x.max_capacity) where
  printed_first :
      (result value : Option Bytes) (after : List Bytes) (r : Printed)
      → result ≡ value
      → ArePrinted t after [] r
      → ArePrinted t (success_line value ∷ after) [] (prints (success_line result) r)
  printed_first result value after r same h =
      subst (λ v. ArePrinted t (success_line v ∷ after) [] (prints (success_line result) r)) same
        (next-ArePrinted t (success_line result) after [] r h)

  received-ArePrinted :
      (m : Option Message) (s : Subscriber S) (msg : Message)
      → m ≡ some msg
      → ArePrinted t (received_line x msg ∷ []) [] (print_received x t (m, s))
  received-ArePrinted m s msg same =
      subst (λ q. ArePrinted t (received_line x msg ∷ []) [] (print_received x t (q, s))) (sym same)
        (ended refl)

  exchange-ArePrinted :
      (client client_2 : Connection S) (n m : ℕ) (msg rest rest₂ : Bytes)
      → n < 2 ^ 64
      → m < 2 ^ 64
      → length msg + 2 < 2 ^ 64
      → client.read_buf ++ t.arriving client.stream
        ≡ replies_of make_subscribe_frame ((codes "foo", n) ∷ [])
          ++ (encode (make_message_frame (codes "foo") msg) ++ rest)
      → client_2.read_buf ++ t.arriving client_2.stream ≡ encode (integer m) ++ rest₂
      → ArePrinted t
          (received_line x (record { channel = codes "foo"; content = shown x msg }) ∷ [])
          []
          (exchange x t client client_2)
  exchange-ArePrinted client client_2 n m msg rest rest₂ small small₂ short whole whole₂ =
      calls-ArePrinted t _ [] _ _
        (into_subscriber-OrIo x t room ((codes "foo", n) ∷ []) _ client ((omega arith, small), tt)
          whole)
        λ subscriber (same, asked).
          calls-ArePrinted t _ [] _ _
            (publish-OrIo x t client_2 rest₂ (integer m) (codes "foo") (codes "bar") m refl small₂
              whole₂)
            λ (k, c) answered.
              calls-ArePrinted t _ [] _ _
                (next_message-OrIo x t room (codes "foo") msg rest subscriber (omega arith) short
                  asked.left)
                λ (got, s) (arrived, kept, read).
                  received-ArePrinted got s
                    (record { channel = codes "foo"; content = shown x msg })
                    (arrived
                      ∙ ap (λ k. some (record { channel = k; content = shown x msg }))
                          (shown-foo x))

  -- Both clients can connect, and then the replies of the server arrive on the first stream: OK, a
  -- value or none, the confirmation of the subscription with any number, and a message on "foo"; and a
  -- number on the second. Then the program prints two lines, whether there was a value, and the
  -- message, its bytes in the form of `Debug`, and ends well; unless a stream fails, and then it has
  -- printed the first of these lines and no other and ends with that error.
  pub main-IsDemonstrated :
      (first second : Network S) (s s₂ : S) (value : Option Bytes) (n m : ℕ)
      (msg rest rest₂ : Bytes)
      → first.connect (codes "127.0.0.1:6379") ≡ some s
      → second.connect (codes "127.0.0.1:6379") ≡ some s₂
      → IsWire x.max_capacity (value_frame value)
      → n < 2 ^ 64
      → m < 2 ^ 64
      → length msg + 2 < 2 ^ 64
      → t.arriving s ≡ replies value n msg rest
      → t.arriving s₂ ≡ encode (integer m) ++ rest₂
      → IsDemonstrated x t value msg (main x t first second)
  unfolding main Client.connect Client.set
  main-IsDemonstrated first second s s₂ value n m msg rest rest₂ dials dials₂ w small small₂ short
        whole whole₂ =
      rw (dials, dials₂)
        (calls-ArePrinted t _ [] _ _
          (set_cmd-OrIo x t (Connection.new s) _ (simple (codes "OK")) _ refl (ok_text, (refl, tt))
            whole)
          λ (u, c) stored.
            calls-ArePrinted t _ [] _ _
              (get-OrIo x t c _ (value_frame value) (codes "hello") value refl w stored.left)
              λ (result, c') found. printed_first result value _ _ found.answer (
                exchange-ArePrinted c' (Connection.new s₂) n m msg rest rest₂ small small₂ short
                  (found.left
                    ∙ ap (λ q. q ++ (encode (make_message_frame (codes "foo") msg) ++ rest))
                        (sym (append-nil (encode (make_subscribe_frame (codes "foo") n)))))
                  whole₂))
