-- ===== src/Examples/Cli.antt =====
-- redis-bin/src/bin/cli.rs at some answers of a server.
use redis_demo.Base.{
  ℕ, ◌≡◌, refl, ◌^◌, ltb, if◌then◌else◌, Bytes, codes, List, [], ◌∷◌, ◌++◌, some, ok, err, arith,
}
use redis_demo.Frame.{bulk}
use redis_demo.Frame.Wire.{encode}
use redis_demo.Std.Decimal.{value, to_decimal, digits}
use redis_demo.Command.{from_millis}
use redis_demo.Subscriptions.{make_subscribe_frame}
use redis_demo.Client.Subscriber.Confirms.{replies_of}
use redis_demo.Cli.{get, subscribe, quoted, main, duration_from, pos_overflow}
use redis_demo.Cli.Durations.{duration_from-digits}
use redis_demo.Cli.Prints.{
  IsPrinted, ArePrinted, finds, deliveries, message_lines, main-IsPrinted, main-ArePrinted,
}
use redis_demo.Examples.World.{coming, env, socket}

duration_from-digits_example : duration_from (codes "1500") ≡ (
    if ltb (value 0 (codes "1500")) (2 ^ 64)
    then ok (from_millis (value 0 (codes "1500")))
    else err pos_overflow)
duration_from-digits_example = duration_from-digits (codes "1500") (cc) (omega arith)

main-IsPrinted_example :
    IsPrinted socket
      (quoted env (codes "v"))
      (main env socket 0 (get (codes "k")) (coming (encode (bulk (codes "v")) ++ [])))
main-IsPrinted_example =
    main-IsPrinted env socket 0 (get (codes "k")) (bulk (codes "v")) (quoted env (codes "v"))
      (coming (encode (bulk (codes "v")) ++ [])) [] (finds (codes "k") (some (codes "v")))
      (omega arith) refl

abbrev messages : List (Bytes × Bytes)
messages = (codes "a", codes "one") ∷ (codes "a", codes "two") ∷ []

abbrev joined : List (Bytes × ℕ)
joined = (codes "a", 1) ∷ []

value_wire : codes "$1" ++ codes "\r\nv\r\n" ≡ encode (bulk (codes "v"))
unfolding encode to_decimal digits
value_wire = refl

-- The stream closes within a bulk string.
main-ArePrinted_example : ArePrinted socket (message_lines env messages) (codes "$1") (
    main env socket 9
      (subscribe (codes "a" ∷ []))
      (coming (replies_of make_subscribe_frame joined ++ (deliveries messages ++ codes "$1"))))
main-ArePrinted_example =
    main-ArePrinted env socket (omega arith) (codes "$1") (codes "\r\nv\r\n") (bulk (codes "v"))
      (omega arith) value_wire (cc) (codes "a") 1 [] messages 9
      (coming (replies_of make_subscribe_frame joined ++ (deliveries messages ++ codes "$1")))
      (omega arith) (omega arith) (omega arith) refl
