-- ===== src/Examples/Decoder.antt =====
-- `Frame::check` and `Frame::parse` (redis-lib/src/frame.rs) at the frame `["hi", nil, 42]`.
use redis_demo.Base.{◌++◌, ◌+◌, ◌≤◌, refl, ap, [], append-nil, length, arith}
use redis_demo.Frame.Wire.{encode}
use redis_demo.Frame.Reader.At.{at}
use redis_demo.Frame.Decoder.{parse}
use redis_demo.Frame.Decoder.RoundTrip.{parse-encode}
use redis_demo.Frame.Decoder.Prefix.{check-encode}
use redis_demo.Frame.Decoder.Safety.{parse-Calm}
use redis_demo.Frame.Decoder.Calm.{Calm}
use redis_demo.Frame.Decoder.Size.{parse-IsTyped}
use redis_demo.Frame.Decoder.Weights.{IsTyped, weight}
use redis_demo.Examples.World.{env}
use redis_demo.Examples.Frames.{sample, sample-IsWire, sample_wire}

parse-Calm_example : Calm (parse env (at [] (encode sample ++ [])))
parse-Calm_example =
    parse-Calm env (at [] (encode sample ++ [])) (at ([] ++ encode sample) []) refl
      (omega (arith, ap length (append-nil (encode sample)), ap length sample_wire))
      (check-encode env sample sample-IsWire [] [])

parse-IsTyped_example :
    IsTyped sample × (weight sample + 0 ≤ (at ([] ++ encode sample) []).position)
parse-IsTyped_example =
    parse-IsTyped env (at [] (encode sample ++ [])) sample (at ([] ++ encode sample) [])
      (omega (arith, ap length (append-nil (encode sample)), ap length sample_wire))
      (parse-encode env sample [] [] sample-IsWire)
