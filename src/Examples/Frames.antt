-- ===== src/Examples/Frames.antt =====
-- redis-lib/src/frame.rs at the frame `["hi", nil, 42]`.
use redis_demo.Base.{
  ◌++◌, ◌≡◌, refl, sym, ◌∙◌, append-nil, ap, [], codes, length, ok, err, arith, Ensures,
}
use redis_demo.Std.Decimal.{to_decimal, digits}
use redis_demo.Frame.{Frame, bulk, null, integer, array, nil, cons, incomplete}
use redis_demo.Frame.Wire.{encode, IsWire}
use redis_demo.Frame.Reader.At.{at}
use redis_demo.Frame.Reader.Extension.{grow}
use redis_demo.Frame.Decoder.{check, parse}
use redis_demo.Frame.Decoder.RoundTrip.{parse-encode}
use redis_demo.Frame.Decoder.Agreement.{check-parse}
use redis_demo.Frame.Decoder.Prefix.{check-prefix, check-encode}
use redis_demo.Frame.Decoder.Extension.{check-append, grown}
use redis_demo.Frame.Decoder.Progress.{check-Ensures, IsBehind}
use redis_demo.Examples.World.{env}

abbrev pub sample : Frame
sample = array (cons (bulk (codes "hi")) (cons null (cons (integer 42) nil)))

pub sample-IsWire : IsWire 1000 sample
sample-IsWire = omega arith

pub sample_wire : encode sample ≡ codes "*3\r\n$2\r\nhi\r\n$-1\r\n:42\r\n"
unfolding encode to_decimal digits
sample_wire = refl

parse-encode_example :
    parse env (at (codes "x") (encode sample ++ codes "y"))
    ≡ ok (sample, at (codes "x" ++ encode sample) (codes "y"))
parse-encode_example = parse-encode env sample (codes "x") (codes "y") sample-IsWire

check-parse_example :
    check env (at [] (encode sample ++ codes "y")) ≡ ok (at ([] ++ encode sample) (codes "y"))
check-parse_example =
    check-parse env (at [] (encode sample ++ codes "y")) sample
      (at ([] ++ encode sample) (codes "y")) (parse-encode env sample [] (codes "y") sample-IsWire)

check-prefix_example : check env (at [] (codes "*3\r\n$2\r\nh")) ≡ err incomplete
check-prefix_example =
    check-prefix env sample sample-IsWire (codes "*3\r\n$2\r\nh") (codes "i\r\n$-1\r\n:42\r\n") []
      (sym sample_wire ∙ sym (append-nil (encode sample))) (omega (arith, ap length sample_wire))

check-append_example :
    check env (grow (codes "more") (at [] (encode sample ++ [])))
    ≡ grown (codes "more") (check env (at [] (encode sample ++ [])))
check-append_example =
    check-append env (at [] (encode sample ++ [])) (codes "more")
      (cc (check-encode env sample sample-IsWire [] []))

check-Ensures_example :
    Ensures (IsBehind (at [] (codes "$5\r\nhel"))) (check env (at [] (codes "$5\r\nhel")))
check-Ensures_example = check-Ensures env (at [] (codes "$5\r\nhel"))
