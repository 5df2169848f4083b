-- ===== src/Frame/Decoder/Prefix.antt =====
-- `Frame::check` (redis-lib/src/frame.rs) on a buffer that holds a frame, and on one that holds the
-- beginning of a frame.
use redis_demo.Base.{
  ◌≤◌, ◌<◌, ◌≡◌, ◌≢◌, refl, sym, ◌∙◌, ap, [], ◌++◌, Bytes, length, Outcome, ok, err, panic,
  out_of_fuel, arith, ◌⊎◌, inl, inr, Ensures-ok,
}
use redis_demo.Env.{Env, Cursor}
use redis_demo.Frame.{Frame, Error, incomplete, other}
use redis_demo.Frame.Wire.{encode, IsWire}
use redis_demo.Frame.Reader.At.{at}
use redis_demo.Frame.Reader.Extension.{grow}
use redis_demo.Frame.Decoder.{check}
use redis_demo.Frame.Decoder.RoundTrip.{parse-encode}
use redis_demo.Frame.Decoder.Agreement.{check-parse}
use redis_demo.Frame.Decoder.Progress.{check-Ensures}
use redis_demo.Frame.Decoder.Extension.{check-append, grown}

grown-ok :
    (m : Bytes) (r : Outcome Error Cursor) (d : Cursor)
    → grown m r ≡ ok d
    → (c : Cursor) × (r ≡ ok c) × (c.position ≡ d.position)
grown-ok m (ok c) d h = (c, refl, ap (λ (e : Cursor). e.position) {x = grow m c} {y = d} (cc))
grown-ok m (err e) d h = cc
grown-ok m panic d h = cc
grown-ok m out_of_fuel d h = cc

incomplete-cases : (r : Outcome Error Cursor) → (r ≡ err incomplete) ⊎ (r ≢ err incomplete)
incomplete-cases (err incomplete) = inl refl
incomplete-cases (err (other e)) = inr cc
incomplete-cases (ok c) = inr cc
incomplete-cases panic = inr cc
incomplete-cases out_of_fuel = inr cc

module _ (x : Env) (f : Frame) (w : IsWire x.max_capacity f) where
  pub check-encode :
      (pre rest : Bytes) → check x (at pre (encode f ++ rest)) ≡ ok (at (pre ++ encode f) rest)
  check-encode pre rest =
      check-parse x (at pre (encode f ++ rest)) f _ (parse-encode x f pre rest w)

  enough_bytes :
      (b m rest : Bytes)
      → b ++ m ≡ encode f ++ rest
      → check x (at [] b) ≢ err incomplete
      → length (encode f) ≤ length b
  enough_bytes b m rest whole ne =
      let verdict =
        sym (check-append x (at [] b) m ne)
        ∙ ap (λ t. check x (at [] t)) whole
        ∙ check-encode [] rest in
      let (c, e, same) = grown-ok m (check x (at [] b)) (at (encode f) rest) verdict in
      let inside = Ensures-ok (check-Ensures x (at [] b)) e in omega arith

  -- `check` asks for more bytes as long as the buffer holds only a part of the frame that is
  -- arriving, whatever part it is and whatever comes behind the frame.
  pub check-prefix :
      (b m rest : Bytes)
      → b ++ m ≡ encode f ++ rest
      → length b < length (encode f)
      → check x (at [] b) ≡ err incomplete
  check-prefix b m rest whole short = elim (incomplete-cases (check x (at [] b))) [
    | inl waits ↦ waits
    | inr ne ↦ absurd (omega (arith, enough_bytes b m rest whole ne))
  ]
