-- ===== src/Connection/Read/Reads.antt =====
-- `read_frame` (redis-lib/src/connection.rs) returns the frames that arrive, however the stream
-- cuts them up.
use redis_demo.Base.{
  ℕ, zero, suc, ◌≤◌, ◌<◌, ◌≡◌, refl, sym, ◌∙◌, ap, subst, [], ◌∷◌, ◌++◌, Bytes, Option, none, some,
  false, Bool-cases, inl, inr, ltb, ltb→lt, ltb→le, ◌==◌, if◌then◌else◌, length, append_assoc,
  Outcome, ok, err, ◌>>=◌, arith, length-append, drop-append_self,
}
use redis_demo.Env.{Env}
use redis_demo.Frame.{Frame}
use redis_demo.Frame.Wire.{encode, IsWire}
use redis_demo.Frame.Decoder.RoundTrip.{parse-encode}
use redis_demo.Frame.Decoder.Prefix.{check-encode, check-prefix}
use redis_demo.Failure.{Failure, OrIo, returned, broken, OrIo-weaken, reset_by_peer}
use redis_demo.Connection.{Stream, Connection, Breaks, read_breaks}
use redis_demo.Connection.Write.{lift_io}
use redis_demo.Connection.Read.{
  take_frame, parse_checked, parse_frame, read_round, read_frame_fuel, read_frame,
}

-- A text that begins with `e` as far as it goes, and is long enough.
prefix_split :
    (e b m rest : Bytes)
    → b ++ m ≡ e ++ rest
    → length e ≤ length b
    → (r : Bytes) × (b ≡ e ++ r) × (r ++ m ≡ rest)
prefix_split [] b m rest h fits = (b, refl, h)
prefix_split (a ∷ e) [] m rest h fits = absurd (omega arith)
prefix_split (a ∷ e) (d ∷ b) m rest h fits =
    let (r, p, q) = prefix_split e b m rest (cc) (omega arith) in (r, cc, q)

pub suc-ne-zero : (n : ℕ) → (suc n == 0) ≡ false
suc-ne-zero n = ground arith

module _ {S : Type 0} (x : Env) (f : Frame) (w : IsWire x.max_capacity f) where
  parse_frame-found :
      (s : S) (r : Bytes)
      → parse_frame x (record { stream = s; read_buf = encode f ++ r })
        ≡ ok (some f, record { stream = s; read_buf = r })
  unfolding parse_frame parse_checked take_frame
  parse_frame-found s r =
      rw (check-encode x f w [] r, parse-encode x f [] r w)
        (ap (λ b. ok (some f, record { stream = s; read_buf = b }))
          (x.advance_buf_lem (encode f ++ r) (length (encode f))
              (omega (arith, length-append (encode f) r))
            ∙ drop-append_self (encode f) r))

  pub parse_frame-waits :
      (c : Connection S) (m rest : Bytes)
      → c.read_buf ++ m ≡ encode f ++ rest
      → length c.read_buf < length (encode f)
      → parse_frame x c ≡ ok (none, c)
  unfolding parse_frame parse_checked
  parse_frame-waits c m rest e short = rw (check-prefix x f w c.read_buf m rest e short)

  module _ (t : Stream S) where
    -- `c'` has `rest` left to read, and has written and flushed what `c` has.
    pub record Left (rest : Bytes) (c c' : Connection S) : Type 0 where
      pub left : c'.read_buf ++ t.arriving c'.stream ≡ rest
      pub same_written : t.written c'.stream ≡ t.written c.stream
      pub same_flushed : t.flushed c'.stream ≡ t.flushed c.stream

    abbrev pub Gets : Bytes → Connection S → Option Frame × Connection S → Type 0
    Gets rest c r = (r.0 ≡ some f) × Left rest c r.1

    Left-from :
        (rest : Bytes) (c c₁ c' : Connection S)
        → t.written c₁.stream ≡ t.written c.stream
        → t.flushed c₁.stream ≡ t.flushed c.stream
        → Left rest c₁ c'
        → Left rest c c'
    Left-from rest c c₁ c' w g h = record {
      left = h.left;
      same_written = h.same_written ∙ w;
      same_flushed = h.same_flushed ∙ g;
    }

    -- The frame is in the buffer.
    round-found :
        (again : Connection S → Outcome Failure (Option Frame × Connection S)) (s : S)
        (r rest : Bytes)
        → r ++ t.arriving s ≡ rest
        → (let c : Connection S = record { stream = s; read_buf = encode f ++ r } in
            OrIo (Breaks t) (Gets rest c) (do r ← parse_frame x c; read_round x t again r))
    unfolding read_round
    round-found again s r rest e =
        rw (parse_frame-found s r)
          (returned _ (refl, record { left = e; same_written = refl; same_flushed = refl }))

    -- More bytes are read.
    round-waits :
        (again : Connection S → Outcome Failure (Option Frame × Connection S)) (c : Connection S)
        (rest : Bytes)
        → c.read_buf ++ t.arriving c.stream ≡ encode f ++ rest
        → length c.read_buf < length (encode f)
        → ((c' : Connection S)
            → c'.read_buf ++ t.arriving c'.stream ≡ encode f ++ rest
            → length (t.arriving c'.stream) < length (t.arriving c.stream)
            → OrIo (Breaks t) (Gets rest c') (again c'))
        → OrIo (Breaks t) (Gets rest c) (read_round x t again (none, c))
    unfolding read_round
    round-waits again c rest e short next = go (t.read_buf c.stream) refl
      where
        go :
            (o : Option (Bytes × S))
            → t.read_buf c.stream ≡ o
            → OrIo (Breaks t) (Gets rest c) (do
              (bytes, s) ← lift_io o
              let c' : Connection S = record { stream = s; read_buf = c.read_buf ++ bytes }
              let rest = again c'
              if length bytes == 0
                  then if length c'.read_buf == 0 then ok (none, c') else err reset_by_peer
                  else rest)
        go none h = broken (read_breaks c.stream h)
        go (some ([], s)) h = absurd (
            omega (
              arith,
              length-append c.read_buf (t.arriving c.stream),
              length-append (encode f) rest,
              ap length e,
              ap length (t.read_buf_end c.stream s h),
            ))
        go (some (a ∷ bytes, s)) h =
            let (came, w, g) = t.read_buf_lem c.stream s (a ∷ bytes) h in
            let next_c : Connection S = record { stream = s; read_buf = c.read_buf ++ a ∷ bytes } in
            rw (suc-ne-zero (length bytes)) (
              OrIo-weaken
                (next next_c
                  (append_assoc c.read_buf (a ∷ bytes) (t.arriving s)
                    ∙ ap (λ m. c.read_buf ++ m) (sym came)
                    ∙ e)
                  (omega (arith, ap length came, length-append bytes (t.arriving s))))
                (λ r got. (got.0, Left-from rest c next_c r.1 w g got.1)))

    read_fuel-Gets :
        (k : ℕ) (c : Connection S) (rest : Bytes)
        → c.read_buf ++ t.arriving c.stream ≡ encode f ++ rest
        → length (t.arriving c.stream) < k
        → OrIo (Breaks t) (Gets rest c) (read_frame_fuel x t k c)
    unfolding read_frame_fuel
    read_fuel-Gets zero c rest e lt = absurd (omega arith)
    read_fuel-Gets (suc k) c rest e lt =
        elim (Bool-cases (ltb (length c.read_buf) (length (encode f)))) [
          | inl short ↦ rw (parse_frame-waits c (t.arriving c.stream) rest e (ltb→lt _ _ short)) (
              round-waits (read_frame_fuel x t k) c rest e (ltb→lt _ _ short)
                λ c' e' less. read_fuel-Gets k c' rest e' (omega arith))
          | inr enough ↦
              let (r, here, there) =
                prefix_split (encode f) c.read_buf (t.arriving c.stream) rest e
                  (ltb→le _ _ enough) in
              subst
                (λ b.
                  (let c' : Connection S = record { stream = c.stream; read_buf = b } in
                    OrIo (Breaks t) (Gets rest c')
                      (do r ← parse_frame x c'; read_round x t (read_frame_fuel x t k) r)))
                (sym here) (round-found (read_frame_fuel x t k) c.stream r rest there)
        ]

    -- If the bytes in the buffer and those still to arrive begin with the wire form of a frame,
    -- then `read_frame`, whatever pieces the stream delivers, either meets an error of the stream or
    -- returns that frame; after that exactly the bytes behind the frame are left to read, and
    -- nothing was written or flushed.
    pub read_frame-OrIo :
        (c : Connection S) (rest : Bytes)
        → c.read_buf ++ t.arriving c.stream ≡ encode f ++ rest
        → OrIo (Breaks t) (Gets rest c) (read_frame x t c)
    unfolding read_frame
    read_frame-OrIo c rest e =
        read_fuel-Gets (suc (length (t.arriving c.stream))) c rest e (omega arith)
