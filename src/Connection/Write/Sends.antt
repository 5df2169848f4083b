-- ===== src/Connection/Write/Sends.antt =====
-- What `write_frame` (redis-lib/src/connection.rs) sends is the wire form of the frame.
use redis_demo.Base.{
  ℕ, ◌≤◌, ◌≡◌, refl, sym, ◌∙◌, ap, [], ◌∷◌, ◌++◌, Bytes, Option, none, some, true, leb, length,
  append_assoc, append-nil, Outcome, ok, ◌>>=◌, arith, subst,
}
use redis_demo.Std.Decimal.{to_decimal, length-to_decimal}
use redis_demo.Frame.{Frame, Frames, simple, error, integer, bulk, null, array, nil, cons, len}
use redis_demo.Frame.Wire.{encode, encode_items}
use redis_demo.Frame.Reader.At.{crlf}
use redis_demo.Failure.{Failure, OrIo, returned, broken, OrIo-bind, OrIo-weaken}
use redis_demo.Connection.{Stream, Connection, Breaks, write_breaks, flush_breaks}
use redis_demo.Connection.Write.{
  lift_io, write_all, write_u8, write_decimal, write_value, write_entries, write_body, write_frame,
}

fits_20 : (n : ℕ) → n ≤ 20 → leb n 20 ≡ true
fits_20 n h = ground arith

-- No array, a frame that `write_value` takes.
abbrev pub IsValue : Frame → Type 0
IsValue (array fs) = ⊥
IsValue f = Unit {0}

abbrev pub AreValues : Frames → Type 0
AreValues nil = Unit {0}
AreValues (cons f fs) = IsValue f × AreValues fs

-- A frame that is no array of arrays.
abbrev pub IsFlat : Frame → Type 0
IsFlat (array fs) = AreValues fs
IsFlat f = Unit {0}

module _ {S : Type 0} (t : Stream S) where
  -- `s'` is `s` with `b` written behind.
  pub record Adds (s : S) (b : Bytes) (s' : S) : Type 0 where
    pub added : t.written s' ≡ t.written s ++ b
    pub same_input : t.arriving s' ≡ t.arriving s

  Adds-trans : (s s' s'' : S) (a b : Bytes) → Adds s a s' → Adds s' b s'' → Adds s (a ++ b) s''
  Adds-trans s s' s'' a b h k = record {
    added = k.added ∙ ap (λ w. w ++ b) h.added ∙ append_assoc (t.written s) a b;
    same_input = k.same_input ∙ h.same_input;
  }

  write_all-Adds : (s : S) (b : Bytes) → OrIo (Breaks t) (Adds s b) (write_all t s b)
  write_all-Adds s b = go (t.write_all s b) refl
    where
      go : (o : Option S) → t.write_all s b ≡ o → OrIo (Breaks t) (Adds s b) (lift_io o)
      go none e = broken (write_breaks s b e)
      go (some s') e =
          let (added, same) = t.write_all_lem s s' b e in
          returned s' (record { added = added; same_input = same })

  -- Two writes, one after the other.
  then_write :
      (s : S) (a b : Bytes) {m : Outcome Failure S} (f : S → Outcome Failure S)
      → OrIo (Breaks t) (Adds s a) m
      → ((s' : S) → OrIo (Breaks t) (Adds s' b) (f s'))
      → OrIo (Breaks t) (Adds s (a ++ b)) (m >>= f)
  then_write s a b f h k =
      OrIo-bind h λ s' add. OrIo-weaken (k s') λ s''. Adds-trans s s' s'' a b add

  regroup :
      (s : S) {a b : Bytes}
      → a ≡ b
      → {m : Outcome Failure S} → OrIo (Breaks t) (Adds s a) m
      → OrIo (Breaks t) (Adds s b) m
  regroup s e {m} h = subst (λ c. OrIo (Breaks t) (Adds s c) m) e h

  write_decimal-Adds :
      (s : S) (n : ℕ) → OrIo (Breaks t) (Adds s (to_decimal n ++ crlf)) (write_decimal t s n)
  unfolding write_decimal
  write_decimal-Adds s n = rw (fits_20 _ (length-to_decimal n)) (
      then_write s (to_decimal n) crlf _ (write_all-Adds s (to_decimal n))
        λ s'. write_all-Adds s' crlf)

  line-Adds :
      (s : S) (b : ℕ) (v : Bytes)
      → OrIo
          (Breaks t)
          (Adds s (b ∷ (v ++ crlf)))
          (do s₁ ← write_u8 t s b; s₂ ← write_all t s₁ v; write_all t s₂ crlf)
  line-Adds s b v =
      then_write s (b ∷ []) (v ++ crlf) _ (write_all-Adds s (b ∷ []))
        λ s'. then_write s' v crlf _ (write_all-Adds s' v) λ s''. write_all-Adds s'' crlf

  write_value-Adds :
      (s : S) (f : Frame) → IsValue f → OrIo (Breaks t) (Adds s (encode f)) (write_value t s f)
  unfolding write_value encode
  write_value-Adds s (simple v) h = line-Adds s b'+' v
  write_value-Adds s (error v) h = line-Adds s b'-' v
  write_value-Adds s (integer n) h =
      then_write s (b':' ∷ []) (to_decimal n ++ crlf) _ (write_all-Adds s (b':' ∷ []))
        λ s'. write_decimal-Adds s' n
  write_value-Adds s null h = write_all-Adds s (encode null)
  write_value-Adds s (bulk v) h = then_write s (b'$' ∷ []) _ _ (write_all-Adds s (b'$' ∷ [])) λ s₁.
      regroup s₁ (append_assoc (to_decimal (length v)) crlf (v ++ crlf)) (
        then_write s₁ (to_decimal (length v) ++ crlf) (v ++ crlf) _
          (write_decimal-Adds s₁ (length v))
          λ s₂. then_write s₂ v crlf _ (write_all-Adds s₂ v) λ s₃. write_all-Adds s₃ crlf)
  write_value-Adds s (array fs) h = absurd h

  write_entries-Adds :
      (s : S) (fs : Frames)
      → AreValues fs
      → OrIo (Breaks t) (Adds s (encode_items fs)) (write_entries t s fs)
  unfolding write_entries encode
  write_entries-Adds s nil h =
      returned s (record { added = sym (append-nil (t.written s)); same_input = refl })
  write_entries-Adds s (cons f fs) h =
      then_write s (encode f) (encode_items fs) _ (write_value-Adds s f h.0)
        λ s'. write_entries-Adds s' fs h.1

  write_body-Adds :
      (s : S) (f : Frame) → IsFlat f → OrIo (Breaks t) (Adds s (encode f)) (write_body t s f)
  unfolding write_body encode
  write_body-Adds s (array fs) h = then_write s (b'*' ∷ []) _ _ (write_all-Adds s (b'*' ∷ [])) λ s₁.
      regroup s₁ (append_assoc (to_decimal (len fs)) crlf (encode_items fs)) (
        then_write s₁ (to_decimal (len fs) ++ crlf) (encode_items fs) _
          (write_decimal-Adds s₁ (len fs)) λ s₂. write_entries-Adds s₂ fs h)
  write_body-Adds s (simple v) h = write_value-Adds s (simple v) tt
  write_body-Adds s (error v) h = write_value-Adds s (error v) tt
  write_body-Adds s (integer n) h = write_value-Adds s (integer n) tt
  write_body-Adds s (bulk v) h = write_value-Adds s (bulk v) tt
  write_body-Adds s null h = write_value-Adds s null tt

  -- `c'` is `c` with the wire form of `f` written and all that was written passed on.
  pub record Sent (c : Connection S) (f : Frame) (c' : Connection S) : Type 0 where
    pub written_frame : t.written c'.stream ≡ t.written c.stream ++ encode f
    pub all_flushed : t.flushed c'.stream ≡ t.written c'.stream
    pub same_input : t.arriving c'.stream ≡ t.arriving c.stream
    pub same_buffer : c'.read_buf ≡ c.read_buf

  flush-Sent :
      (c : Connection S) (f : Frame) (s : S)
      → Adds c.stream (encode f) s
      → OrIo
          (Breaks t)
          (Sent c f)
          (do s' ← lift_io (t.flush s); ok (record { stream = s'; read_buf = c.read_buf }))
  flush-Sent c f s add = go (t.flush s) refl
    where
      go :
          (o : Option S)
          → t.flush s ≡ o
          → OrIo
              (Breaks t)
              (Sent c f)
              (do s' ← lift_io o; ok (record { stream = s'; read_buf = c.read_buf }))
      go none e = broken (flush_breaks s e)
      go (some s') e =
          let (out, same, input) = t.flush_lem s s' e in
          returned _ (record {
            written_frame = same ∙ add.added;
            all_flushed = out ∙ sym same;
            same_input = input ∙ add.same_input;
            same_buffer = refl;
          })

  -- `write_frame` of a frame that is no array of arrays either meets an error of the stream or
  -- returns, and then it has written the wire form of the frame and nothing else, has flushed it,
  -- and has left the input alone; it does not panic.
  pub write_frame-OrIo :
      (c : Connection S) (f : Frame) → IsFlat f → OrIo (Breaks t) (Sent c f) (write_frame t c f)
  unfolding write_frame
  write_frame-OrIo c f h = OrIo-bind (write_body-Adds c.stream f h) λ s add. flush-Sent c f s add
