-- ===== src/Apply/Replies.antt =====
-- What the server answers to a `GET` that follows a `SET` (redis-lib/src/cmd).
use redis_demo.Base.{
  ◌≡◌, refl, ap, ◌∙◌, subst, Bool, Bool-cases, inl, inr, Bytes, codes, Option, none, some, ◌is◌,
  if◌then◌else◌, Outcome, ok,
}
use redis_demo.Std.BTreeSet.{Instant}
use redis_demo.Env.{Env}
use redis_demo.Frame.{Frame, simple}
use redis_demo.Failure.{Failure, OrIo, returned}
use redis_demo.Command.{Set}
use redis_demo.Db
use redis_demo.Db.{Shared}
use redis_demo.Db.Answers.{get-set}
use redis_demo.Connection.{Stream, Connection, Breaks}
use redis_demo.Connection.Write.{write_frame}
use redis_demo.Connection.Write.Sends.{Sent, IsFlat, write_frame-OrIo}
use redis_demo.Apply.{value_frame, respond, get_apply, set_apply}

module _ {S : Type 0} (t : Stream S) where
  pub value_frame-IsFlat : (v : Option Bytes) → IsFlat (value_frame v)
  value_frame-IsFlat none = tt
  value_frame-IsFlat (some v) = tt

  write_value-OrIo :
      (dst : Connection S) (v : Option Bytes)
      → OrIo (Breaks t) (Sent t dst (value_frame v)) (write_frame t dst (value_frame v))
  write_value-OrIo dst v = write_frame-OrIo t dst (value_frame v) (value_frame-IsFlat v)

  Sent-of_ok :
      {c c' : Connection S} {f : Frame} {m : Outcome Failure (Connection S)}
      → OrIo (Breaks t) (Sent t c f) m
      → m ≡ ok c'
      → Sent t c f c'
  Sent-of_ok {c} {f} (returned d h) e = subst (Sent t c f) (cc) h
  Sent-of_ok _ e = cc

  module _ {T : Type 0} (x : Env) (now : Instant) (cmd : Set) (db db' : Shared T)
      (dst dst' : Connection S) where
    -- A `SET` that was answered returned from `Db::set`.
    set_answered :
        set_apply t x now cmd db dst ≡ (ok dst', db')
        → (notify : Bool) × (Db.set x now cmd.key cmd.value cmd.expire db ≡ (some notify, db'))
          × Sent t dst (simple (codes "OK")) dst'
    unfolding set_apply
    set_answered h = go (Db.set x now cmd.key cmd.value cmd.expire db) refl h
      where
        go :
            (r : Option Bool × Shared T)
            → Db.set x now cmd.key cmd.value cmd.expire db ≡ r
            → ◌≡◌ {A = Outcome Failure (Connection S) × Shared T}
                (respond t (λ _. simple (codes "OK")) r.0 dst, r.1)
                (ok dst', db')
            → (notify : Bool) × (Db.set x now cmd.key cmd.value cmd.expire db ≡ (some notify, db'))
              × Sent t dst (simple (codes "OK")) dst'
        go (none, sh) e k = cc (ap (λ r. r.0) k)
        go (some notify, sh) e k = (
          notify,
          e ∙ ap (λ s. (some notify, s)) (ap (λ r. r.1) k),
          Sent-of_ok (write_frame-OrIo t dst (simple (codes "OK")) tt) (ap (λ r. r.0) k),
        )

    -- Where `SET` was applied and its reply written, that reply is "OK", and a `GET` that is applied
    -- next, on any connection, writes the new value for the key of the `SET`, and for any other key
    -- the value that `Db::get` gave before the `SET`, or null if there was none, unless the stream
    -- fails; it does not panic.
    pub get_apply-set_apply :
        (dst₂ : Connection S) (j : Bytes) (before : Option Bytes)
        → (Db.get j db).0 ≡ some before
        → set_apply t x now cmd db dst ≡ (ok dst', db')
        → Sent t dst (simple (codes "OK")) dst'
          × OrIo
              (Breaks t)
              (Sent t dst₂ (value_frame (if cmd.key is j then some cmd.value else before)))
              (get_apply t (record { key = j }) db' dst₂).0
    unfolding get_apply
    get_apply-set_apply dst₂ j before b h =
        let (notify, done, replied) = set_answered h in
        let answer = get-set x now cmd.key cmd.value cmd.expire db db' notify done j in
        (
          replied,
          rw (answer, b)
              (elim (Bool-cases (cmd.key is j)) [
                | inl same ↦ rw same (write_value-OrIo dst₂ (some cmd.value))
                | inr different ↦ rw different (write_value-OrIo dst₂ before)
              ]),
        )
