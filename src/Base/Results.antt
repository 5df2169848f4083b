-- ===== src/Base/Results.antt =====
-- The outcome of a run of code that may fail: `Result<A, E>`, a panic, and, where the model gives
-- fuel to a recursion, the end of the fuel.
use mathlib.Core.Path.{◌≡◌, refl, subst}
use mathlib.Core.Logic.{◌≢◌}
use mathlib.Core.Bool.{Bool, true, false}
use mathlib.Core.Option.{some}
use redis_demo.Base.Tests.{if◌then◌else◌}

pub data Outcome {ℓ κ} (E : Type ℓ) (A : Type κ) : Type (ℓ ⊔ κ) where
  ok : A → Outcome E A
  err : E → Outcome E A
  panic : Outcome E A
  out_of_fuel : Outcome E A

infixl 5 ◌>>=◌ ◌>>◌
abbrev pub ◌>>=◌ {ℓ κ κ'} :
    {E : Type ℓ} {A : Type κ} {B : Type κ'} → Outcome E A → (A → Outcome E B) → Outcome E B
ok a >>= f = f a
err e >>= f = err e
panic >>= f = panic
out_of_fuel >>= f = out_of_fuel

abbrev pub ◌>>◌ {ℓ κ κ'} :
    {E : Type ℓ} {A : Type κ} {B : Type κ'} → Outcome E A → Outcome E B → Outcome E B
m >> k = m >>= λ _. k

-- `map_err`, and the conversion that `?` makes of an error.
abbrev pub map_err {ℓ ℓ' κ} :
    {E : Type ℓ} {F : Type ℓ'} {A : Type κ} → (E → F) → Outcome E A → Outcome F A
map_err g (ok a) = ok a
map_err g (err e) = err (g e)
map_err g panic = panic
map_err g out_of_fuel = out_of_fuel

-- A bind that returned: its first run returned, and so did the rest.
pub >>=-eq-ok {ℓ κ κ'} :
    {E : Type ℓ} {A : Type κ} {B : Type κ'} {answer : B} (run : Outcome E A)
    (rest : A → Outcome E B)
    → (run >>= rest) ≡ ok answer
    → (a : A) × (run ≡ ok a) × (rest a ≡ ok answer)
>>=-eq-ok out_of_fuel rest done = cc
>>=-eq-ok panic rest done = cc
>>=-eq-ok (err e) rest done = cc
>>=-eq-ok (ok a) rest done = (a, refl, done)

-- Two results that are equal hold equal pairs.
module _ {ℓ κ κ'} {E : Type ℓ} {A : Type κ} {B : Type κ'} where
  pub ok-pair_eq :
      {a a' : A} {b b' : B}
      → ◌≡◌ {A = Outcome E (A × B)} (ok (a, b)) (ok (a', b'))
      → (a ≡ a') × (b ≡ b')
  ok-pair_eq h = (cc, cc)

-- The run kept within its fuel, and `P` holds of what it returned, if it returned.
pub data Ensures {ℓ κ κ'} {E : Type ℓ} {A : Type κ} (P : A → Type κ')
    : Outcome E A → Type (ℓ ⊔ κ ⊔ κ') where
  returned : (a : A) → P a → Ensures P (ok a)
  failed : (e : E) → Ensures P (err e)
  panicked : Ensures P panic

module _ {ℓ κ κ'} {E : Type ℓ} {A : Type κ} {P : A → Type κ'} where
  pub Ensures-of_ok : (r : Outcome E A) → r ≢ out_of_fuel → ((a : A) → r ≡ ok a → P a) → Ensures P r
  Ensures-of_ok (ok a) h k = returned a (k a refl)
  Ensures-of_ok (err e) h k = failed e
  Ensures-of_ok panic h k = panicked
  Ensures-of_ok out_of_fuel h k = absurd (h refl)

  pub Ensures-ok : {r : Outcome E A} {a : A} → Ensures P r → r ≡ ok a → P a
  Ensures-ok (returned b h) e = subst P (cc) h
  Ensures-ok (failed e') e = cc
  Ensures-ok panicked e = cc

  pub Ensures-ne-out_of_fuel : {r : Outcome E A} → Ensures P r → r ≢ out_of_fuel
  Ensures-ne-out_of_fuel (returned b h) = cc
  Ensures-ne-out_of_fuel (failed e') = cc
  Ensures-ne-out_of_fuel panicked = cc

  pub Ensures-if :
      (b : Bool) {r s : Outcome E A} → Ensures P r → Ensures P s → Ensures P (if b then r else s)
  Ensures-if true h k = h
  Ensures-if false h k = k

  pub Ensures-bind {α β} :
      {B : Type α} {Q : B → Type β} {r : Outcome E A} {f : A → Outcome E B}
      → Ensures P r
      → ((a : A) → P a → Ensures Q (f a))
      → Ensures Q (r >>= f)
  Ensures-bind (returned a h) k = k a h
  Ensures-bind (failed e) k = failed e
  Ensures-bind panicked k = panicked

  pub Ensures-weaken {δ} :
      {Q : A → Type δ} {r : Outcome E A} → Ensures P r → ((a : A) → P a → Q a) → Ensures Q r
  Ensures-weaken (returned a h) k = returned a (k a h)
  Ensures-weaken (failed e) k = failed e
  Ensures-weaken panicked k = panicked

-- What follows from either branch that returned `a` follows from the code that branches.
pub ok_of_if {ℓ κ κ'} :
    {E : Type ℓ} {A : Type κ} {X : Type κ'} {a : A} (t : Bool) {r s : Outcome E A}
    → (r ≡ ok a → X)
    → (s ≡ ok a → X)
    → (if t then r else s) ≡ ok a
    → X
ok_of_if true h k e = h e
ok_of_if false h k e = k e

-- The run kept within its fuel.
abbrev pub Halts {ℓ κ} : {E : Type ℓ} {A : Type κ} → Outcome E A → Type (ℓ ⊔ κ)
Halts r = Ensures (λ _. Unit {0}) r

module _ {ℓ κ} {E : Type ℓ} {A : Type κ} where
  pub Halts-bind {κ'} :
      {B : Type κ'} {m : Outcome E A} {f : A → Outcome E B}
      → Halts m
      → ((a : A) → Halts (f a))
      → Halts (m >>= f)
  Halts-bind h k = Ensures-bind h λ a _. k a

  pub Halts-map_err {ℓ'} :
      {F : Type ℓ'} (g : E → F) {m : Outcome E A} → Halts m → Halts (map_err g m)
  Halts-map_err g (returned a h) = returned a tt
  Halts-map_err g (failed e) = failed (g e)
  Halts-map_err g panicked = panicked

pub some_eq {ℓ} : {A : Type ℓ} {a b : A} → some a ≡ some b → a ≡ b
some_eq h = cc
