-- ===== src/Prelude/Postconditions.antt =====
-- Postconditions of results: `Ensures P r` says that `r` fails or holds a value with `P`.
use mathlib.Core.Path.{◌≡◌, refl, subst}
use mathlib.Core.Bool.{Bool, true, false}
use mathlib.Core.Option.{Option, none, some}
use narou_viewer.Prelude.Tests.{if◌then◌else◌}
use narou_viewer.Prelude.Results.{Result, ok, err, ◌>>=◌, ◌>>◌, fail_if, or_fail}

pub data Ensures {ℓ κ} {E : Type 0} {A : Type ℓ} (P : A → Type κ) : Result E A → Type (ℓ ⊔ κ) where
  done : {a : A} → P a → Ensures P (ok a)
  raised : {e : E} → Ensures P (err e)

module _ {ℓ κ} {E : Type 0} {A : Type ℓ} {P : A → Type κ} where
  pub Ensures-apply : {r : Result E A} {a : A} → Ensures P r → r ≡ ok a → P a
  Ensures-apply {r} {a} h e = go (subst (Ensures P) e h)
    where
      go : {b : A} → Ensures {E = E} P (ok b) → P b
      go (done p) = p

  pub Ensures-mono {μ} :
      {Q : A → Type μ} {r : Result E A} → ((a : A) → P a → Q a) → Ensures P r → Ensures Q r
  Ensures-mono f (done {a = a} p) = done (f a p)
  Ensures-mono f raised = raised

  pub Ensures-if :
      (b : Bool) (m n : Result E A)
      → (b ≡ true → Ensures P m)
      → (b ≡ false → Ensures P n)
      → Ensures P (if b then m else n)
  Ensures-if true m n hm hn = hm refl
  Ensures-if false m n hm hn = hn refl

  -- The rest of a block may use that a guard let it pass.
  pub Ensures-guard :
      (b : Bool) (e : E) (m : Result E A) → (b ≡ false → Ensures P m) → Ensures P (fail_if b e >> m)
  Ensures-guard true e m h = raised
  Ensures-guard false e m h = h refl

  pub Ensures-bind {μ} :
      {B : Type μ} (m : Result E B) (f : B → Result E A)
      → ((b : B) → m ≡ ok b → Ensures P (f b))
      → Ensures P (m >>= f)
  Ensures-bind (ok b) f h = h b refl
  Ensures-bind (err e) f h = raised

  pub Ensures-or_fail {μ} :
      {B : Type μ} (o : Option B) (e : E) (f : B → Result E A)
      → ((b : B) → o ≡ some b → Ensures P (f b))
      → Ensures P (or_fail o e >>= f)
  Ensures-or_fail none e f h = raised
  Ensures-or_fail (some b) e f h = h b refl

  -- The rest of a block may use the postcondition of a step.
  pub Ensures-then {μ ν} :
      {B : Type μ} {Q : B → Type ν} (m : Result E B) (f : B → Result E A)
      → Ensures Q m
      → ((b : B) → Q b → Ensures P (f b))
      → Ensures P (m >>= f)
  Ensures-then (ok b) f (done q) h = h b q
  Ensures-then (err e) f q h = raised
