-- ===== src/Prelude/Searches.antt =====
-- Laws of `find`, `any` and `count`, and of predicates on every element.
use Prim.Native.Nat.{◌+◌, ◌<◌}
use mathlib.Core.Path.{◌≡◌, refl, subst}
use mathlib.Core.Logic.{inl, inr}
use mathlib.Core.Bool.{Bool, true, false}
use mathlib.Core.Option.{none, some}
use mathlib.Core.List.{List, [], ◌∷◌, ◌++◌}
use native.Mathlib.Omega.{arith}
use narou_viewer.Prelude.Tests.{is_some, Bool-cases}
use narou_viewer.Prelude.Lists.{find, any, count, All}

module _ {ℓ} {A : Type ℓ} where
  pub count-append : (p : A → Bool) (xs ys : List A) → count p (xs ++ ys) ≡ count p xs + count p ys
  unfolding count
  count-append p [] ys = omega arith
  count-append p (x ∷ xs) ys = omega (arith, count-append p xs ys)

  pub count-ext : (p q : A → Bool) → ((x : A) → p x ≡ q x) → (xs : List A) → count p xs ≡ count q xs
  unfolding count
  count-ext p q h [] = refl
  count-ext p q h (x ∷ xs) = rw (h x, count-ext p q h xs) refl

  pub count-zero_of_find : (p : A → Bool) (xs : List A) → find p xs ≡ none → count p xs ≡ 0
  unfolding find count
  count-zero_of_find p [] h = refl
  count-zero_of_find p (x ∷ xs) h = ground (arith, count-zero_of_find p xs)

  pub count-pos_of_find : (p : A → Bool) (xs : List A) (x : A) → find p xs ≡ some x → 0 < count p xs
  unfolding find count
  count-pos_of_find p [] x h = cc
  count-pos_of_find p (y ∷ xs) x h = ground (arith, count-pos_of_find p xs x)

  pub find-holds : (p : A → Bool) (xs : List A) (x : A) → find p xs ≡ some x → p x ≡ true
  unfolding find
  find-holds p [] x h = cc
  find-holds p (y ∷ xs) x h = ground (arith, find-holds p xs x)

  pub any-find : (p : A → Bool) (xs : List A) → any p xs ≡ is_some (find p xs)
  unfolding any find
  any-find p [] = refl
  any-find p (x ∷ xs) = ground (arith, any-find p xs)

  pub any-count : (p : A → Bool) (xs : List A) → any p xs ≡ false → count p xs ≡ 0
  unfolding any count
  any-count p [] h = refl
  any-count p (x ∷ xs) h = ground (arith, any-count p xs)

  pub any-pos : (p : A → Bool) (xs : List A) → any p xs ≡ true → 0 < count p xs
  unfolding any count
  any-pos p [] h = absurd (cc)
  any-pos p (x ∷ xs) h = ground (arith, any-pos p xs)

  pub any-of_count : (p : A → Bool) (xs : List A) → count p xs ≡ 0 → any p xs ≡ false
  unfolding any count
  any-of_count p [] h = refl
  any-of_count p (x ∷ xs) h = ground (arith, any-of_count p xs)

module _ {ℓ κ} {A : Type ℓ} (P : A → Type κ) where
  pub All-find : (p : A → Bool) (xs : List A) (x : A) → All P xs → find p xs ≡ some x → P x
  unfolding find
  All-find p [] x h e = absurd (cc)
  All-find p (y ∷ xs) x h e = elim (Bool-cases (p y)) [
    | inl t ↦ subst P (ground arith) h.0
    | inr f ↦ All-find p xs x h.1 (ground arith)
  ]

  pub All-append_one : (xs : List A) (x : A) → All P xs → P x → All P (xs ++ x ∷ [])
  All-append_one [] x h hx = (hx, tt)
  All-append_one (y ∷ xs) x h hx = (h.0, All-append_one xs x h.1 hx)

  pub All-mono {μ} : (Q : A → Type μ) → ((x : A) → P x → Q x) → (xs : List A) → All P xs → All Q xs
  All-mono Q f [] h = tt
  All-mono Q f (x ∷ xs) h = (f x h.0, All-mono Q f xs h.1)

  pub All-zip {μ} : (Q : A → Type μ) (xs : List A) → All P xs → All Q xs → All (λ x. P x × Q x) xs
  All-zip Q [] h k = tt
  All-zip Q (x ∷ xs) h k = ((h.0, k.0), All-zip Q xs h.1 k.1)
