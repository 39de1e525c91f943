-- ===== src/Prelude/Sorting.antt =====
-- sort.SliceStable, of Go's standard library, and the byte order of texts.
use Prim.Native.Char.{code}
use Prim.Native.Nat.{◌+◌}
use Prim.Native.String.{String}
use mathlib.Core.Path.{◌≡◌, refl}
use mathlib.Core.Logic.{inl, inr}
use mathlib.Core.Bool.{Bool, true, false, ◌&&◌, ◌||◌}
use mathlib.Core.List.{List, [], ◌∷◌}
use native.Mathlib.Omega.{arith}
use narou_viewer.Prelude.Tests.{ltb, ◌==◌, if◌then◌else◌, Bool-cases}
use narou_viewer.Prelude.Lists.{count, All}
use narou_viewer.Prelude.Searches.{All-mono}

-- `s < t` of two strings: the order of their bytes, which is that of their code points.
unfoldable pub text_lt : String → String → Bool
text_lt s String.[] = false
text_lt String.[] (String.◌∷◌ d t) = true
text_lt (String.◌∷◌ c s) (String.◌∷◌ d t) = ltb (code c) (code d) || code c == code d && text_lt s t

pub text_lt_irrefl : (s : String) → text_lt s s ≡ false
unfolding text_lt
text_lt_irrefl String.[] = refl
text_lt_irrefl (String.◌∷◌ c s) = ground (arith, text_lt_irrefl s)

pub text_lt_trans : (s t u : String) → text_lt s t ≡ true → text_lt t u ≡ true → text_lt s u ≡ true
unfolding text_lt
text_lt_trans s t String.[] h k = absurd (cc)
text_lt_trans s String.[] (String.◌∷◌ e u) h k = absurd (cc)
text_lt_trans String.[] (String.◌∷◌ d t) (String.◌∷◌ e u) h k = refl
text_lt_trans (String.◌∷◌ c s) (String.◌∷◌ d t) (String.◌∷◌ e u) h k =
    ground (arith, text_lt_trans s t u)

module _ {ℓ} {A : Type ℓ} (less : A → A → Bool) where
  -- An element that stands before the sorted rest in the unsorted list.
  unfoldable pub insert_stable : A → List A → List A
  insert_stable x [] = x ∷ []
  insert_stable x (y ∷ ys) = if less y x then y ∷ insert_stable x ys else x ∷ y ∷ ys

  unfoldable pub sort_stable : List A → List A
  unfolding insert_stable
  sort_stable [] = []
  sort_stable (x ∷ xs) = insert_stable x (sort_stable xs)

  count-insert_stable :
      (p : A → Bool) (x : A) (xs : List A)
      → count p (insert_stable x xs) ≡ (if p x then 1 else 0) + count p xs
  unfolding count insert_stable
  count-insert_stable p x [] = refl
  count-insert_stable p x (y ∷ ys) = elim (Bool-cases (less y x)) [
    | inl t ↦ rw t (omega (arith, count-insert_stable p x ys))
    | inr f ↦ rw f refl
  ]

  pub count-sort_stable : (p : A → Bool) (xs : List A) → count p (sort_stable xs) ≡ count p xs
  unfolding count sort_stable
  count-sort_stable p [] = refl
  count-sort_stable p (x ∷ xs) =
      omega (arith, count-insert_stable p x (sort_stable xs), count-sort_stable p xs)

  module _ {κ} (P : A → Type κ) where
    All-insert_stable : (x : A) (xs : List A) → P x → All P xs → All P (insert_stable x xs)
    unfolding insert_stable
    All-insert_stable x [] h hs = (h, tt)
    All-insert_stable x (y ∷ ys) h hs = elim (Bool-cases (less y x)) [
      | inl t ↦ rw t (hs.0, All-insert_stable x ys h hs.1)
      | inr f ↦ rw f (h, hs)
    ]

    pub All-sort_stable : (xs : List A) → All P xs → All P (sort_stable xs)
    unfolding sort_stable
    All-sort_stable [] h = tt
    All-sort_stable (x ∷ xs) h = All-insert_stable x (sort_stable xs) h.0 (All-sort_stable xs h.1)

-- No element is less than one that stands before it.
unfoldable pub IsSorted {ℓ} : {A : Type ℓ} → (A → A → Bool) → List A → Type ℓ
IsSorted less [] = Unit
IsSorted less (x ∷ xs) = All (λ y. less y x ≡ false) xs × IsSorted less xs

module _ {ℓ} {A : Type ℓ} (less : A → A → Bool)
    (asym : (x y : A) → less x y ≡ true → less y x ≡ false)
    (cotrans : (x y z : A) → less x y ≡ false → less y z ≡ false → less x z ≡ false) where
  insert_stable-IsSorted :
      (x : A) (xs : List A) → IsSorted less xs → IsSorted less (insert_stable less x xs)
  unfolding insert_stable IsSorted
  insert_stable-IsSorted x [] h = (tt, tt)
  insert_stable-IsSorted x (y ∷ ys) h = elim (Bool-cases (less y x)) [
    | inl t ↦ rw t (
      All-insert_stable less (λ z. less z y ≡ false) x ys (asym y x t) h.0,
      insert_stable-IsSorted x ys h.1,
    )
    | inr f ↦ rw f ((f, All-mono _ (λ z. less z x ≡ false) (λ z e. cotrans z y x e f) ys h.0), h)
  ]

  pub sort_stable-IsSorted : (xs : List A) → IsSorted less (sort_stable less xs)
  unfolding sort_stable IsSorted
  sort_stable-IsSorted [] = tt
  sort_stable-IsSorted (x ∷ xs) =
      insert_stable-IsSorted x (sort_stable less xs) (sort_stable-IsSorted xs)

pub text_lt_asym : (s t : String) → text_lt s t ≡ true → text_lt t s ≡ false
unfolding text_lt
text_lt_asym s String.[] h = absurd (cc)
text_lt_asym String.[] (String.◌∷◌ d t) h = refl
text_lt_asym (String.◌∷◌ c s) (String.◌∷◌ d t) h = ground (arith, text_lt_asym s t)

pub text_lt_cotrans :
    (s t u : String) → text_lt s t ≡ false → text_lt t u ≡ false → text_lt s u ≡ false
unfolding text_lt
text_lt_cotrans s t String.[] h k = refl
text_lt_cotrans s String.[] (String.◌∷◌ e u) h k = absurd (cc)
text_lt_cotrans String.[] (String.◌∷◌ d t) (String.◌∷◌ e u) h k = absurd (cc)
text_lt_cotrans (String.◌∷◌ c s) (String.◌∷◌ d t) (String.◌∷◌ e u) h k =
    ground (arith, text_lt_cotrans s t u)
