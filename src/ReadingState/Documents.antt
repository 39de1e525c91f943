-- ===== src/ReadingState/Documents.antt =====
-- The normal form of the entries that readingstate/repository.go stores.
use Prim.Native.Char.{Char, code}
use narou_viewer.Prelude.{
  Bool, Bool-cases, Option, String, [], ap, arith, cons_trimmed, false, if◌then◌else◌, inl, inr,
  is_some, is_space, ltb, negsuc, none, pos, refl, some, str_eq, str_eq_iff, str_eq_refl, suc,
  trim_left, trim_right, trim_space, true, zero, ℕ, ℤ, ◌∙◌, ◌∷◌, ◌≡◌,
}
use narou_viewer.ReadingState.Repository.{
  Entry, Novels, PutInput, Ratio, ScrollState, at_least_one, clamp_ratio, finite, is_blank,
  is_episode_index, lookup, negative_infinity, new_entry, normalize_client_id, normalize_entry,
  normalize_episode_index, normalize_novels, normalize_position, normalize_scroll, not_a_number,
  positive_infinity, store_entry, two_to,
}

trim_left-twice : (s : String) → trim_left (trim_left s) ≡ trim_left s
unfolding trim_left
trim_left-twice String.[] = refl
trim_left-twice (String.◌∷◌ c s) = elim (Bool-cases (is_space (code c))) [
  | inl t ↦ rw t (trim_left-twice s)
  | inr f ↦ rw (f, f) refl
]

trim_left-cons_trimmed :
    (c : Char) (t : String)
    → is_space (code c) ≡ false
    → trim_left (cons_trimmed c t) ≡ cons_trimmed c t
unfolding trim_left cons_trimmed
trim_left-cons_trimmed c String.[] f = rw (f, f) refl
trim_left-cons_trimmed c (String.◌∷◌ d t) f = rw f refl

trim_left-trim_right :
    (s : String) → trim_left (trim_right (trim_left s)) ≡ trim_right (trim_left s)
unfolding trim_left trim_right
trim_left-trim_right String.[] = refl
trim_left-trim_right (String.◌∷◌ c s) = elim (Bool-cases (is_space (code c))) [
  | inl t ↦ rw t (trim_left-trim_right s)
  | inr f ↦ rw f (trim_left-cons_trimmed c (trim_right s) f)
]

trim_right-cons_trimmed :
    (c : Char) (t : String) → trim_right t ≡ t → trim_right (cons_trimmed c t) ≡ cons_trimmed c t
unfolding trim_right cons_trimmed
trim_right-cons_trimmed c String.[] e = elim (Bool-cases (is_space (code c))) [
  | inl t ↦ rw t refl
  | inr f ↦ rw (f, f) refl
]
trim_right-cons_trimmed c (String.◌∷◌ d t) e = rw e refl

trim_right-twice : (s : String) → trim_right (trim_right s) ≡ trim_right s
unfolding trim_right
trim_right-twice String.[] = refl
trim_right-twice (String.◌∷◌ c s) = trim_right-cons_trimmed c (trim_right s) (trim_right-twice s)

pub trim_space-twice : (s : String) → trim_space (trim_space s) ≡ trim_space s
unfolding trim_space
trim_space-twice s = ap trim_right (trim_left-trim_right s) ∙ trim_right-twice (trim_left s)

episode_index-twice :
    (o : Option String)
    → normalize_episode_index (normalize_episode_index o) ≡ normalize_episode_index o
unfolding normalize_episode_index
episode_index-twice none = refl
episode_index-twice (some i) = elim (Bool-cases (is_episode_index i)) [
  | inl t ↦ rw (t, t) refl
  | inr f ↦ rw f refl
]

clamp-twice : (r : Ratio) → clamp_ratio (clamp_ratio r) ≡ clamp_ratio r
unfolding clamp_ratio
clamp-twice not_a_number = refl
clamp-twice positive_infinity = refl
clamp-twice negative_infinity = refl
clamp-twice (finite (negsuc n) s) = refl
clamp-twice (finite (pos n) s) = elim (Bool-cases (ltb (two_to s) n)) [
  | inl t ↦ rw t refl
  | inr f ↦ rw (f, f) refl
]

scroll-twice : (o : Option ScrollState) → normalize_scroll (normalize_scroll o) ≡ normalize_scroll o
unfolding normalize_scroll
scroll-twice none = refl
scroll-twice (some s) = elim (Bool-cases (str_eq s.kind "ratio")) [
  | inl t ↦ rw (t, str_eq_refl "ratio", clamp-twice s.value) refl
  | inr f ↦ rw f refl
]

pub client_id-twice :
    (o : Option String) → normalize_client_id (normalize_client_id o) ≡ normalize_client_id o
unfolding normalize_client_id
client_id-twice none = refl
client_id-twice (some c) = elim (Bool-cases (str_eq (trim_space c) "")) [
  | inl t ↦ rw t refl
  | inr f ↦ rw (f, trim_space-twice c, f) refl
]

pub position-twice : (n : ℤ) → normalize_position (normalize_position n) ≡ normalize_position n
position-twice (pos n) = refl
position-twice (negsuc n) = refl

one-twice : (n : ℤ) → at_least_one (normalize_position (at_least_one n)) ≡ at_least_one n
one-twice (pos zero) = refl
one-twice (pos (suc n)) = refl
one-twice (negsuc n) = refl

pub normalize_entry-twice : (e : Entry) → normalize_entry (normalize_entry e) ≡ normalize_entry e
unfolding normalize_entry
normalize_entry-twice e = elim (Bool-cases e.deleted) [
  | inl t ↦ rw (t, one-twice (normalize_position e.state_version)) refl
  | inr f ↦
      rw
        (
          f,
          episode_index-twice e.last_read_episode_index,
          position-twice e.position,
          scroll-twice e.scroll,
          position-twice e.state_version,
          client_id-twice e.updated_by_client_id,
        )
        refl
]

-- What Put stores is in normal form, for a version that is not negative.
pub new_entry-normal :
    (input : PutInput) (now : String) (n : ℕ)
    → normalize_entry (new_entry input now (pos n)) ≡ new_entry input now (pos n)
unfolding normalize_entry new_entry
new_entry-normal input now n =
    rw
      (
        episode_index-twice input.last_read_episode_index,
        scroll-twice input.scroll,
        client_id-twice input.updated_by_client_id,
        shown (is_some (normalize_episode_index input.last_read_episode_index)),
      )
      refl
  where
    shown :
        (b : Bool)
        → normalize_position (if b then normalize_position input.position else pos 0)
          ≡ (if b then normalize_position input.position else pos 0)
    shown true = position-twice input.position
    shown false = refl

-- Lookups.
abbrev pub normal_entry : Option Entry → Option Entry
normal_entry none = none
normal_entry (some e) = some (normalize_entry e)

pub lookup-normalize :
    (id : String) (xs : Novels)
    → lookup id (normalize_novels xs) ≡ (if is_blank id then none else normal_entry (lookup id xs))
unfolding lookup normalize_novels
lookup-normalize id [] = elim (Bool-cases (is_blank id)) [ inl t ↦ rw t refl | inr f ↦ rw f refl ]
lookup-normalize id ((k, e) ∷ rest) = elim (Bool-cases (str_eq k id)) [
  | inl t ↦
      let same : is_blank k ≡ is_blank id = ap (λ x. is_blank x) ((str_eq_iff k id).0 t) in
      elim (Bool-cases (is_blank id)) [
        | inl b ↦ rw (same, b) (lookup-normalize id rest ∙ rw b refl)
        | inr u ↦ rw (same, u, t) refl
      ]
  | inr f ↦ elim (Bool-cases (is_blank k)) [
    | inl b ↦ rw (b, f) (lookup-normalize id rest)
    | inr u ↦ rw (u, f) (lookup-normalize id rest)
  ]
]

pub lookup-store :
    (id j : String) (e : Entry) (xs : Novels)
    → lookup j (store_entry id e xs) ≡ (if str_eq id j then some e else lookup j xs)
unfolding lookup store_entry
lookup-store id j e [] = refl
lookup-store id j e ((k, x) ∷ rest) =
    ground (arith, lookup-store id j e rest, str_eq_iff k id, str_eq_iff k j, str_eq_iff id j)
