-- ===== src/Extraction/Directory.antt =====
-- The directory of extraction/job_store.go under its writes.
use narou_viewer.Extraction.Files.{file_at, insert_file, remove_file, write_file}
use narou_viewer.Prelude.{
  All, All-mono, Bool, Bool-cases, List, String, [], arith, count, false, if◌then◌else◌, inl, inr,
  none, not, refl, some, str_eq, str_eq_comm, str_eq_iff, str_eq_refl, text_lt, true, ◌&&◌, ◌+◌,
  ◌∙◌, ◌∷◌, ◌≡◌, ◌≤◌,
}

module _ {ℓ} {A : Type ℓ} where
  pub count-insert_file :
      (p : String × A → Bool) (name : String) (f : A) (files : List (String × A))
      → count p (insert_file name f files) ≡ (if p (name, f) then 1 else 0) + count p files
  unfolding count insert_file
  count-insert_file p name f [] = refl
  count-insert_file p name f ((k, g) ∷ rest) = elim (Bool-cases (text_lt k name)) [
    | inl t ↦ rw t (omega (arith, count-insert_file p name f rest))
    | inr e ↦ rw e refl
  ]

  -- Files but those of one name.
  abbrev pub elsewhere : String → (String × A → Bool) → String × A → Bool
  elsewhere name p x = not (str_eq x.0 name) && p x

  pub count-remove_file :
      (p : String × A → Bool) (name : String) (files : List (String × A))
      → count p (remove_file name files) ≡ count (elsewhere name p) files
  unfolding count remove_file
  count-remove_file p name [] = refl
  count-remove_file p name ((k, g) ∷ rest) = elim (Bool-cases (str_eq k name)) [
    | inl t ↦ rw t (omega (arith, count-remove_file p name rest))
    | inr e ↦ rw e (omega (arith, count-remove_file p name rest))
  ]

  count-elsewhere :
      (p : String × A → Bool) (name : String) (files : List (String × A))
      → count (elsewhere name p) files ≤ count p files
  unfolding count
  count-elsewhere p name [] = omega arith
  count-elsewhere p name ((k, g) ∷ rest) =
      let ih = count-elsewhere p name rest in
      elim (Bool-cases (str_eq k name)) [ inl t ↦ rw t (omega arith) | inr e ↦ rw e (omega arith) ]

  pub count-write_file :
      (p : String × A → Bool) (name : String) (f : A) (files : List (String × A))
      → count p (write_file name f files)
        ≡ (if p (name, f) then 1 else 0) + count (elsewhere name p) files
  unfolding write_file
  count-write_file p name f files =
      rw (count-insert_file p name f (remove_file name files), count-remove_file p name files) refl

  pub count-write_file_le :
      (p : String × A → Bool) (name : String) (f : A) (files : List (String × A))
      → p (name, f) ≡ false
      → count p (write_file name f files) ≤ count p files
  count-write_file_le p name f files h =
      rw (count-write_file p name f files, h) (omega (arith, count-elsewhere p name files))

  file_at-insert_self :
      (name : String) (f : A) (files : List (String × A))
      → file_at name files ≡ none
      → file_at name (insert_file name f files) ≡ some f
  unfolding file_at insert_file
  file_at-insert_self name f [] h = rw (str_eq_refl name) refl
  file_at-insert_self name f ((k, g) ∷ rest) h = elim (Bool-cases (text_lt k name)) [
    | inl t ↦ rw t (elim (Bool-cases (str_eq k name)) [
      | inl u ↦ absurd (ground arith)
      | inr e ↦ rw e (file_at-insert_self name f rest (ground arith))
    ])
    | inr e ↦ rw (e, str_eq_refl name) refl
  ]

  file_at-insert_other :
      (name j : String) (f : A) (files : List (String × A))
      → str_eq name j ≡ false
      → file_at j (insert_file name f files) ≡ file_at j files
  unfolding file_at insert_file
  file_at-insert_other name j f [] h = rw h refl
  file_at-insert_other name j f ((k, g) ∷ rest) h = elim (Bool-cases (text_lt k name)) [
    | inl t ↦ rw (t, file_at-insert_other name j f rest h) refl
    | inr e ↦ rw (e, h) refl
  ]

  file_at-remove_self :
      (name : String) (files : List (String × A)) → file_at name (remove_file name files) ≡ none
  unfolding file_at remove_file
  file_at-remove_self name [] = refl
  file_at-remove_self name ((k, g) ∷ rest) = elim (Bool-cases (str_eq k name)) [
    | inl t ↦ rw t (file_at-remove_self name rest)
    | inr e ↦ rw (e, e) (file_at-remove_self name rest)
  ]

  file_at-remove_other :
      (name j : String) (files : List (String × A))
      → str_eq name j ≡ false
      → file_at j (remove_file name files) ≡ file_at j files
  unfolding file_at remove_file
  file_at-remove_other name j [] h = refl
  file_at-remove_other name j ((k, g) ∷ rest) h =
      let ih = file_at-remove_other name j rest h in
      elim (Bool-cases (str_eq k name)) [
        | inl t ↦
            let other : str_eq k j ≡ false = rw ((str_eq_iff k name).0 t) h in rw (t, other) ih
        | inr e ↦ rw (e, ih) refl
      ]

  pub file_at-write_self :
      (name : String) (f : A) (files : List (String × A))
      → file_at name (write_file name f files) ≡ some f
  unfolding write_file
  file_at-write_self name f files =
      file_at-insert_self name f (remove_file name files) (file_at-remove_self name files)

  pub file_at-write_other :
      (name j : String) (f : A) (files : List (String × A))
      → str_eq name j ≡ false
      → file_at j (write_file name f files) ≡ file_at j files
  unfolding write_file
  file_at-write_other name j f files h =
      file_at-insert_other name j f (remove_file name files) h ∙ file_at-remove_other name j files h

  -- No two files have one name.
  unfoldable pub Distinct : List (String × A) → Type ℓ
  Distinct [] = Unit
  Distinct ((k, f) ∷ rest) = (file_at k rest ≡ none) × Distinct rest

  remove-Distinct :
      (name : String) (files : List (String × A))
      → Distinct files
      → Distinct (remove_file name files)
  unfolding Distinct remove_file
  remove-Distinct name [] h = tt
  remove-Distinct name ((k, g) ∷ rest) h = elim (Bool-cases (str_eq k name)) [
    | inl t ↦ rw t (remove-Distinct name rest h.1)
    | inr e ↦ rw e (
      file_at-remove_other name k rest (str_eq_comm name k ∙ e) ∙ h.0,
      remove-Distinct name rest h.1,
    )
  ]

  insert-Distinct :
      (name : String) (f : A) (files : List (String × A))
      → file_at name files ≡ none
      → Distinct files
      → Distinct (insert_file name f files)
  unfolding Distinct insert_file file_at
  insert-Distinct name f [] missing h = (refl, tt)
  insert-Distinct name f ((k, g) ∷ rest) missing h =
      let other : str_eq k name ≡ false = ground arith in
      let fresh : file_at name rest ≡ none = unfold file_at in ground arith in
      elim (Bool-cases (text_lt k name)) [
        | inl t ↦ rw t (
          file_at-insert_other name k f rest (str_eq_comm name k ∙ other) ∙ h.0,
          insert-Distinct name f rest fresh h.1,
        )
        | inr e ↦ rw e (missing, h)
      ]

  pub write-Distinct :
      (name : String) (f : A) (files : List (String × A))
      → Distinct files
      → Distinct (write_file name f files)
  unfolding write_file
  write-Distinct name f files h =
      insert-Distinct name f (remove_file name files) (file_at-remove_self name files)
        (remove-Distinct name files h)

  -- Each file is the one at its name.
  pub Distinct-at :
      (files : List (String × A)) → Distinct files → All (λ x. file_at x.0 files ≡ some x.1) files
  unfolding Distinct file_at
  Distinct-at [] h = tt
  Distinct-at ((k, g) ∷ rest) h = (
    rw (str_eq_refl k) refl,
    All-mono _ (λ x. file_at x.0 ((k, g) ∷ rest) ≡ some x.1)
        (λ x e. elim (Bool-cases (str_eq k x.0)) [ inl t ↦ absurd (clash x e t) | inr f ↦ rw f e ])
        rest (Distinct-at rest h.1),
  )
    where
      clash : (x : String × A) → file_at x.0 rest ≡ some x.1 → str_eq k x.0 ≡ true → ⊥
      clash x e t =
          let found : file_at k rest ≡ some x.1 = rw ((str_eq_iff k x.0).0 t) e in ground arith
