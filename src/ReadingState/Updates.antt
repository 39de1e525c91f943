-- ===== src/ReadingState/Updates.antt =====
-- Sequences of writes: Put and Prune, of any novels.
use narou_viewer.Prelude.{
  Bool, Bool-cases, List, Option, Result, String, [], ap, arith, err, false, if◌then◌else◌, inl,
  inr, int_eq_iff, none, ok, pos, refl, some, str_eq, str_eq_iff, subst, suc, sym, true, zero, ℕ,
  ◌<◌, ◌∙◌, ◌∷◌, ◌≡◌, ◌≤◌,
}
use narou_viewer.ReadingState.Documents.{new_entry-normal}
use narou_viewer.ReadingState.Repository.{
  Document, Entry, PutInput, ReadingState, current_entry, get_state, is_blank, is_conflict, lookup,
  new_entry, next_version, normalize_document, normalize_entry, or_zero, prune, prune_found,
  put_state_of, tombstone, written,
}
use narou_viewer.ReadingState.Versions.{
  current_entry-written, put-accepted, put-conflict, put-get, size_of, version-pos, version_at,
}

pub data Write : Type 0 where
  puts : PutInput → String → Write
  prunes : String → Write

abbrev pub after_put : Document → Result ReadingState (Document × ReadingState) → Document
after_put raw (ok (raw', s)) = raw'
after_put raw (err s) = raw

-- The document after a write; a refused Put leaves it alone.
unfoldable pub write : Write → Document → Document
write (puts input now) raw = after_put raw (put_state_of input now raw)
write (prunes id) raw = (prune id raw).0

unfoldable pub write_all : List Write → Document → Document
write_all [] raw = raw
write_all (w ∷ ws) raw = write_all ws (write w raw)

version-written :
    (id j : String) (e : Entry) (raw : Document)
    → is_blank j ≡ false
    → (str_eq id j ≡ true → version_at j raw ≤ size_of (normalize_entry e).state_version)
    → version_at j raw ≤ version_at j (written id e raw)
version-written id j e raw named h =
    unfold version_at in
    rw (current_entry-written id j e raw named) (go (str_eq id j) (λ t. unfold version_at in h t))
  where
    go :
        (b : Bool)
        → (b ≡ true
            → size_of (current_entry j raw).state_version
              ≤ size_of (normalize_entry e).state_version)
        → size_of (current_entry j raw).state_version
          ≤ size_of (if b then normalize_entry e else current_entry j raw).state_version
    go true k = k refl
    go false k = omega arith

entry-tombstone : (n : ℕ) → n ≤ size_of (normalize_entry (tombstone (pos n))).state_version
unfolding normalize_entry
entry-tombstone zero = omega arith
entry-tombstone (suc n) = omega arith

new_entry-size :
    (input : PutInput) (now : String) (n : ℕ)
    → size_of (normalize_entry (new_entry input now (pos n))).state_version ≡ suc n
new_entry-size input now n =
    ap (λ e. size_of e.state_version) (new_entry-normal input now n) ∙ (unfold new_entry in refl)

put-grows :
    (input : PutInput) (now : String) (j : String) (raw : Document)
    → is_blank j ≡ false
    → version_at j raw ≤ version_at j (write (puts input now) raw)
unfolding write
put-grows input now j raw named =
    elim (Bool-cases
      (is_conflict input.expected_state_version (current_entry input.novel_id raw).state_version)) [
        | inl t ↦ rw (put-conflict input now raw t) (omega arith)
        | inr f ↦ rw (put-accepted input now raw f) (
            version-written input.novel_id j
              (new_entry input now (current_entry input.novel_id raw).state_version) raw named
              grown)
      ]
  where
    grown :
        str_eq input.novel_id j ≡ true
        → version_at j raw
          ≤ size_of
              (normalize_entry (
                new_entry input now (current_entry input.novel_id raw).state_version)).state_version
    grown t =
        subst
          (λ k.
            version_at k raw
            ≤ size_of
                (normalize_entry (
                  new_entry input now
                    (current_entry input.novel_id raw).state_version)).state_version)
          ((str_eq_iff input.novel_id j).0 t)
          (rw (version-pos input.novel_id raw)
            (omega (arith, new_entry-size input now (version_at input.novel_id raw))))

prune-grows :
    (id j : String) (raw : Document)
    → is_blank j ≡ false
    → version_at j raw ≤ version_at j (write (prunes id) raw)
unfolding write prune
prune-grows id j raw named = go (lookup id (normalize_document raw).novels) refl
  where
    go :
        (o : Option Entry)
        → lookup id (normalize_document raw).novels ≡ o
        → version_at j raw ≤ version_at j (prune_found id o raw).0
    go none e = version-written id j (tombstone (pos 1)) raw named (λ t.
        subst (λ k. version_at k raw ≤ size_of (normalize_entry (tombstone (pos 1))).state_version)
          ((str_eq_iff id j).0 t) (unfold version_at current_entry in rw e (omega arith)))
    go (some x) e = version-written id j (tombstone (next_version x.state_version)) raw named (λ t.
        subst
          (λ k.
            version_at k raw
            ≤ size_of (normalize_entry (tombstone (next_version x.state_version))).state_version)
          ((str_eq_iff id j).0 t)
          (subst
            (λ n.
              version_at id raw
              ≤ size_of (normalize_entry (tombstone (next_version n))).state_version)
            (sym (version-pos id raw)
              ∙ (unfold current_entry in ap (λ o. (or_zero o).state_version) e))
            (omega (arith, entry-tombstone (suc (version_at id raw))))))

-- Versions never fall, whatever is written.
write-grows :
    (w : Write) (j : String) (raw : Document)
    → is_blank j ≡ false
    → version_at j raw ≤ version_at j (write w raw)
write-grows (puts input now) j raw named = put-grows input now j raw named
write-grows (prunes id) j raw named = prune-grows id j raw named

write_all-grows :
    (ws : List Write) (j : String) (raw : Document)
    → is_blank j ≡ false
    → version_at j raw ≤ version_at j (write_all ws raw)
unfolding write_all
write_all-grows [] j raw named = omega arith
write_all-grows (w ∷ ws) j raw named =
    omega (arith, write-grows w j raw named, write_all-grows ws j (write w raw) named)

expects-older : (n k : ℕ) → n < k → is_conflict (some (pos n)) (pos k) ≡ true
expects-older n k h = ground (arith, int_eq_iff (pos k) (pos n))

-- No update is lost. A client that has read a novel under a version and expects that version is
-- refused once any write has changed the version, however many writes of any novels came after; it
-- gets the state that is current then. This holds for names that are not blank.
pub stale_put-conflict :
    (input : PutInput) (now : String) (w : Write) (ws : List Write) (raw : Document)
    → is_blank input.novel_id ≡ false
    → input.expected_state_version ≡ some (pos (version_at input.novel_id raw))
    → version_at input.novel_id raw < version_at input.novel_id (write w raw)
    → put_state_of input now (write_all ws (write w raw))
      ≡ err (get_state input.novel_id (write_all ws (write w raw)))
stale_put-conflict input now w ws raw named expected changed =
    (put-get input now (write_all ws (write w raw)) named).0 (
      ap (λ o. is_conflict o (pos (version_at input.novel_id (write_all ws (write w raw)))))
        expected
      ∙ expects-older (version_at input.novel_id raw)
          (version_at input.novel_id (write_all ws (write w raw)))
          (omega (arith, changed, write_all-grows ws input.novel_id (write w raw) named)))
