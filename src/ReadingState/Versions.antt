-- ===== src/ReadingState/Versions.antt =====
-- Reads after writes, and the version numbers over sequences of writes.
use narou_viewer.Prelude.{
  Bool, Bool-cases, Option, String, ap, err, false, if◌then◌else◌, inl, inr, negsuc, none, ok, pos,
  refl, some, str_eq, str_eq_refl, subst, suc, sym, true, zero, ℕ, ℤ, ◌∙◌, ◌≡◌,
}
use narou_viewer.ReadingState.Documents.{
  lookup-normalize, lookup-store, new_entry-normal, normal_entry, normalize_entry-twice,
}
use narou_viewer.ReadingState.Repository.{
  Document, Entry, Novels, PutInput, ReadingState, at_least_one, current_entry, get_state, is_blank,
  is_conflict, lookup, new_entry, next_version, normalize_document, normalize_entry,
  normalize_novels, normalize_position, or_zero, put_state_of, state_or_empty, store_entry,
  to_state, written,
}

pub get_state-entry :
    (id : String) (raw : Document) → get_state id raw ≡ to_state id (current_entry id raw)
unfolding get_state current_entry state_or_empty
get_state-entry id raw = go (lookup id (normalize_document raw).novels)
  where
    go : (o : Option Entry) → state_or_empty id o ≡ to_state id (or_zero o)
    go none = refl
    go (some e) = refl

lookup-twice :
    (j : String) (xs : Novels)
    → is_blank j ≡ false
    → normal_entry (lookup j (normalize_novels xs)) ≡ lookup j (normalize_novels xs)
lookup-twice j xs named = rw (lookup-normalize j xs, named) (go (lookup j xs))
  where
    go : (o : Option Entry) → normal_entry (normal_entry o) ≡ normal_entry o
    go none = refl
    go (some e) = ap some (normalize_entry-twice e)

-- The entry of a novel after a write.
pub current_entry-written :
    (id j : String) (e : Entry) (raw : Document)
    → is_blank j ≡ false
    → current_entry j (written id e raw)
      ≡ (if str_eq id j then normalize_entry e else current_entry j raw)
unfolding current_entry written normalize_document
current_entry-written id j e raw named =
    rw
      (
        lookup-normalize j (store_entry id e (normalize_novels raw.novels)),
        named,
        lookup-store id j e (normalize_novels raw.novels),
      )
      (go (str_eq id j))
  where
    go :
        (b : Bool)
        → or_zero (normal_entry (if b then some e else lookup j (normalize_novels raw.novels)))
          ≡ (if b then normalize_entry e else or_zero (lookup j (normalize_novels raw.novels)))
    go true = refl
    go false = ap or_zero (lookup-twice j raw.novels named)

entry_version : (e : Entry) → (n : ℕ) × ((normalize_entry e).state_version ≡ pos n)
unfolding normalize_entry
entry_version e = elim (Bool-cases e.deleted) [
  | inl t ↦ rw t (least (normalize_position e.state_version))
  | inr f ↦ rw f (positive e.state_version)
]
  where
    least : (n : ℤ) → (k : ℕ) × (at_least_one n ≡ pos k)
    least (pos zero) = (1, refl)
    least (pos (suc n)) = (suc n, refl)
    least (negsuc n) = (1, refl)

    positive : (n : ℤ) → (k : ℕ) × (normalize_position n ≡ pos k)
    positive (pos n) = (n, refl)
    positive (negsuc n) = (0, refl)

-- The version of the entry as read is not negative.
current_version :
    (id : String) (raw : Document) → (n : ℕ) × ((current_entry id raw).state_version ≡ pos n)
unfolding current_entry normalize_document
current_version id raw =
    rw (lookup-normalize id raw.novels) (go (is_blank id) (lookup id raw.novels))
  where
    go :
        (b : Bool) (o : Option Entry)
        → (n : ℕ) × ((or_zero (if b then none else normal_entry o)).state_version ≡ pos n)
    go true o = (0, refl)
    go false none = (0, refl)
    go false (some e) = entry_version e

abbrev pub size_of : ℤ → ℕ
size_of (pos n) = n
size_of (negsuc n) = 0

-- The version of a novel in the document as read.
unfoldable pub version_at : String → Document → ℕ
version_at id raw = size_of (current_entry id raw).state_version

pub version-pos :
    (id : String) (raw : Document) → (current_entry id raw).state_version ≡ pos (version_at id raw)
unfolding version_at
version-pos id raw = let (n, e) = current_version id raw in rw e refl

pub put-conflict :
    (input : PutInput) (now : String) (raw : Document)
    → is_conflict input.expected_state_version (current_entry input.novel_id raw).state_version
      ≡ true
    → put_state_of input now raw ≡ err (to_state input.novel_id (current_entry input.novel_id raw))
unfolding put_state_of
put-conflict input now raw c = rw c refl

pub put-accepted :
    (input : PutInput) (now : String) (raw : Document)
    → is_conflict input.expected_state_version (current_entry input.novel_id raw).state_version
      ≡ false
    → let stored = new_entry input now (current_entry input.novel_id raw).state_version in
      put_state_of input now raw
      ≡ ok (written input.novel_id stored raw, to_state input.novel_id stored)
unfolding put_state_of
put-accepted input now raw c = rw c refl

-- Put, as a client sees it: under a name that is not blank it is refused exactly if the client
-- expects another version than the current one, and then it answers the current state. Otherwise
-- the next Get of the novel answers what Put answered, under the next version, and the state of
-- every other novel is as it was.
pub put-get :
    (input : PutInput) (now : String) (raw : Document)
    → is_blank input.novel_id ≡ false
    → (is_conflict input.expected_state_version (pos (version_at input.novel_id raw)) ≡ true
        → put_state_of input now raw ≡ err (get_state input.novel_id raw))
      × (is_conflict input.expected_state_version (pos (version_at input.novel_id raw)) ≡ false
          → (raw' : Document) × (s : ReadingState) × (put_state_of input now raw ≡ ok (raw', s))
            × (get_state input.novel_id raw' ≡ s)
            × (version_at input.novel_id raw' ≡ suc (version_at input.novel_id raw))
            × ((j : String)
                → is_blank j ≡ false
                → str_eq input.novel_id j ≡ false
                → get_state j raw' ≡ get_state j raw))
put-get input now raw named = (refused, accepted)
  where
    id : String
    id = input.novel_id

    current : ℤ
    current = (current_entry id raw).state_version

    stored : Entry
    stored = new_entry input now current

    as_read :
        {b : Bool}
        → is_conflict input.expected_state_version (pos (version_at id raw)) ≡ b
        → is_conflict input.expected_state_version current ≡ b
    as_read c = ap (is_conflict input.expected_state_version) (version-pos id raw) ∙ c

    refused :
        is_conflict input.expected_state_version (pos (version_at id raw)) ≡ true
        → put_state_of input now raw ≡ err (get_state id raw)
    refused c = put-conflict input now raw (as_read c) ∙ ap err (sym (get_state-entry id raw))

    is_normal : normalize_entry stored ≡ stored
    is_normal =
        subst (λ v. normalize_entry (new_entry input now v) ≡ new_entry input now v)
          (sym (version-pos id raw)) (new_entry-normal input now (version_at id raw))

    after_write : current_entry id (written id stored raw) ≡ stored
    after_write = current_entry-written id id stored raw named ∙ rw (str_eq_refl id) is_normal

    next : size_of stored.state_version ≡ suc (version_at id raw)
    next = unfold new_entry in ap (λ v. size_of (next_version v)) (version-pos id raw)

    others :
        (j : String)
        → is_blank j ≡ false
        → str_eq id j ≡ false
        → get_state j (written id stored raw) ≡ get_state j raw
    others j j_named apart =
        get_state-entry j (written id stored raw)
        ∙ (ap (to_state j) (current_entry-written id j stored raw j_named ∙ rw apart refl)
            ∙ sym (get_state-entry j raw))

    accepted :
        is_conflict input.expected_state_version (pos (version_at id raw)) ≡ false
        → (raw' : Document) × (s : ReadingState) × (put_state_of input now raw ≡ ok (raw', s))
          × (get_state id raw' ≡ s)
          × (version_at id raw' ≡ suc (version_at id raw))
          × ((j : String)
              → is_blank j ≡ false
              → str_eq id j ≡ false
              → get_state j raw' ≡ get_state j raw)
    accepted c = (
      written id stored raw,
      to_state id stored,
      put-accepted input now raw (as_read c),
      get_state-entry id (written id stored raw) ∙ ap (to_state id) after_write,
      (unfold version_at in ap (λ e. size_of e.state_version) after_write ∙ next),
      others,
    )
