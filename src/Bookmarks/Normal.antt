-- ===== src/Bookmarks/Normal.antt =====
-- state/bookmarks/repository.go: the records that a read keeps as they are.
use narou_viewer.Bookmarks.Repository.{
  Bookmark, BookmarkRecord, created_record, is_complete_record, is_valid_input, normalize_record,
  normalize_records,
}
use narou_viewer.Prelude.{
  All, Bool-cases, List, String, [], arith, false, inl, inr, refl, str_eq, str_eq_iff, trim_space,
  true, ◌∷◌, ◌≡◌,
}
use narou_viewer.ReadingState.Documents.{client_id-twice, position-twice}
use narou_viewer.ReadingState.Repository.{is_blank}

abbrev pub IsNormal : BookmarkRecord → Type 0
IsNormal r = (is_complete_record r ≡ true) × (normalize_record r ≡ r)

normalized-IsNormal :
    (r : BookmarkRecord) → is_complete_record r ≡ true → IsNormal (normalize_record r)
unfolding normalize_record is_complete_record
normalized-IsNormal r h = (h, rw (client_id-twice r.label, position-twice r.position) refl)

pub normalize_records-Normal : (rs : List BookmarkRecord) → All IsNormal (normalize_records rs)
unfolding normalize_records
normalize_records-Normal [] = tt
normalize_records-Normal (r ∷ rest) = elim (Bool-cases (is_complete_record r)) [
  | inl t ↦ rw t (normalized-IsNormal r t, normalize_records-Normal rest)
  | inr f ↦ rw f (normalize_records-Normal rest)
]

pub normalize_records-kept :
    (rs : List BookmarkRecord) → All IsNormal rs → normalize_records rs ≡ rs
unfolding normalize_records
normalize_records-kept [] h = refl
normalize_records-kept (r ∷ rest) h = rw (h.0.0, h.0.1, normalize_records-kept rest h.1) refl

empty-is_blank : is_blank "" ≡ true
unfolding trim_space str_eq
empty-is_blank = refl

pub created-IsNormal :
    (input : Bookmark) (id now : String)
    → is_valid_input input ≡ true
    → str_eq id "" ≡ false
    → str_eq now "" ≡ false
    → IsNormal (created_record input id now)
unfolding normalize_record is_complete_record created_record
created-IsNormal input id now valid named timed = (
  elim (Bool-cases (str_eq input.novel_id "")) [
    | inl t ↦ absurd (
        let blank : is_blank input.novel_id ≡ true =
          rw ((str_eq_iff input.novel_id "").0 t) empty-is_blank in
        ground arith)
    | inr f ↦ ground arith
  ],
  rw (client_id-twice input.label, position-twice input.position) refl,
)
