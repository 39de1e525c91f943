-- ===== src/Bookmarks/Refines.antt =====
-- state/bookmarks/repository.go: the file of bookmarks against the list of bookmarks.
use narou_viewer.Bookmarks.Ledger.{
  BookmarkAnswer, BookmarkOp, answered_by, answers_of, bookmark_created, creates, deleted_bookmark,
  deletes, entered, filter, ledger_answers, ledger_op, lists, perform_bookmark_op, pruned, prunes,
  written_if,
}
use narou_viewer.Bookmarks.Normal.{
  IsNormal, created-IsNormal, normalize_records-Normal, normalize_records-kept,
}
use narou_viewer.Bookmarks.Repository.{
  Bookmark, BookmarkDocument, BookmarkError, BookmarkRecord, BookmarksFile, WriteOutcome,
  bookmarks_contract, bookmarks_file, bookmarks_version, create_bookmark, created_record,
  delete_bookmark, delete_found, delete_loop, empty_bookmarks, failing_file, fails_after,
  fails_before, is_valid_input, list_bookmarks, list_loop, no_file, normalize_bookmarks,
  prune_counted, prune_loop, prune_novel, read_body, read_bookmarks, replaces, revised, to_bookmark,
  write_bookmarks,
}
use narou_viewer.Prelude.{
  All, Bool, Bool-cases, List, Option, Result, Result-cases, String, [], any, ap, arith, count, err,
  false, inl, inr, map, none, not, ok, refl, some, str_eq, suc, true, zero, ℕ, ◌==◌, ◌>>=◌, ◌||◌,
  ◌∷◌, ◌≡◌,
}
use narou_viewer.Schemaguard.{Checked, GuardError, check_header, classify, header}
use narou_viewer.Taskqueue.Queue.{kept}

list_loop-filter :
    (novel : String) (rs : List BookmarkRecord)
    → list_loop novel rs
      ≡ filter (λ b. str_eq novel "" || str_eq b.novel_id novel) (map to_bookmark rs)
unfolding list_loop filter to_bookmark
list_loop-filter novel [] = refl
list_loop-filter novel (r ∷ rest) = rw (list_loop-filter novel rest) refl

-- The records that a loop keeps.
abbrev Keeps : (Bookmark → Bool) → List BookmarkRecord → List BookmarkRecord → Type 0
Keeps keep rs next = All IsNormal next × (map to_bookmark next ≡ filter keep (map to_bookmark rs))

delete_loop-Keeps :
    (id : String) (rs : List BookmarkRecord)
    → All IsNormal rs
    → Keeps (λ b. not (str_eq b.id id)) rs (delete_loop id rs).0
      × ((delete_loop id rs).1 ≡ any (λ b. str_eq b.id id) (map to_bookmark rs))
unfolding delete_loop filter any to_bookmark
delete_loop-Keeps id [] h = ((tt, refl), refl)
delete_loop-Keeps id (r ∷ rest) h =
    let ((normal, kept), found) = delete_loop-Keeps id rest h.1 in
    elim (Bool-cases (str_eq r.id id)) [
      | inl t ↦ rw t ((normal, kept), refl)
      | inr f ↦ rw f (((h.0, normal), ap (λ l. to_bookmark r ∷ l) kept), found)
    ]

prune_loop-Keeps :
    (novel : String) (rs : List BookmarkRecord)
    → All IsNormal rs
    → Keeps (λ b. not (str_eq b.novel_id novel)) rs (prune_loop novel rs).0
      × ((prune_loop novel rs).1 ≡ count (λ b. str_eq b.novel_id novel) (map to_bookmark rs))
unfolding prune_loop filter count to_bookmark
prune_loop-Keeps novel [] h = ((tt, refl), refl)
prune_loop-Keeps novel (r ∷ rest) h =
    let ((normal, kept), found) = prune_loop-Keeps novel rest h.1 in
    elim (Bool-cases (str_eq r.novel_id novel)) [
      | inl t ↦ rw t ((normal, kept), omega (arith, found))
      | inr f ↦ rw f (((h.0, normal), ap (λ l. to_bookmark r ∷ l) kept), omega (arith, found))
    ]

-- What the file holds for its readers.
unfoldable pub ledger_of : BookmarksFile → Result BookmarkError (List Bookmark)
unfolding read_bookmarks to_bookmark
ledger_of f = do d ← read_bookmarks f; ok (map to_bookmark d.bookmarks)

abbrev IsCurrent : BookmarkDocument → Type 0
IsCurrent d = (d.schema_version ≡ bookmarks_version) × All IsNormal d.bookmarks

-- The file reads as a document whose bookmarks are these.
abbrev Shows : BookmarksFile → List Bookmark → Type 0
Shows f l =
    (d : BookmarkDocument) × (read_bookmarks f ≡ ok d)
    × IsCurrent d
    × (map to_bookmark d.bookmarks ≡ l)

read_bookmarks-IsCurrent :
    (f : BookmarksFile) (d : BookmarkDocument) → read_bookmarks f ≡ ok d → IsCurrent d
unfolding read_bookmarks normalize_bookmarks
read_bookmarks-IsCurrent no_file d h = let e : d ≡ empty_bookmarks = cc in rw e (refl, tt)
read_bookmarks-IsCurrent failing_file d h = absurd (cc)
read_bookmarks-IsCurrent (bookmarks_file head body) d h =
    go (check_header head bookmarks_contract) body h
  where
    go :
        (r : Result GuardError Checked) (o : Option BookmarkDocument)
        → read_body r o ≡ ok d
        → IsCurrent d
    go (err e) o k = absurd (cc)
    go (ok c) none k = absurd (cc)
    go (ok c) (some raw) k =
        let e : d ≡ normalize_bookmarks raw = cc in
        rw e (refl, normalize_records-Normal raw.bookmarks)

ledger_of-Shows : (f : BookmarksFile) (l : List Bookmark) → ledger_of f ≡ ok l → Shows f l
unfolding ledger_of
ledger_of-Shows f l h = elim (Result-cases (read_bookmarks f)) [
  | inl (d, e) ↦ (d, e, read_bookmarks-IsCurrent f d e, ground arith)
  | inr (why, e) ↦ absurd (ground arith)
]

read_bookmarks-written :
    (d : BookmarkDocument)
    → IsCurrent d
    → (e : BookmarkDocument) × (read_bookmarks
          (bookmarks_file (header (some d.schema_version)) (some d))
        ≡ ok e)
      × IsCurrent e
      × (map to_bookmark e.bookmarks ≡ map to_bookmark d.bookmarks)
unfolding read_bookmarks normalize_bookmarks check_header classify
read_bookmarks-written d (v, normal) = rw v (
  normalize_bookmarks d,
  refl,
  (refl, normalize_records-Normal d.bookmarks),
  ap (λ rs. map to_bookmark rs) (normalize_records-kept d.bookmarks normal),
)

-- An operation and the ledger: the answers agree, and the file shows what the ledger holds.
abbrev Agrees : BookmarksFile × BookmarkAnswer → List Bookmark × BookmarkAnswer → Type 0
Agrees x y = (x.1 ≡ y.1) × Shows x.0 y.0

write-Agrees :
    {A : Type 0} (answer : A → BookmarkAnswer) (a : A) (writes : WriteOutcome)
    (d : BookmarkDocument) (rs : List BookmarkRecord) (f : BookmarksFile) (l m : List Bookmark)
    → IsCurrent d
    → All IsNormal rs
    → map to_bookmark rs ≡ m
    → Shows f l
    → Agrees
        (answered_by answer (write_bookmarks writes (revised d rs) a f))
        (written_if writes m (answer a) l)
unfolding write_bookmarks
write-Agrees answer a replaces d rs f l m good normal shown h =
    rw (← shown) (refl, read_bookmarks-written (revised d rs) (good.0, normal))
write-Agrees answer a fails_before d rs f l m good normal shown h = (refl, h)
write-Agrees answer a fails_after d rs f l m good normal shown h =
    rw (← shown) (refl, read_bookmarks-written (revised d rs) (good.0, normal))

-- The id and the time of a new bookmark are not empty.
abbrev pub IsFresh : BookmarkOp → Type 0
IsFresh (creates input id now writes) = (str_eq id "" ≡ false) × (str_eq now "" ≡ false)
IsFresh _ = Unit

delete-Agrees :
    (id : String) (writes : WriteOutcome) (f : BookmarksFile) (d : BookmarkDocument)
    (p : List BookmarkRecord × Bool)
    → IsCurrent d
    → Shows f (map to_bookmark d.bookmarks)
    → Keeps (λ b. not (str_eq b.id id)) d.bookmarks p.0
    → p.1 ≡ any (λ b. str_eq b.id id) (map to_bookmark d.bookmarks)
    → Agrees
        (answered_by (λ u. deleted_bookmark) (delete_found writes f d p))
        (ledger_op (deletes id writes) (map to_bookmark d.bookmarks))
unfolding ledger_op
delete-Agrees id writes f d (next, true) good h keeps found =
    rw (← found)
      (write-Agrees (λ u. deleted_bookmark) tt writes d next f _ _ good keeps.0 keeps.1 h)
delete-Agrees id writes f d (next, false) good h keeps found = rw (← found) (refl, h)

prune-Agrees :
    (novel : String) (writes : WriteOutcome) (f : BookmarksFile) (d : BookmarkDocument)
    (p : List BookmarkRecord × ℕ)
    → IsCurrent d
    → Shows f (map to_bookmark d.bookmarks)
    → Keeps (λ b. not (str_eq b.novel_id novel)) d.bookmarks p.0
    → p.1 ≡ count (λ b. str_eq b.novel_id novel) (map to_bookmark d.bookmarks)
    → Agrees
        (answered_by pruned (prune_counted writes f d p))
        (ledger_op (prunes novel writes) (map to_bookmark d.bookmarks))
unfolding ledger_op
prune-Agrees novel writes f d (next, suc n) good h keeps found =
    let some_left : (suc n == 0) ≡ false = ground arith in
    rw (← found, some_left) (write-Agrees pruned (suc n) writes d next f _ _ good keeps.0 keeps.1 h)
prune-Agrees novel writes f d (next, zero) good h keeps found = rw (← found) (refl, h)

perform-Agrees :
    (op : BookmarkOp) (f : BookmarksFile) (l : List Bookmark)
    → IsFresh op
    → Shows f l
    → Agrees (perform_bookmark_op op f) (ledger_op op l)
unfolding perform_bookmark_op ledger_op list_bookmarks create_bookmark delete_bookmark prune_novel
perform-Agrees (lists novel) f l fresh (d, e, good, shown) =
    (rw (e, ← shown, list_loop-filter novel d.bookmarks) refl, (d, e, good, shown))
perform-Agrees (creates input id now writes) f l fresh (d, e, good, shown) =
    elim (Bool-cases (is_valid_input input)) [
      | inl t ↦
          rw (t, e)
            (write-Agrees bookmark_created (to_bookmark (created_record input id now)) writes d
              (created_record input id now ∷ d.bookmarks) f l _ good
              (created-IsNormal input id now t fresh.0 fresh.1, good.1)
              (unfold to_bookmark created_record in ap (λ x. entered input id now ∷ x) shown)
              (d, e, good, shown))
      | inr n ↦ rw n (refl, (d, e, good, shown))
    ]
perform-Agrees (deletes id writes) f l fresh (d, e, good, shown) =
    let (keeps, found) = delete_loop-Keeps id d.bookmarks good.1 in
    rw (e, ← shown)
      (delete-Agrees id writes f d (delete_loop id d.bookmarks) good (d, e, good, refl) keeps found)
perform-Agrees (prunes novel writes) f l fresh (d, e, good, shown) =
    let (keeps, found) = prune_loop-Keeps novel d.bookmarks good.1 in
    rw (e, ← shown)
      (prune-Agrees novel writes f d (prune_loop novel d.bookmarks) good (d, e, good, refl) keeps
        found)

-- A file of bookmarks behaves as a list of bookmarks: whatever sequence of listings, creations,
-- deletions and prunes of a novel is run on a file that can be read, with writes that succeed, fail
-- before they replace the file, or fail afterwards, every answer is that of the list, on which a creation puts a bookmark first, a deletion and
-- a prune keep the others in their order, a listing gives those of its novel (all for an empty name)
-- by their time, the newest first, and a failed write does nothing, or has
-- its effect although it is refused. The ids and times of new
-- bookmarks are not empty.
pub answers_of-ledger_answers :
    (ops : List BookmarkOp) (f : BookmarksFile) (l : List Bookmark)
    → All IsFresh ops
    → ledger_of f ≡ ok l
    → answers_of ops f ≡ ledger_answers ops l
unfolding answers_of ledger_answers
answers_of-ledger_answers ops f l fresh h = go ops f l fresh (ledger_of-Shows f l h)
  where
    go :
        (ops : List BookmarkOp) (f : BookmarksFile) (l : List Bookmark)
        → All IsFresh ops
        → Shows f l
        → answers_of ops f ≡ ledger_answers ops l
    go [] f l fresh h = refl
    go (op ∷ ops) f l fresh h =
        let (agree, shows) = perform-Agrees op f l fresh.0 h in
        rw (agree, go ops (perform_bookmark_op op f).0 (ledger_op op l).0 fresh.1 shows) refl
