-- ===== src/Bookmarks/Ledger.antt =====
-- state/bookmarks/repository.go: the file of bookmarks as a list of bookmarks, the newest first.
use narou_viewer.Bookmarks.Repository.{
  Bookmark, BookmarkError, BookmarksFile, Filed, WriteOutcome, bookmark_not_found, create_bookmark,
  delete_bookmark, fails_after, fails_before, invalid_bookmark, is_newer_bookmark, is_valid_input,
  list_bookmarks, prune_novel, replaces, unwritten_bookmarks,
}
use narou_viewer.Prelude.{
  Bool, List, Result, String, [], any, count, err, if◌then◌else◌, not, ok, sort_stable, str_eq, ℕ,
  ◌==◌, ◌||◌, ◌∷◌,
}
use narou_viewer.ReadingState.Repository.{normalize_client_id, normalize_position}

-- An operation, with the id and the time of a new bookmark, and the outcome of its write.
pub data BookmarkOp : Type 0 where
  lists : String → BookmarkOp
  creates : Bookmark → String → String → WriteOutcome → BookmarkOp
  deletes : String → WriteOutcome → BookmarkOp
  prunes : String → WriteOutcome → BookmarkOp

pub data BookmarkAnswer : Type 0 where
  listing : List Bookmark → BookmarkAnswer
  bookmark_created : Bookmark → BookmarkAnswer
  deleted_bookmark : BookmarkAnswer
  pruned : ℕ → BookmarkAnswer
  refused : BookmarkError → BookmarkAnswer

abbrev pub answer_of : {A : Type 0} → (A → BookmarkAnswer) → Result BookmarkError A → BookmarkAnswer
answer_of f (ok a) = f a
answer_of f (err e) = refused e

abbrev pub answered_by :
    {A : Type 0} → (A → BookmarkAnswer) → Filed A → BookmarksFile × BookmarkAnswer
answered_by f (file, r) = (file, answer_of f r)

-- The repository: the file that an operation leaves, and its answer.
unfoldable pub perform_bookmark_op : BookmarkOp → BookmarksFile → BookmarksFile × BookmarkAnswer
unfolding list_bookmarks create_bookmark delete_bookmark prune_novel
perform_bookmark_op (lists novel) f = (f, answer_of listing (list_bookmarks novel f))
perform_bookmark_op (creates input id now writes) f =
    answered_by bookmark_created (create_bookmark input id now writes f)
perform_bookmark_op (deletes id writes) f =
    answered_by (λ u. deleted_bookmark) (delete_bookmark id writes f)
perform_bookmark_op (prunes novel writes) f = answered_by pruned (prune_novel novel writes f)

unfoldable pub filter {ℓ} : {A : Type ℓ} → (A → Bool) → List A → List A
filter keep [] = []
filter keep (x ∷ xs) = if keep x then x ∷ filter keep xs else filter keep xs

abbrev pub Ledger : Type 0
Ledger = List Bookmark

-- The ledger: a write that fails changes nothing, or takes effect and is refused all the same.
abbrev pub written_if : WriteOutcome → Ledger → BookmarkAnswer → Ledger → Ledger × BookmarkAnswer
written_if replaces next a old = (next, a)
written_if fails_before next a old = (old, refused unwritten_bookmarks)
written_if fails_after next a old = (next, refused unwritten_bookmarks)

abbrev pub entered : Bookmark → String → String → Bookmark
entered input id now = record input {
  id = id;
  position = normalize_position input.position;
  label = normalize_client_id input.label;
  created_at = now;
}

unfoldable pub ledger_op : BookmarkOp → Ledger → Ledger × BookmarkAnswer
unfolding filter count any sort_stable
ledger_op (lists novel) l = (
  l,
  listing
      (sort_stable is_newer_bookmark (filter (λ b. str_eq novel "" || str_eq b.novel_id novel) l)),
)
ledger_op (creates input id now writes) l =
    if is_valid_input input
    then written_if writes (entered input id now ∷ l) (bookmark_created (entered input id now)) l
    else (l, refused invalid_bookmark)
ledger_op (deletes id writes) l =
    if any (λ b. str_eq b.id id) l
    then written_if writes (filter (λ b. not (str_eq b.id id)) l) deleted_bookmark l
    else (l, refused bookmark_not_found)
ledger_op (prunes novel writes) l =
    let n = count (λ b. str_eq b.novel_id novel) l in
    if n == 0
    then (l, pruned 0)
    else written_if writes (filter (λ b. not (str_eq b.novel_id novel)) l) (pruned n) l

-- The answers to a history of operations.
unfoldable pub answers_of : List BookmarkOp → BookmarksFile → List BookmarkAnswer
unfolding perform_bookmark_op
answers_of [] f = []
answers_of (op ∷ ops) f = let (g, a) = perform_bookmark_op op f in a ∷ answers_of ops g

unfoldable pub ledger_answers : List BookmarkOp → Ledger → List BookmarkAnswer
unfolding ledger_op
ledger_answers [] l = []
ledger_answers (op ∷ ops) l = let (m, a) = ledger_op op l in a ∷ ledger_answers ops m
