-- ===== src/Bookmarks/Repository.antt =====
-- state/bookmarks/repository.go. The YAML file holds a document; each operation reads it, normalizes
-- it, and writes a new one as a whole, by a write that may fail. An encoded document decodes to itself.
-- IsEpisodeIndex, normalizePosition and normalizeLabelPtr are as their counterparts for reading
-- states, whose definitions stand for them.
use narou_viewer.Extraction.Saving.{next_int}
use narou_viewer.Prelude.{
  Bool, List, Option, Result, String, [], err, false, if◌then◌else◌, none, not, ok, pos, some,
  sort_stable, str_eq, suc, text_lt, true, zero, ℕ, ℤ, ◌&&◌, ◌>>=◌, ◌||◌, ◌∷◌,
}
use narou_viewer.ReadingState.Repository.{
  is_blank, is_episode_index, normalize_client_id, normalize_position,
}
use narou_viewer.Schemaguard.{
  Checked, Contract, GuardError, Header, check_header, header, malformed_result, missing_reject,
}

-- What a client gives and sees.
pub record Bookmark : Type 0 where
  pub id : String
  pub novel_id : String
  pub episode_index : String
  pub position : ℤ
  pub label : Option String
  pub created_at : String

-- The struct record.
pub record BookmarkRecord : Type 0 where
  pub id : String
  pub novel_id : String
  pub episode_index : String
  pub position : ℤ
  pub line_number : ℤ
  pub label : Option String
  pub created_at : String

pub record BookmarkDocument : Type 0 where
  pub schema_version : ℤ
  pub revision : ℤ
  pub bookmarks : List BookmarkRecord

pub data BookmarkError : Type 0 where
  bookmark_not_found invalid_bookmark : BookmarkError
  -- The file cannot be read, is of a version that is not read, or cannot be replaced.
  unread_bookmarks : BookmarkError
  guarded_bookmarks : GuardError → BookmarkError
  unwritten_bookmarks : BookmarkError

-- The file: it is missing, cannot be read, or has a header and a body that may not decode.
pub data BookmarksFile : Type 0 where
  no_file failing_file : BookmarksFile
  bookmarks_file : Header → Option BookmarkDocument → BookmarksFile

abbrev pub bookmarks_version : ℤ
bookmarks_version = pos 3

abbrev pub bookmarks_contract : Contract
bookmarks_contract = record {
  id = "VA-BOOKMARKS";
  path = "bookmarks.yaml";
  current_version = bookmarks_version;
  readable_legacy = [];
  missing_policy = missing_reject;
  missing_legacy_version = pos 0;
}

abbrev pub empty_bookmarks : BookmarkDocument
empty_bookmarks = record { schema_version = bookmarks_version; revision = pos 0; bookmarks = [] }

unfoldable pub is_complete_record : BookmarkRecord → Bool
is_complete_record r =
    not (str_eq r.id "")
    && (not (str_eq r.novel_id "")
        && (is_episode_index r.episode_index && not (str_eq r.created_at "")))

unfoldable pub normalize_record : BookmarkRecord → BookmarkRecord
normalize_record r = record {
  id = r.id;
  novel_id = r.novel_id;
  episode_index = r.episode_index;
  position = normalize_position r.position;
  line_number = pos 0;
  label = normalize_client_id r.label;
  created_at = r.created_at;
}

unfoldable pub normalize_records : List BookmarkRecord → List BookmarkRecord
normalize_records [] = []
normalize_records (r ∷ rest) =
    if is_complete_record r
    then normalize_record r ∷ normalize_records rest
    else normalize_records rest

-- normalizeDocument
unfoldable pub normalize_bookmarks : BookmarkDocument → BookmarkDocument
unfolding normalize_records
normalize_bookmarks raw = record empty_bookmarks {
  revision = normalize_position raw.revision;
  bookmarks = normalize_records raw.bookmarks;
}

abbrev pub read_body :
    Result GuardError Checked → Option BookmarkDocument → Result BookmarkError BookmarkDocument
read_body (err e) body = err (guarded_bookmarks e)
read_body (ok c) none = err (guarded_bookmarks (malformed_result bookmarks_contract))
read_body (ok c) (some raw) = ok (normalize_bookmarks raw)

-- readDocument
unfoldable pub read_bookmarks : BookmarksFile → Result BookmarkError BookmarkDocument
unfolding normalize_bookmarks
read_bookmarks no_file = ok empty_bookmarks
read_bookmarks failing_file = err unread_bookmarks
read_bookmarks (bookmarks_file h body) = read_body (check_header h bookmarks_contract) body

unfoldable pub to_bookmark : BookmarkRecord → Bookmark
to_bookmark r = record {
  id = r.id;
  novel_id = r.novel_id;
  episode_index = r.episode_index;
  position = r.position;
  label = r.label;
  created_at = r.created_at;
}

-- An operation leaves a file also where it fails.
abbrev pub Filed : Type 0 → Type 0
Filed A = BookmarksFile × Result BookmarkError A

-- What an operation makes of the document that it reads.
abbrev pub with_document :
    {A : Type 0}
    → BookmarksFile
    → Result BookmarkError BookmarkDocument
    → (BookmarkDocument → Filed A)
    → Filed A
with_document f (err e) next = (f, err e)
with_document f (ok d) next = next d

-- What becomes of fsatomic.WriteFile: it replaces the file; it fails before the rename, or the rename
-- fails; or it fails afterwards, at the parent directory, with the file replaced.
pub data WriteOutcome : Type 0 where
  replaces fails_before fails_after : WriteOutcome

abbrev pub written_file : BookmarkDocument → BookmarksFile
written_file d = bookmarks_file (header (some d.schema_version)) (some d)

-- WriteAtomic
unfoldable pub write_bookmarks :
    {A : Type 0} → WriteOutcome → BookmarkDocument → A → BookmarksFile → Filed A
write_bookmarks replaces d a f = (written_file d, ok a)
write_bookmarks fails_before d a f = (f, err unwritten_bookmarks)
write_bookmarks fails_after d a f = (written_file d, err unwritten_bookmarks)

-- The document under its next revision.
abbrev pub revised : BookmarkDocument → List BookmarkRecord → BookmarkDocument
revised d records = record d { revision = next_int d.revision; bookmarks = records }

-- The loop of List.
unfoldable pub list_loop : String → List BookmarkRecord → List Bookmark
unfolding to_bookmark
list_loop novel [] = []
list_loop novel (r ∷ rest) =
    if str_eq novel "" || str_eq r.novel_id novel
    then to_bookmark r ∷ list_loop novel rest
    else list_loop novel rest

abbrev pub is_newer_bookmark : Bookmark → Bookmark → Bool
is_newer_bookmark a b = text_lt b.created_at a.created_at

-- List
unfoldable pub list_bookmarks : String → BookmarksFile → Result BookmarkError (List Bookmark)
unfolding read_bookmarks list_loop sort_stable
list_bookmarks novel f = do
  d ← read_bookmarks f
  ok (sort_stable is_newer_bookmark (list_loop novel d.bookmarks))

abbrev pub is_valid_input : Bookmark → Bool
is_valid_input input = not (is_blank input.novel_id) && is_episode_index input.episode_index

unfoldable pub created_record : Bookmark → String → String → BookmarkRecord
created_record input id now = record {
  id = id;
  novel_id = input.novel_id;
  episode_index = input.episode_index;
  position = normalize_position input.position;
  line_number = pos 0;
  label = normalize_client_id input.label;
  created_at = now;
}

-- Create, with the results of newID and isoNow; `writes` is the outcome of the write.
unfoldable pub create_bookmark :
    Bookmark → String → String → WriteOutcome → BookmarksFile → Filed Bookmark
unfolding read_bookmarks created_record write_bookmarks to_bookmark
create_bookmark input id now writes f =
    let r = created_record input id now in
    if not (is_valid_input input)
    then (f, err invalid_bookmark)
    else with_document f (read_bookmarks f)
        λ d. write_bookmarks writes (revised d (r ∷ d.bookmarks)) (to_bookmark r) f

-- The loop of Delete: the records that are kept, and whether one is deleted.
unfoldable pub delete_loop : String → List BookmarkRecord → List BookmarkRecord × Bool
delete_loop id [] = ([], false)
delete_loop id (r ∷ rest) =
    let (next, found) = delete_loop id rest in
    if str_eq r.id id then (next, true) else (r ∷ next, found)

abbrev pub delete_found :
    WriteOutcome → BookmarksFile → BookmarkDocument → List BookmarkRecord × Bool → Filed (Unit {0})
delete_found writes f d (next, true) = write_bookmarks writes (revised d next) tt f
delete_found writes f d (next, false) = (f, err bookmark_not_found)

-- Delete
unfoldable pub delete_bookmark : String → WriteOutcome → BookmarksFile → Filed (Unit {0})
unfolding read_bookmarks delete_loop write_bookmarks
delete_bookmark id writes f =
    with_document f (read_bookmarks f) λ d. delete_found writes f d (delete_loop id d.bookmarks)

-- The loop of PruneNovel: the records that are kept, and the number of the others.
unfoldable pub prune_loop : String → List BookmarkRecord → List BookmarkRecord × ℕ
prune_loop novel [] = ([], 0)
prune_loop novel (r ∷ rest) =
    let (next, n) = prune_loop novel rest in
    if str_eq r.novel_id novel then (next, suc n) else (r ∷ next, n)

abbrev pub prune_counted :
    WriteOutcome → BookmarksFile → BookmarkDocument → List BookmarkRecord × ℕ → Filed ℕ
prune_counted writes f d (next, zero) = (f, ok 0)
prune_counted writes f d (next, suc n) = write_bookmarks writes (revised d next) (suc n) f

-- PruneNovel
unfoldable pub prune_novel : String → WriteOutcome → BookmarksFile → Filed ℕ
unfolding read_bookmarks prune_loop write_bookmarks
prune_novel novel writes f =
    with_document f (read_bookmarks f) λ d. prune_counted writes f d (prune_loop novel d.bookmarks)
