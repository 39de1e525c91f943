-- ===== src/Scenarios/Bookmarks.antt =====
-- A file with one bookmark, and what a reader does with it.
use narou_viewer.Bookmarks.Ledger.{
  BookmarkOp, answers_of, creates, deletes, ledger_answers, lists, perform_bookmark_op, prunes,
  refused,
}
use narou_viewer.Bookmarks.Refines.{IsFresh, answers_of-ledger_answers, ledger_of}
use narou_viewer.Bookmarks.Refusals.{write_outcome_of, refused-unchanged, with_outcome}
use narou_viewer.Bookmarks.Repository.{
  Bookmark, BookmarkRecord, BookmarksFile, bookmarks_file, delete_bookmark, delete_loop,
  fails_after, is_complete_record, normalize_bookmarks, normalize_record, normalize_records,
  read_bookmarks, replaces, unwritten_bookmarks, write_bookmarks,
}
use narou_viewer.Prelude.{
  All, List, [], any, ok, pos, refl, some, str_eq, trim_space, ◌∷◌, ◌≡◌, ◌⊎◌,
}
use narou_viewer.ReadingState.Repository.{is_episode_index, normalize_client_id}
use narou_viewer.Schemaguard.{check_header, classify, header, reads_legacy}

abbrev first_bookmark : Bookmark
first_bookmark = record {
  id = "bm_1";
  novel_id = "n1";
  episode_index = "3";
  position = pos 40;
  label = some "起";
  created_at = "2024-01-01";
}

abbrev one_record : BookmarkRecord
one_record = record {
  id = "bm_1";
  novel_id = "n1";
  episode_index = "3";
  position = pos 40;
  line_number = pos 7;
  label = some "起";
  created_at = "2024-01-01";
}

-- The second record has no time.
abbrev one_bookmark : BookmarksFile
one_bookmark = bookmarks_file (header (some (pos 3))) (
    some (record {
      schema_version = pos 3;
      revision = pos 5;
      bookmarks = one_record ∷ (record one_record { created_at = "" }) ∷ [];
    }))

one_bookmark-ledger : ledger_of one_bookmark ≡ ok (first_bookmark ∷ [])
unfolding ledger_of check_header classify is_complete_record is_episode_index normalize_record
    normalize_client_id trim_space str_eq reads_legacy any
one_bookmark-ledger = refl

abbrev reader_ops : List BookmarkOp
reader_ops =
    creates first_bookmark "bm_2" "2024-01-02" replaces
    ∷ deletes "bm_1" fails_after
    ∷ prunes "n1" replaces
    ∷ lists ""
    ∷ []

reader_ops-IsFresh : All IsFresh reader_ops
unfolding str_eq
reader_ops-IsFresh = ((refl, refl), (tt, (tt, (tt, tt))))

answers_of-ledger_answers_example :
    answers_of reader_ops one_bookmark ≡ ledger_answers reader_ops (first_bookmark ∷ [])
answers_of-ledger_answers_example =
    answers_of-ledger_answers reader_ops one_bookmark (first_bookmark ∷ []) reader_ops-IsFresh
      one_bookmark-ledger

abbrev late_delete : BookmarkOp
late_delete = deletes "bm_1" fails_after

late_refusal :
    perform_bookmark_op late_delete one_bookmark
    ≡ ((perform_bookmark_op late_delete one_bookmark).0, refused unwritten_bookmarks)
unfolding perform_bookmark_op delete_bookmark delete_loop write_bookmarks read_bookmarks
    normalize_bookmarks normalize_records check_header classify is_complete_record is_episode_index
    normalize_record normalize_client_id trim_space str_eq reads_legacy any
late_refusal = refl

refused-unchanged_example :
    ((perform_bookmark_op late_delete one_bookmark).0 ≡ one_bookmark)
    ⊎ ((write_outcome_of late_delete ≡ fails_after)
        × ((perform_bookmark_op late_delete one_bookmark).0
            ≡ (perform_bookmark_op (with_outcome replaces late_delete) one_bookmark).0))
refused-unchanged_example =
    refused-unchanged late_delete one_bookmark (perform_bookmark_op late_delete one_bookmark).0
      unwritten_bookmarks late_refusal
