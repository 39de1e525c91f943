-- ===== src/Scenarios/ReadingState.antt =====
-- Two clients that put the state of one novel.
use narou_viewer.Prelude.{
  String, [], arith, cons_trimmed, err, false, is_space, none, ok, pos, refl, some, str_eq, suc,
  trim_left, trim_right, trim_space, true, ◌<◌, ◌∷◌, ◌≡◌,
}
use narou_viewer.ReadingState.Repository.{
  Document, PutInput, ReadingState, current_entry, get_state, is_blank, is_conflict, lookup,
  normalize_document, normalize_entry, normalize_novels, prune, prune_found, put_state_of,
  store_entry, written,
}
use narou_viewer.ReadingState.Updates.{prunes, stale_put-conflict, write, write_all}
use narou_viewer.ReadingState.Versions.{put-get, version_at}

abbrev first_put : PutInput
first_put = record {
  novel_id = "n";
  last_read_episode_index = some "3";
  position = pos 12;
  scroll = none;
  expected_state_version = some (pos 0);
  updated_by_client_id = some " phone ";
}

abbrev empty_document : Document
empty_document = record { revision = pos 0; novels = [] }

put_named : is_blank first_put.novel_id ≡ false
unfolding trim_space trim_left trim_right cons_trimmed is_space str_eq
put_named = refl

starts_at_zero :
    first_put.expected_state_version ≡ some (pos (version_at first_put.novel_id empty_document))
unfolding version_at current_entry lookup normalize_document normalize_novels
starts_at_zero = refl

prune_counts :
    version_at first_put.novel_id empty_document
    < version_at first_put.novel_id (write (prunes "n") empty_document)
unfolding version_at current_entry lookup normalize_document normalize_novels write prune
    prune_found written store_entry normalize_entry trim_space trim_left trim_right cons_trimmed
    is_space str_eq
prune_counts = omega arith

stale_put-conflict_example :
    put_state_of first_put "t" (write_all (prunes "m" ∷ []) (write (prunes "n") empty_document))
    ≡ err (get_state "n" (write_all (prunes "m" ∷ []) (write (prunes "n") empty_document)))
stale_put-conflict_example =
    stale_put-conflict first_put "t" (prunes "n") (prunes "m" ∷ []) empty_document put_named
      starts_at_zero prune_counts

put-get_example :
    (is_conflict (some (pos 0)) (pos (version_at "n" empty_document)) ≡ true
      → put_state_of first_put "t" empty_document ≡ err (get_state "n" empty_document))
    × (is_conflict (some (pos 0)) (pos (version_at "n" empty_document)) ≡ false
        → (raw' : Document) × (s : ReadingState) × (put_state_of first_put "t" empty_document
            ≡ ok (raw', s))
          × (get_state "n" raw' ≡ s)
          × (version_at "n" raw' ≡ suc (version_at "n" empty_document))
          × ((j : String)
              → is_blank j ≡ false
              → str_eq "n" j ≡ false
              → get_state j raw' ≡ get_state j empty_document))
put-get_example = put-get first_put "t" empty_document put_named
