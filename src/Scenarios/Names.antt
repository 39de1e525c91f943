-- ===== src/Scenarios/Names.antt =====
-- The names of directories and files on small texts.
use narou_viewer.Prelude.{false, refl, str_eq, text_length, ◌≡◌, ◌≤◌}
use narou_viewer.Storage.Lengths.{segment-bound}
use narou_viewer.Storage.Sanitize.{collapse_spaces, has_double, segment, truncate_runes}
use narou_viewer.Storage.Segments.{IsSegment, segment-IsSegment}
use narou_viewer.Storage.Spaces.{collapse_spaces-single}

segment-IsSegment_example : IsSegment (segment "a/b: c")
segment-IsSegment_example = segment-IsSegment "a/b: c"

segment-bound_example : text_length (segment "a/b: c") ≤ 80
segment-bound_example = segment-bound "a/b: c"

collapse_spaces-single_example : has_double (collapse_spaces "a     b") ≡ false
collapse_spaces-single_example = collapse_spaces-single "a     b"

-- A run of Segment, and of TruncateRunes.
segment_run : segment " a/b:  c." ≡ "a_b__c"
unfolding segment str_eq
segment_run = refl

truncate_runes_run : truncate_runes "ab cd" 3 ≡ "ab"
unfolding truncate_runes
truncate_runes_run = refl
