-- ===== src/Bookmarks/Refusals.antt =====
-- state/bookmarks/repository.go: the file after an operation that fails.
use narou_viewer.Bookmarks.Ledger.{
  BookmarkAnswer, BookmarkOp, answered_by, bookmark_created, creates, deleted_bookmark, deletes,
  lists, perform_bookmark_op, pruned, prunes, refused,
}
use narou_viewer.Bookmarks.Repository.{
  Bookmark, BookmarkDocument, BookmarkError, BookmarkRecord, BookmarksFile, Filed, WriteOutcome,
  create_bookmark, delete_bookmark, delete_found, delete_loop, fails_after, fails_before,
  is_valid_input, prune_counted, prune_loop, prune_novel, read_bookmarks, replaces, revised,
  with_document, write_bookmarks,
}
use narou_viewer.Prelude.{
  Bool, Bool-cases, List, Result, String, ap, err, false, inl, inr, ok, refl, suc, sym, true, zero,
  ℕ, ◌∙◌, ◌≡◌, ◌≢◌, ◌⊎◌,
}

-- An operation `p` that fails leaves the file, or its write failed after the file was replaced, and
-- it leaves what `q` does, the same operation with a write that succeeds.
abbrev Safe : {A : Type 0} → WriteOutcome → BookmarksFile → Filed A → Filed A → Type 0
Safe w f p q = (why : BookmarkError) → p.1 ≡ err why → (p.0 ≡ f) ⊎ ((w ≡ fails_after) × (p.0 ≡ q.0))

write-Safe :
    {A : Type 0} (w : WriteOutcome) (d : BookmarkDocument) (a : A) (f : BookmarksFile)
    → Safe w f (write_bookmarks w d a f) (write_bookmarks replaces d a f)
unfolding write_bookmarks
write-Safe replaces d a f why h = absurd (cc)
write-Safe fails_before d a f why h = inl refl
write-Safe fails_after d a f why h = inr (refl, refl)

module _ (w : WriteOutcome) (f : BookmarksFile) where
  with_document-Safe :
      {A : Type 0} (r : Result BookmarkError BookmarkDocument)
      (next next' : BookmarkDocument → Filed A)
      → ((d : BookmarkDocument) → Safe w f (next d) (next' d))
      → Safe w f (with_document f r next) (with_document f r next')
  with_document-Safe (ok d) next next' h why k = h d why k
  with_document-Safe (err e) next next' h why k = inl refl

  delete-Safe : (id : String) → Safe w f (delete_bookmark id w f) (delete_bookmark id replaces f)
  unfolding delete_bookmark
  delete-Safe id = with_document-Safe (read_bookmarks f) _ _ λ d. go d (delete_loop id d.bookmarks)
    where
      go :
          (d : BookmarkDocument) (p : List BookmarkRecord × Bool)
          → Safe w f (delete_found w f d p) (delete_found replaces f d p)
      go d (next, true) why h = write-Safe w (revised d next) tt f why h
      go d (next, false) why h = inl refl

  prune-Safe : (novel : String) → Safe w f (prune_novel novel w f) (prune_novel novel replaces f)
  unfolding prune_novel
  prune-Safe novel =
      with_document-Safe (read_bookmarks f) _ _ λ d. go d (prune_loop novel d.bookmarks)
    where
      go :
          (d : BookmarkDocument) (p : List BookmarkRecord × ℕ)
          → Safe w f (prune_counted w f d p) (prune_counted replaces f d p)
      go d (next, zero) why h = inl refl
      go d (next, suc n) why h = write-Safe w (revised d next) (suc n) f why h

  create-Safe :
      (input : Bookmark) (id now : String)
      → Safe w f (create_bookmark input id now w f) (create_bookmark input id now replaces f)
  unfolding create_bookmark
  create-Safe input id now = elim (Bool-cases (is_valid_input input)) [
    | inl t ↦ rw t (with_document-Safe (read_bookmarks f) _ _ λ d. write-Safe w _ _ f)
    | inr n ↦ rw n λ why h. inl refl
  ]

-- The outcome of the write of an operation, and the operation with another one.
abbrev pub write_outcome_of : BookmarkOp → WriteOutcome
write_outcome_of (lists novel) = replaces
write_outcome_of (creates input id now w) = w
write_outcome_of (deletes id w) = w
write_outcome_of (prunes novel w) = w

abbrev pub with_outcome : WriteOutcome → BookmarkOp → BookmarkOp
with_outcome w (lists novel) = lists novel
with_outcome w (creates input id now old) = creates input id now w
with_outcome w (deletes id old) = deletes id w
with_outcome w (prunes novel old) = prunes novel w

answered :
    {A : Type 0} {w : WriteOutcome} {f g : BookmarksFile} {why : BookmarkError}
    (answer : A → BookmarkAnswer)
    → ((a : A) → answer a ≢ refused why)
    → (p q : Filed A) → Safe w f p q
    → answered_by answer p ≡ (g, refused why)
    → (g ≡ f) ⊎ ((w ≡ fails_after) × (g ≡ (answered_by answer q).0))
answered answer apart (file, ok a) q h e = absurd (apart a (ap (λ x. x.1) e))
answered answer apart (file, err other) (file', r) h e =
    let here = sym (ap (λ x. x.0) e) in
    elim (h other refl) [
      | inl kept_file ↦ inl (here ∙ kept_file)
      | inr (late, there) ↦ inr (late, here ∙ there)
    ]

-- An operation that is refused, for whatever reason (an input that is not valid, a file that cannot
-- be read or is of another version, a bookmark that is not there, a write that fails), leaves the
-- file as it was; but if its write fails after the file was replaced, it may leave the file that the
-- operation leaves when its write succeeds.
pub refused-unchanged :
    (op : BookmarkOp) (f g : BookmarksFile) (why : BookmarkError)
    → perform_bookmark_op op f ≡ (g, refused why)
    → (g ≡ f)
      ⊎ ((write_outcome_of op ≡ fails_after)
          × (g ≡ (perform_bookmark_op (with_outcome replaces op) f).0))
unfolding perform_bookmark_op
refused-unchanged (lists novel) f g why h = inl (sym (ap (λ x. x.0) h))
refused-unchanged (creates input id now w) f g why h =
    answered bookmark_created (λ a e. cc) _ (create_bookmark input id now replaces f)
      (create-Safe w f input id now) h
refused-unchanged (deletes id w) f g why h =
    answered (λ u. deleted_bookmark) (λ a e. cc) _ (delete_bookmark id replaces f)
      (delete-Safe w f id) h
refused-unchanged (prunes novel w) f g why h =
    answered pruned (λ a e. cc) _ (prune_novel novel replaces f) (prune-Safe w f novel) h
