-- ===== src/Publish/Publication.antt =====
-- internal/app/publish.go: PublishTracks over an album that is already there, and the swap that
-- puts the new album in its place.
use cuearr.Prelude.{inl, inr, ◌≡◌, refl, Text, false, Bool-cases, some, List, [], ◌∷◌, lit}
use cuearr.Errors.{Error, err, message, wrapped}
use cuearr.Filepath.{join, dir, base}
use cuearr.Fs.{
  Fs, Place, place, is_at_or_below, Node, node_at, remove_all, mkdir_all, rename, write_file,
}
use cuearr.Fs.Acts.{Act, ◌>>◌, pure, require, require_or_absent, on_error, os_error_text, report}
use cuearr.Fs.Lookups.{Apart}
use cuearr.Fs.Keeps.{Keeps, remove_all-Keeps, write_file-Keeps, rename-Keeps, mkdir_all-Keeps}
use cuearr.Publish.{
  PublishMode, publish_replace_dir, publish_merge_into, publication_file, publish_dir_of,
  aside_dir_of, is_invalid_final, restore_aside, swap_in, replace_dir, publish_tracks, manifest_of,
  move_tracks, track_source_path, published_paths, PublicationManifest, rename_path, rename_error,
}
use cuearr.Publish.Preserves.{
  Holds, >>=-Holds, require-Holds, require_or_absent-Holds, on_error-Holds, Preserved, Safe,
  >>=-Safe, >>-Safe,
}
use cuearr.Publish.Swap.{Layout, swap_in-Safe, restore_aside-Holds}

-- Neither the tracks nor the places they are moved to lie in the album or above it.
unfoldable pub Elsewhere : Place → Text → Text → List Text → Type 0
Elsewhere p staging publish_dir [] = Unit {0}
Elsewhere p staging publish_dir (name ∷ files) =
    (Apart (place (track_source_path staging name)) p
      × Apart (place (join publish_dir (base (track_source_path staging name)))) p)
    × Elsewhere p staging publish_dir files

-- The places that a publication touches before the swap are apart from the album's.
pub record Clear (staging final_out job_id : Text) (files : List Text) : Type 0 where
  pub layout : Layout (publish_dir_of final_out job_id) (aside_dir_of final_out job_id) final_out
  pub parent : is_at_or_below (place final_out) (place (dir final_out)) ≡ false
  pub manifest :
      Apart (place (join (publish_dir_of final_out job_id) publication_file)) (place final_out)
  pub tracks : Elsewhere (place final_out) staging (publish_dir_of final_out job_id) files

move_tracks-Holds :
    (p : Place) (nodes : List (Place × Node)) (staging publish_dir : Text) (files : List Text)
    → Elsewhere p staging publish_dir files
    → Holds p nodes (move_tracks staging publish_dir files)
unfolding move_tracks rename_path Elsewhere
move_tracks-Holds p nodes staging publish_dir [] h = λ fs k. k
move_tracks-Holds p nodes staging publish_dir (name ∷ files) h =
    let src = track_source_path staging name in
    let to = join publish_dir (base src) in
    >>=-Holds p nodes (require (rename_error src to) (rename src to)) _
      (require-Holds p nodes (rename_error src to) (rename src to)
        (rename-Keeps p src to h.0.0 h.0.1))
      (λ u. move_tracks-Holds p nodes staging publish_dir files h.1)

module _ (marshal : PublicationManifest → Text) (staging final_out job_id : Text)
    (files : List Text) (nodes : List (Place × Node)) (n : Node)
    (c : Clear staging final_out job_id files)
    (there : node_at (place final_out) nodes ≡ some n) where
  abbrev publish_dir : Text
  publish_dir = publish_dir_of final_out job_id

  abbrev aside : Text
  aside = aside_dir_of final_out job_id

  abbrev album : Place
  album = place final_out

  abbrev writing : Act (Unit {0})
  writing =
      require (λ e. wrapped (lit "write publication manifest") (message (os_error_text e)))
        (write_file (join publish_dir publication_file)
          (marshal (manifest_of marshal job_id files)))

  abbrev swap : Act (List Text)
  swap = swap_in publish_dir aside final_out >> pure (published_paths final_out files)

  -- the steps of a publication from the moves of the tracks on
  abbrev fill_and_swap : Act (List Text)
  fill_and_swap = do
    on_error (remove_all publish_dir) (move_tracks staging publish_dir files)
    on_error (remove_all publish_dir) writing
    swap

  abbrev restore_and_fill : Act (List Text)
  restore_and_fill = do
    restore_aside aside final_out
    require (report (lit "create publish dir") publish_dir) (mkdir_all publish_dir)
    fill_and_swap

  removing : Keeps album (remove_all publish_dir)
  removing = remove_all-Keeps album publish_dir c.layout.publish_final

  then_Safe :
      (m : Act (Unit {0})) (k : Act (List Text))
      → Holds album nodes m
      → Safe final_out aside nodes k
      → Safe final_out aside nodes (m >> k)
  then_Safe m k h l = >>=-Safe final_out aside nodes m (λ _. k) h (λ _. l)

  cleaned-Holds :
      (m : Act (Unit {0}))
      → Holds album nodes m
      → Holds album nodes (on_error (remove_all publish_dir) m)
  cleaned-Holds m = on_error-Holds album nodes (remove_all publish_dir) m removing

  fill_and_swap-Safe : Safe final_out aside nodes fill_and_swap
  fill_and_swap-Safe =
      then_Safe (on_error (remove_all publish_dir) (move_tracks staging publish_dir files))
        (on_error (remove_all publish_dir) writing >> swap)
        (cleaned-Holds (move_tracks staging publish_dir files)
          (move_tracks-Holds album nodes staging publish_dir files c.tracks))
        (then_Safe (on_error (remove_all publish_dir) writing) swap
          (cleaned-Holds writing (
            require-Holds album nodes
              (λ e. wrapped (lit "write publication manifest") (message (os_error_text e)))
              (write_file (join publish_dir publication_file)
                (marshal (manifest_of marshal job_id files)))
              (write_file-Keeps album (join publish_dir publication_file)
                (marshal (manifest_of marshal job_id files)) c.manifest)))
          (>>-Safe final_out aside nodes (swap_in publish_dir aside final_out)
            (published_paths final_out files)
            (swap_in-Safe publish_dir aside final_out c.layout nodes n there)))

  restore_and_fill-Safe : Safe final_out aside nodes restore_and_fill
  restore_and_fill-Safe =
      let create = report (lit "create publish dir") publish_dir in
      then_Safe (restore_aside aside final_out)
        (require create (mkdir_all publish_dir) >> fill_and_swap)
        (restore_aside-Holds publish_dir aside final_out c.layout nodes n there)
        (then_Safe (require create (mkdir_all publish_dir)) fill_and_swap
          (require-Holds album nodes create (mkdir_all publish_dir)
            (mkdir_all-Keeps album publish_dir c.layout.publish_final.1))
          fill_and_swap-Safe)

  replace_dir-Safe : Safe final_out aside nodes (replace_dir marshal staging final_out job_id files)
  unfolding replace_dir
  replace_dir-Safe =
      let parent = report (lit "ensure final parent") (dir final_out) in
      let leftover = report (lit "remove leftover publish dir") publish_dir in
      elim (Bool-cases (is_invalid_final final_out)) [
        | inl invalid ↦ λ fs h e k. rw invalid (inl h)
        | inr valid ↦ λ fs h e k. rw valid (
            then_Safe (require parent (mkdir_all (dir final_out)))
              (require_or_absent leftover (remove_all publish_dir) >> restore_and_fill)
              (require-Holds album nodes parent (mkdir_all (dir final_out))
                (mkdir_all-Keeps album (dir final_out) c.parent))
              (then_Safe (require_or_absent leftover (remove_all publish_dir)) restore_and_fill
                (require_or_absent-Holds album nodes leftover (remove_all publish_dir) removing)
                restore_and_fill-Safe)
              fs h e (rw (valid, replace_dir) at k))
      ]

-- Where an album stands at final_out and PublishTracks fails, whatever operations of the system
-- failed, the old album is complete: it is at final_out or in its aside directory.
pub publish_tracks-Preserved :
    (marshal : PublicationManifest → Text) (staging final_out job_id : Text) (files : List Text)
    (mode : PublishMode) (fs : Fs) (n : Node)
    → Clear staging final_out job_id files
    → node_at (place final_out) fs.nodes ≡ some n
    → (e : Error) → (publish_tracks marshal staging final_out job_id files mode fs).0 ≡ err e
    → Preserved final_out
        (aside_dir_of final_out job_id)
        fs.nodes
        (publish_tracks marshal staging final_out job_id files mode fs).1
unfolding publish_tracks
publish_tracks-Preserved marshal staging final_out job_id files publish_merge_into fs n c there e
      k =
    inl (λ tail. refl)
publish_tracks-Preserved marshal staging final_out job_id files publish_replace_dir fs n c there e
      k =
    replace_dir-Safe marshal staging final_out job_id files fs.nodes n c there fs (λ tail. refl) e k
