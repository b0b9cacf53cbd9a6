-- ===== src/Tests/AdapterTests.antt =====
-- internal/app/publish.go, internal/adapters/auth, http, audio and the run-time settings at concrete
-- inputs.
use cuearr.Prelude.{◌≡◌, ◌++◌, refl, Text, lit, false, none, some, List, [], ◌∷◌}
use cuearr.Errors.{ok, err}
use cuearr.Fs.{
  Fs, Fault, Place, place, Node, directory, file, node_at, system, mkdir_all, remove_all, stat,
  rename, write_file, next_fault,
}
use cuearr.Filepath.{elements, is_abs, join, dir, base}
use cuearr.Publish.{
  publish_replace_dir, publish_tracks, publish_dir_of, aside_dir_of, PublicationManifest,
  rename_error, replace_dir, is_invalid_final, restore_aside, swap_in, swap_over, move_tracks,
  rename_path, track_source_path, is_cross_device_rename_err,
}
use cuearr.Publish.Preserves.{Preserved}
use cuearr.Publish.Swap.{Layout}
use cuearr.Publish.Publication.{Clear, Elsewhere, publish_tracks-Preserved}
use cuearr.Publish.Installs.{swap_in-Installed}

abbrev no_space : Fault
no_space = record {
  errno = lit "no space left on device";
  cross_device = false;
  removed = λ q. false;
}

abbrev album_nodes : List (Place × Node)
album_nodes =
    (place (lit "/out"), directory)
    ∷ (place (lit "/out/a"), directory)
    ∷ (place (lit "/out/a/1.flac"), file (lit "old"))
    ∷ (place (lit "/s"), directory)
    ∷ (place (lit "/s/1.flac"), file (lit "new"))
    ∷ []

-- the ninth operation, the rename of the new album to its place, is refused
abbrev full_disk : Fs
full_disk = record {
  nodes = album_nodes;
  faults = none ∷ none ∷ none ∷ none ∷ none ∷ none ∷ none ∷ none ∷ some no_space ∷ [];
}

album_places :
    Layout
      (publish_dir_of (lit "/out/a") (lit "j"))
      (aside_dir_of (lit "/out/a") (lit "j"))
      (lit "/out/a")
unfolding publish_dir_of aside_dir_of place elements is_abs join dir base
album_places = record {
  publish_final = (refl, refl);
  publish_aside = (refl, refl);
  aside_final = (refl, refl);
  final_aside = (refl, refl);
}

album-Clear : Clear (lit "/s") (lit "/out/a") (lit "j") (lit "1.flac" ∷ [])
unfolding publish_dir_of place elements is_abs join dir base Elsewhere track_source_path
album-Clear = record {
  layout = album_places;
  parent = refl;
  manifest = (refl, refl);
  tracks = (((refl, refl), (refl, refl)), tt);
}

album_there : node_at (place (lit "/out/a")) album_nodes ≡ some directory
unfolding place elements is_abs
album_there = refl

abbrev as_text : PublicationManifest → Text
as_text m = m.job_id

swap_refused :
    (publish_tracks as_text
      (lit "/s")
      (lit "/out/a")
      (lit "j")
      (lit "1.flac" ∷ [])
      publish_replace_dir
      full_disk).0
    ≡ err (rename_error (publish_dir_of (lit "/out/a") (lit "j")) (lit "/out/a") (system no_space))
unfolding publish_tracks replace_dir is_invalid_final restore_aside swap_in swap_over move_tracks
    rename_path track_source_path publish_dir_of aside_dir_of place elements is_abs join dir base
    mkdir_all remove_all stat rename write_file next_fault rename_error is_cross_device_rename_err
swap_refused = refl

publish_tracks-Preserved_example :
    Preserved
      (lit "/out/a")
      (aside_dir_of (lit "/out/a") (lit "j"))
      album_nodes
      (publish_tracks as_text
        (lit "/s")
        (lit "/out/a")
        (lit "j")
        (lit "1.flac" ∷ [])
        publish_replace_dir
        full_disk).1
publish_tracks-Preserved_example =
    publish_tracks-Preserved as_text (lit "/s") (lit "/out/a") (lit "j") (lit "1.flac" ∷ [])
      publish_replace_dir full_disk directory album-Clear album_there
      (rename_error (publish_dir_of (lit "/out/a") (lit "j")) (lit "/out/a") (system no_space))
      swap_refused

-- the same place with the new album beside the old one, and no faults
abbrev staged : Fs
staged = record {
  nodes =
      (place (lit "/out/.a.publishing-j"), directory)
      ∷ (place (lit "/out/.a.publishing-j/1.flac"), file (lit "new"))
      ∷ album_nodes;
  faults = [];
}

swapped :
    (swap_in (lit "/out/.a.publishing-j") (lit "/out/.a.aside-j") (lit "/out/a") staged).0 ≡ ok tt
unfolding swap_in swap_over rename_path place elements is_abs stat rename remove_all next_fault
swapped = refl

staged_places : Layout (lit "/out/.a.publishing-j") (lit "/out/.a.aside-j") (lit "/out/a")
unfolding place elements is_abs
staged_places = record {
  publish_final = (refl, refl);
  publish_aside = (refl, refl);
  aside_final = (refl, refl);
  final_aside = (refl, refl);
}

swap_in-Installed_example :
    node_at
      (place (lit "/out/a") ++ (lit "1.flac" ∷ []))
      (swap_in (lit "/out/.a.publishing-j") (lit "/out/.a.aside-j") (lit "/out/a") staged).1.nodes
    ≡ node_at (place (lit "/out/.a.publishing-j") ++ (lit "1.flac" ∷ [])) staged.nodes
swap_in-Installed_example =
    swap_in-Installed (lit "/out/.a.publishing-j") (lit "/out/.a.aside-j") (lit "/out/a")
      staged_places staged swapped (lit "1.flac" ∷ [])
