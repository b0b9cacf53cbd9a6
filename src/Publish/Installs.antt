-- ===== src/Publish/Installs.antt =====
-- internal/app/publish.go: where a swap succeeds, the new album is what was published.
use cuearr.Prelude.{
  inl, inr, ◌≡◌, ◌∙◌, Text, Option, none, some, Option-cases, List, ◌++◌, arith, lit,
}
use cuearr.Errors.{ok}
use cuearr.Fs.{
  Fs, Place, place, Node, node_at, OsError, not_exist, exists, not_directory, system, remove_all,
  stat, rename,
}
use cuearr.Fs.Acts.{Act, fail, on_error, report}
use cuearr.Fs.Keeps.{remove_all-Keeps, stat-Keeps, rename-Renames}
use cuearr.Publish.{swap_over, swap_in, rename_path}
use cuearr.Publish.Swap.{Layout}

module _ (publish_dir aside final_out : Text) (l : Layout publish_dir aside final_out) where
  -- the tree at final_out is the one that `nodes` has at publish_dir
  abbrev pub Installed : List (Place × Node) → Fs → Type 0
  Installed nodes fs =
      (tail : Place)
      → node_at (place final_out ++ tail) fs.nodes ≡ node_at (place publish_dir ++ tail) nodes

  moved_in :
      (fs : Fs)
      → (rename publish_dir final_out fs).0 ≡ none
      → Installed fs.nodes (rename publish_dir final_out fs).1
  moved_in fs done = (rename-Renames publish_dir final_out fs).moved l.publish_final done

  swap_over-Installed :
      (fs : Fs)
      → (swap_over publish_dir aside final_out fs).0 ≡ ok tt
      → Installed fs.nodes (swap_over publish_dir aside final_out fs).1
  unfolding swap_over rename_path
  swap_over-Installed fs k = elim (Option-cases (rename final_out aside fs).0) [
    | inr (x, refused) ↦ absurd (ground (arith, rw (refused, swap_over, rename_path) at k))
    | inl aside_done ↦
        let (_, fs') = rename final_out aside fs in
        let others =
          (rename-Renames final_out aside fs).others (place publish_dir)
            (l.publish_final.1, l.publish_final.0) (l.publish_aside.1, l.publish_aside.0) in
        elim (Option-cases (rename publish_dir final_out fs').0) [
          | inr (x, refused) ↦
              absurd (ground (arith, rw (aside_done, refused, swap_over, rename_path) at k))
          | inl done ↦
              rw (aside_done, done)
                (λ tail.
                  remove_all-Keeps (place final_out) aside l.aside_final
                    (rename publish_dir final_out fs').1 tail
                  ∙ moved_in fs' done tail
                  ∙ others tail)
        ]
  ]

  clear-Installed :
      (fs : Fs)
      → (on_error (remove_all publish_dir) (rename_path publish_dir final_out) fs).0 ≡ ok tt
      → Installed fs.nodes
          (on_error (remove_all publish_dir) (rename_path publish_dir final_out) fs).1
  unfolding rename_path
  clear-Installed fs k = elim (Option-cases (rename publish_dir final_out fs).0) [
    | inr (x, refused) ↦ absurd (ground (arith, rw (refused, rename_path) at k))
    | inl done ↦ rw done (moved_in fs done)
  ]

  found-Installed :
      (found : Option OsError) (fs : Fs)
      → let act = elim found as (λ _. Act (Unit {0})) [
        | none ↦ swap_over publish_dir aside final_out
        | some not_exist ↦ on_error (remove_all publish_dir) (rename_path publish_dir final_out)
        | some e ↦
            on_error (remove_all publish_dir) (fail (report (lit "stat final out") final_out e))
      ] in
        (act fs).0 ≡ ok tt → Installed fs.nodes (act fs).1
  found-Installed none fs k = swap_over-Installed fs k
  found-Installed (some not_exist) fs k = clear-Installed fs k
  found-Installed (some exists) fs k = absurd (ground arith)
  found-Installed (some not_directory) fs k = absurd (ground arith)
  found-Installed (some (system f)) fs k = absurd (ground arith)

  -- Where the swap of a publication succeeds, with or without an old album and whatever became of
  -- its removal, what was in the publishing directory is at final_out.
  pub swap_in-Installed :
      (fs : Fs)
      → (swap_in publish_dir aside final_out fs).0 ≡ ok tt
      → Installed fs.nodes (swap_in publish_dir aside final_out fs).1
  unfolding swap_in
  swap_in-Installed fs k tail =
      found-Installed (stat final_out fs).0 (stat final_out fs).1 k tail
      ∙ stat-Keeps (place publish_dir) final_out fs tail
