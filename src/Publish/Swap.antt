-- ===== src/Publish/Swap.antt =====
-- internal/app/publish.go: what a publication leaves of the old album, whatever the system refuses.
use mathlib.Core.Path.{subst}
use mathlib.Core.List.{append-nil}
use cuearr.Prelude.{
  inl, inr, ◌≡◌, ◌≢◌, refl, ap, ◌∙◌, Text, Option, none, some, Option-cases, List, [], ◌++◌, arith,
  lit,
}
use cuearr.Errors.{Error, err, message}
use cuearr.Fs.{
  Fs, Place, place, Node, node_at, OsError, not_exist, exists, not_directory, system, remove_all,
  stat, rename,
}
use cuearr.Fs.Acts.{Act, ◌>>=◌, ◌>>◌, pure, fail, attempt, require, on_error, report}
use cuearr.Fs.Lookups.{Apart}
use cuearr.Fs.Keeps.{remove_all-Keeps, stat-Keeps, stat-not_exist, rename-Renames}
use cuearr.Publish.{
  restore_aside, swap_over, swap_in, rename_path, rename_error, restore_error, final_error,
}
use cuearr.Publish.Preserves.{
  Holds, Keeps-Kept, on_error-Holds, AtPlace, StandsAside, Preserved, Safe, Holds-Safe,
  put_back-Preserved, Keeps-Preserved,
}

-- The places of a publication: none of the directories it renames or removes lies in another.
pub record Layout (publish_dir aside final_out : Text) : Type 0 where
  pub publish_final : Apart (place publish_dir) (place final_out)
  pub publish_aside : Apart (place publish_dir) (place aside)
  pub aside_final : Apart (place aside) (place final_out)
  pub final_aside : Apart (place final_out) (place aside)

module _ (publish_dir aside final_out : Text) (l : Layout publish_dir aside final_out)
    (nodes : List (Place × Node)) where
  abbrev Left : Fs → Type 0
  Left fs = Preserved final_out aside nodes fs

  cleaned : (fs : Fs) → Left fs → Left (remove_all publish_dir fs).1
  cleaned =
      Keeps-Preserved final_out aside nodes (remove_all publish_dir)
        (remove_all-Keeps (place final_out) publish_dir l.publish_final)
        (remove_all-Keeps (place aside) publish_dir l.publish_aside)

  -- the second rename, and what follows where it is refused
  abbrev second : Act (Unit {0})
  second = do
    moved ← attempt (rename publish_dir final_out)
    elim moved [
      | some e ↦ do
        attempt (rename aside final_out) >>= λ restored. pure tt
        attempt (remove_all publish_dir) >>= λ removed. pure tt
        fail (rename_error publish_dir final_out e)
      | none ↦ attempt (remove_all aside) >>= λ removed. pure tt
    ]

  second-Left :
      (fs : Fs)
      → StandsAside final_out aside nodes fs
      → (e : Error) → (second fs).0 ≡ err e
      → Left (second fs).1
  second-Left fs h e k = elim (Option-cases (rename publish_dir final_out fs).0) [
    | inl done ↦ absurd (ground arith)
    | inr (x, refused) ↦
        let unmoved = (rename-Renames publish_dir final_out fs).refused x refused in
        let (_, fs') = rename publish_dir final_out fs in
        rw refused (
          cleaned (rename aside final_out fs').1 (
            put_back-Preserved final_out aside nodes fs' l.aside_final
              (λ tail. ap (node_at (place aside ++ tail)) unmoved ∙ h tail)))
  ]

  first :
      (fs : Fs)
      → AtPlace final_out aside nodes fs
      → (rename final_out aside fs).0 ≡ none
      → StandsAside final_out aside nodes (rename final_out aside fs).1
  first fs h done tail = (rename-Renames final_out aside fs).moved l.final_aside done tail ∙ h tail

  pub swap_over-Safe : Safe final_out aside nodes (swap_over publish_dir aside final_out)
  unfolding swap_over rename_path
  swap_over-Safe fs h e k = elim (Option-cases (rename final_out aside fs).0) [
    | inl done ↦ rw done (
        second-Left (rename final_out aside fs).1 (first fs h done) e
          (rw (done, swap_over, rename_path) at k))
    | inr (x, refused) ↦
        let unmoved = (rename-Renames final_out aside fs).refused x refused in
        rw refused (
          cleaned (rename final_out aside fs).1
            (inl (λ tail. ap (node_at (place final_out ++ tail)) unmoved ∙ h tail)))
  ]

  -- where the old album is at its place, Stat finds it or is refused for another reason
  stat-found :
      (n : Node) (fs : Fs)
      → node_at (place final_out) nodes ≡ some n
      → AtPlace final_out aside nodes fs
      → (stat final_out fs).0 ≢ some not_exist
  stat-found n fs there h k =
      let here =
        subst (λ q. node_at q fs.nodes ≡ node_at q nodes) (append-nil (place final_out)) (h []) in
      absurd (ground (arith, stat-not_exist final_out fs k, here, there))

  pub removed_on_error-Safe :
      (m : Act (Unit {0}))
      → Holds (place final_out) nodes m
      → Safe final_out aside nodes (on_error (remove_all publish_dir) m)
  removed_on_error-Safe m k =
      Holds-Safe final_out aside nodes (on_error (remove_all publish_dir) m) (
        on_error-Holds (place final_out) nodes (remove_all publish_dir) m
          (remove_all-Keeps (place final_out) publish_dir l.publish_final) k)

  found-Safe :
      (found : Option OsError)
      → found ≢ some not_exist
      → Safe final_out aside nodes (elim found as (λ _. Act (Unit {0})) [
        | none ↦ swap_over publish_dir aside final_out
        | some not_exist ↦ on_error (remove_all publish_dir) (rename_path publish_dir final_out)
        | some e ↦
            on_error (remove_all publish_dir) (fail (report (lit "stat final out") final_out e))
      ])
  found-Safe none h = swap_over-Safe
  found-Safe (some not_exist) h = absurd (h refl)
  found-Safe (some exists) h =
      removed_on_error-Safe (fail (report (lit "stat final out") final_out exists)) (λ fs h. h)
  found-Safe (some not_directory) h =
      removed_on_error-Safe (fail (report (lit "stat final out") final_out not_directory))
        (λ fs h. h)
  found-Safe (some (system f)) h =
      removed_on_error-Safe (fail (report (lit "stat final out") final_out (system f))) (λ fs h. h)

  pub swap_in-Safe :
      (n : Node)
      → node_at (place final_out) nodes ≡ some n
      → Safe final_out aside nodes (swap_in publish_dir aside final_out)
  unfolding swap_in
  swap_in-Safe n there fs h =
      found-Safe (stat final_out fs).0 (stat-found n fs there h) (stat final_out fs).1 (
        Keeps-Kept (place final_out) nodes (stat final_out) (stat-Keeps (place final_out) final_out)
          fs h)

  final-Holds :
      (final : Option OsError)
      → final ≢ some not_exist
      → Holds (place final_out) nodes (elim final as (λ _. Act (Unit {0})) [
        | some not_exist ↦ require (restore_error aside final_out) (rename aside final_out)
        | none ↦ fail (message (lit "stale album backup requires recovery: " ++ aside))
        | some e ↦ fail (final_error final_out e)
      ])
  final-Holds none k fs h = h
  final-Holds (some not_exist) k fs h = absurd (k refl)
  final-Holds (some exists) k fs h = h
  final-Holds (some not_directory) k fs h = h
  final-Holds (some (system f)) k fs h = h

  backup-Holds :
      (n : Node)
      → node_at (place final_out) nodes ≡ some n
      → (there : Option OsError)
      → Holds (place final_out) nodes (elim there as (λ _. Act (Unit {0})) [
        | some not_exist ↦ pure tt
        | some e ↦ fail (report (lit "stat album backup") aside e)
        | none ↦ do
          final ← attempt (stat final_out)
          elim final [
            | some not_exist ↦ require (restore_error aside final_out) (rename aside final_out)
            | none ↦ fail (message (lit "stale album backup requires recovery: " ++ aside))
            | some e ↦ fail (final_error final_out e)
          ]
      ])
  backup-Holds n there none fs h =
      final-Holds (stat final_out fs).0 (stat-found n fs there h) (stat final_out fs).1 (
        Keeps-Kept (place final_out) nodes (stat final_out) (stat-Keeps (place final_out) final_out)
          fs h)
  backup-Holds n there (some not_exist) fs h = h
  backup-Holds n there (some exists) fs h = h
  backup-Holds n there (some not_directory) fs h = h
  backup-Holds n there (some (system f)) fs h = h

  pub restore_aside-Holds :
      (n : Node)
      → node_at (place final_out) nodes ≡ some n
      → Holds (place final_out) nodes (restore_aside aside final_out)
  unfolding restore_aside
  restore_aside-Holds n there fs h =
      backup-Holds n there (stat aside fs).0 (stat aside fs).1
        (Keeps-Kept (place final_out) nodes (stat aside) (stat-Keeps (place final_out) aside) fs h)
