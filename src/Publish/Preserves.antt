-- ===== src/Publish/Preserves.antt =====
-- internal/app/publish.go: actions that leave an album where it is, and what keeps it at its place or aside.
use cuearr.Prelude.{
  inl, inr, ◌⊎◌, ◌≡◌, refl, ap, ◌∙◌, Text, Option, none, some, Option-cases, List, ◌++◌, arith,
}
use cuearr.Errors.{Error, Result, ok, err}
use cuearr.Fs.{
  Fs, Place, place, Node, node_at, Outcome, OsError, not_exist, exists, not_directory, system,
  rename,
}
use cuearr.Fs.Acts.{
  Act, continue, ◌>>=◌, ◌>>◌, pure, fail, require, require_or_absent, on_error, recover_with,
}
use cuearr.Fs.Lookups.{Apart}
use cuearr.Fs.Keeps.{Same, Keeps, rename-Renames}

-- Actions behind which the tree at the place is still the one in `nodes`.
module _ (p : Place) (nodes : List (Place × Node)) where
  abbrev pub Kept : Fs → Type 0
  Kept fs = Same p nodes fs.nodes

  abbrev pub Holds : {A : Type 0} → Act A → Type 0
  Holds m = (fs : Fs) → Kept fs → Kept (m fs).1

  pub Keeps-Kept : (op : Fs → Outcome) → Keeps p op → (fs : Fs) → Kept fs → Kept (op fs).1
  Keeps-Kept op k fs h tail = k fs tail ∙ h tail

  pub continue-Holds :
      {A B : Type 0} (r : Result A) (f : A → Act B) → ((a : A) → Holds (f a)) → Holds (continue r f)
  continue-Holds (ok a) f k fs h = k a fs h
  continue-Holds (err e) f k fs h = h

  pub >>=-Holds :
      {A B : Type 0} (m : Act A) (f : A → Act B)
      → Holds m
      → ((a : A) → Holds (f a))
      → Holds (m >>= f)
  >>=-Holds m f k l fs h = continue-Holds (m fs).0 f l (m fs).1 (k fs h)

  pub answered-Holds :
      (what : OsError → Error) (e : Option OsError)
      → Holds (elim e as (λ _. Act (Unit {0})) [ none ↦ pure tt | some x ↦ fail (what x) ])
  answered-Holds what none fs h = h
  answered-Holds what (some x) fs h = h

  pub require-Holds :
      (what : OsError → Error) (op : Fs → Outcome) → Keeps p op → Holds (require what op)
  require-Holds what op k fs h = answered-Holds what (op fs).0 (op fs).1 (Keeps-Kept op k fs h)

  pub absent_ok-Holds :
      (what : OsError → Error) (e : Option OsError)
      → Holds (elim e as (λ _. Act (Unit {0})) [
        | none ↦ pure tt
        | some not_exist ↦ pure tt
        | some x ↦ fail (what x)
      ])
  absent_ok-Holds what none fs h = h
  absent_ok-Holds what (some not_exist) fs h = h
  absent_ok-Holds what (some exists) fs h = h
  absent_ok-Holds what (some not_directory) fs h = h
  absent_ok-Holds what (some (system f)) fs h = h

  pub require_or_absent-Holds :
      (what : OsError → Error) (op : Fs → Outcome) → Keeps p op → Holds (require_or_absent what op)
  require_or_absent-Holds what op k fs h =
      absent_ok-Holds what (op fs).0 (op fs).1 (Keeps-Kept op k fs h)

  pub recover_with-Holds :
      {A : Type 0} (r : Result A) (cleanup : Fs → Outcome)
      → Keeps p cleanup
      → Holds (recover_with r cleanup)
  recover_with-Holds (ok a) cleanup k fs h = h
  recover_with-Holds (err e) cleanup k fs h = Keeps-Kept cleanup k fs h

  pub on_error-Holds :
      {A : Type 0} (cleanup : Fs → Outcome) (m : Act A)
      → Keeps p cleanup
      → Holds m
      → Holds (on_error cleanup m)
  on_error-Holds cleanup m k l fs h = recover_with-Holds (m fs).0 cleanup k (m fs).1 (l fs h)

-- What is left of the old album: it is at its place, or it stands aside.
module _ (final_out aside : Text) (nodes : List (Place × Node)) where
  abbrev pub AtPlace : Fs → Type 0
  AtPlace fs = Same (place final_out) nodes fs.nodes

  abbrev pub StandsAside : Fs → Type 0
  StandsAside fs =
      (tail : Place)
      → node_at (place aside ++ tail) fs.nodes ≡ node_at (place final_out ++ tail) nodes

  abbrev pub Preserved : Fs → Type 0
  Preserved fs = AtPlace fs ⊎ StandsAside fs

  abbrev pub Safe : {A : Type 0} → Act A → Type 0
  Safe m = (fs : Fs) → AtPlace fs → (e : Error) → (m fs).0 ≡ err e → Preserved (m fs).1

  pub continue-Safe :
      {A B : Type 0} (r : Result A) (f : A → Act B) → ((a : A) → Safe (f a)) → Safe (continue r f)
  continue-Safe (ok a) f k fs h e k' = k a fs h e k'
  continue-Safe (err x) f k fs h e k' = inl h

  pub >>=-Safe :
      {A B : Type 0} (m : Act A) (f : A → Act B)
      → Holds (place final_out) nodes m
      → ((a : A) → Safe (f a))
      → Safe (m >>= f)
  >>=-Safe m f k l fs h e k' = continue-Safe (m fs).0 f l (m fs).1 (k fs h) e k'

  pub Holds-Safe : {A : Type 0} (m : Act A) → Holds (place final_out) nodes m → Safe m
  Holds-Safe m k fs h e k' = inl (k fs h)

  returned :
      {B : Type 0} (r : Result (Unit {0})) (b : B) (fs : Fs)
      → ((e : Error) → r ≡ err e → Preserved fs)
      → (e : Error) → (continue r (λ _. pure b) fs).0 ≡ err e
      → Preserved (continue r (λ _. pure b) fs).1
  returned (ok u) b fs k e k' = absurd (ground arith)
  returned (err x) b fs k e k' = k x refl

  pub >>-Safe : {B : Type 0} (m : Act (Unit {0})) (b : B) → Safe m → Safe (m >> pure b)
  >>-Safe m b k fs h e k' = returned (m fs).0 b (m fs).1 (k fs h) e k'

  -- where a rename put the album aside, putting it back keeps it
  pub put_back-Preserved :
      (fs : Fs)
      → Apart (place aside) (place final_out)
      → StandsAside fs
      → Preserved (rename aside final_out fs).1
  put_back-Preserved fs a h =
      let r = rename-Renames aside final_out fs in
      elim (Option-cases (rename aside final_out fs).0) [
        | inl done ↦ inl (λ tail. r.moved a done tail ∙ h tail)
        | inr (x, refused) ↦
            inr (λ tail. ap (node_at (place aside ++ tail)) (r.refused x refused) ∙ h tail)
      ]

  pub Keeps-Preserved :
      (op : Fs → Outcome)
      → Keeps (place final_out) op
      → Keeps (place aside) op
      → (fs : Fs) → Preserved fs
      → Preserved (op fs).1
  Keeps-Preserved op k l fs (inl h) = inl (λ tail. k fs tail ∙ h tail)
  Keeps-Preserved op k l fs (inr h) = inr (λ tail. l fs tail ∙ h tail)
