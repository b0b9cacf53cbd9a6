-- ===== src/Album/Plan.antt =====
-- internal/domain/album.go: which files of a directory a split plan takes.
use cuearr.Prelude.{
  inl, inr, ◌≡◌, ◌≢◌, refl, sym, ◌∙◌, Text, text_eq, text_eq_iff, true, false, Bool-cases, List, [],
  ◌∷◌, arith, has_suffix, to_lower, is_nil, if◌then◌else◌, not, ◌||◌, map,
}
use cuearr.Errors.{
  ambiguous_cue, image_not_found, sentinel, Result, ok, err, >>=-eq-ok, refuse_if-eq-ok,
}
use cuearr.Cue.{CueSheet}
use cuearr.Filepath.{join}
use cuearr.Album.{
  DirEntry, SplitPlan, is_cue_name, pick_cue_from, pick_single_cue_file, entry_exists, image_name,
  build_split_plan,
}

abbrev pub cue_names : List DirEntry → List Text
cue_names [] = []
cue_names (e ∷ entries) =
    let rest = cue_names entries in if is_cue_name e.name then e.name ∷ rest else rest

-- none of the names is no error, and more than one is ambiguous
abbrev pub only_name : List Text → Result Text
only_name [] = ok []
only_name (name ∷ []) = ok name
only_name (name ∷ other ∷ names) = err (sentinel ambiguous_cue)

is_cue_name-is_nil : (name : Text) → is_cue_name name ≡ true → is_nil name ≡ false
unfolding has_suffix to_lower
is_cue_name-is_nil [] h = cc
is_cue_name-is_nil (c ∷ name) h = refl

pick_cue_from_found :
    (name : Text) (entries : List DirEntry)
    → is_nil name ≡ false
    → pick_cue_from name entries ≡ only_name (name ∷ cue_names entries)
unfolding pick_cue_from
pick_cue_from_found name [] h = refl
pick_cue_from_found name (e ∷ entries) h = elim (Bool-cases (is_cue_name e.name)) [
  | inl cue ↦ rw (cue, h) refl
  | inr other ↦ rw other (pick_cue_from_found name entries h)
]

-- PickSingleCueFile answers the only CUE name of the directory, "" where it holds none, and
-- ErrAmbiguousCue exactly where it holds two or more.
pub pick_single_cue_file_lem :
    (entries : List DirEntry) → pick_single_cue_file entries ≡ only_name (cue_names entries)
unfolding pick_single_cue_file pick_cue_from
pick_single_cue_file_lem [] = refl
pick_single_cue_file_lem (e ∷ entries) = elim (Bool-cases (is_cue_name e.name)) [
  | inl cue ↦ rw cue (pick_cue_from_found e.name entries (is_cue_name-is_nil e.name cue))
  | inr other ↦ rw other (pick_single_cue_file_lem entries)
]

pub data In {ℓ} {A : Type ℓ} (x : A) : List A → Type ℓ where
  here : {y : A} {xs : List A} → x ≡ y → In x (y ∷ xs)
  there : {y : A} {xs : List A} → In x xs → In x (y ∷ xs)

entry_exists-In :
    (entries : List DirEntry) (name : Text)
    → entry_exists entries name ≡ true
    → In name (map (λ e. e.name) entries)
unfolding entry_exists
entry_exists-In [] name h = cc
entry_exists-In (e ∷ entries) name h = elim (Bool-cases (text_eq e.name name)) [
  | inl same ↦ here (sym ((text_eq_iff e.name name).0 same))
  | inr other ↦ there (entry_exists-In entries name (ground arith))
]

is_nil-ne : (name : Text) → is_nil name ≡ false → name ≢ []
is_nil-ne name h e = ground arith

-- A plan is built only around an image that the directory lists, and of at most one CUE file: its
-- paths are those names joined to the directory.
pub build_split_plan_lem :
    (dir : Text) (sheet : CueSheet) (entries : List DirEntry) {plan : SplitPlan}
    → build_split_plan dir sheet entries ≡ ok plan
    → In (image_name sheet entries) (map (λ e. e.name) entries)
      × (image_name sheet entries ≢ [])
      × (plan.image_path ≡ join dir (image_name sheet entries))
      × (plan.tracks ≡ sheet.tracks)
      × ((cue_name : Text) × (only_name (cue_names entries) ≡ ok cue_name)
          × (plan.cue_path ≡ (if is_nil cue_name then [] else join dir cue_name)))
unfolding build_split_plan
build_split_plan_lem dir sheet entries {plan} h =
    let (cue_name, picked, rest) = >>=-eq-ok (pick_single_cue_file entries) _ h in
    let image = image_name sheet entries in
    let (fine, made) =
      refuse_if-eq-ok (is_nil image || not (entry_exists entries image)) (sentinel image_not_found)
        (ok (record {
          cue_path = if is_nil cue_name then [] else join dir cue_name;
          image_path = join dir image;
          work_dir = dir;
          tracks = sheet.tracks;
          fingerprint = [];
        }))
        rest in
    (
      entry_exists-In entries (image_name sheet entries) (ground arith),
      is_nil-ne (image_name sheet entries) (ground arith),
      ground arith,
      ground arith,
      (cue_name, sym (pick_single_cue_file_lem entries) ∙ picked, ground arith),
    )
