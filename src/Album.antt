-- ===== src/Album.antt =====
-- internal/domain/album.go and internal/app/detect.go: an album directory becomes a split plan.
-- SHA-256 is a parameter: its digest as lower-case hexadecimal text.
pub mod Plan
use cuearr.Prelude.{
  ℕ, Text, lit, text_eq, Bool, true, false, not, ◌||◌, List, [], ◌∷◌, ◌++◌, if◌then◌else◌, is_nil,
  to_lower, has_suffix,
}
use cuearr.Prelude.Int.{ℤ, pos}
use cuearr.Strconv.{itoa}
use cuearr.Errors.{
  Error, Sentinel, image_not_found, ambiguous_cue, sentinel, Result, ok, err, ◌>>=◌, ◌>>◌,
  refuse_if,
}
use cuearr.Filepath.{join}
use cuearr.Cue.{CueTrack, CueSheet, parse_cue}

pub record DirEntry : Type 0 where
  pub name : Text

pub record FileStat : Type 0 where
  pub size : ℤ
  pub mod_time_unix_nano : ℤ

pub record ImageIdentity : Type 0 where
  pub size : ℤ
  pub mod_time_unix_nano : ℤ
  pub content_sha256 : Text

pub record SplitPlan : Type 0 where
  pub cue_path : Text
  pub image_path : Text
  pub work_dir : Text
  pub tracks : List CueTrack
  pub fingerprint : Text

abbrev pub is_cue_name : Text → Bool
is_cue_name name = has_suffix (to_lower name) (lit ".cue")

abbrev pub is_audio_name : Text → Bool
is_audio_name name =
    has_suffix (to_lower name) (lit ".flac")
    || has_suffix (to_lower name) (lit ".wav")
    || has_suffix (to_lower name) (lit ".ape")

-- the loop of PickSingleCueFile, with the name found so far
unfoldable pub pick_cue_from : Text → List DirEntry → Result Text
pick_cue_from cue_name [] = ok cue_name
pick_cue_from cue_name (e ∷ entries) =
    let skip = pick_cue_from cue_name entries in
    let take_it = pick_cue_from e.name entries in
    if is_cue_name e.name
    then (if is_nil cue_name then take_it else err (sentinel ambiguous_cue))
    else skip

unfoldable pub pick_single_cue_file : List DirEntry → Result Text
pick_single_cue_file = pick_cue_from []

unfoldable pub entry_exists : List DirEntry → Text → Bool
entry_exists [] name = false
entry_exists (e ∷ entries) name =
    let rest = entry_exists entries name in if text_eq e.name name then true else rest

unfoldable pub candidates : List DirEntry → List Text
candidates [] = []
candidates (e ∷ entries) =
    let rest = candidates entries in if is_audio_name e.name then e.name ∷ rest else rest

abbrev pub single : List Text → Text
single (name ∷ []) = name
single names = []

unfoldable pub pick_single_audio : List DirEntry → Text
pick_single_audio entries = single (candidates entries)

abbrev pub image_name : CueSheet → List DirEntry → Text
image_name sheet entries = if is_nil sheet.file then pick_single_audio entries else sheet.file

unfoldable pub build_split_plan : Text → CueSheet → List DirEntry → Result SplitPlan
build_split_plan dir sheet entries = do
  cue_name ← pick_single_cue_file entries
  let image = image_name sheet entries
  refuse_if (is_nil image || not (entry_exists entries image)) (sentinel image_not_found)
  ok (record {
    cue_path = if is_nil cue_name then [] else join dir cue_name;
    image_path = join dir image;
    work_dir = dir;
    tracks = sheet.tracks;
    fingerprint = [];
  })

-- The functions that DetectAlbum is given, and the hash. A cancelled context ends it early; here the
-- context stays alive.
pub record AlbumReader : Type 0 where
  pub list_dir : Text → Result (List DirEntry)
  pub read_file : Text → Result Text
  pub stat_file : Text → Result FileStat
  pub hash_file : Text → Result Text
  pub sha256_hex : Text → Text

module _ (reader : AlbumReader) where
  open reader use {list_dir, read_file, stat_file, hash_file, sha256_hex}

  -- the text that is hashed: the six parts with bars between them
  unfoldable pub fingerprint_payload : Text → Text → Text → ImageIdentity → Text
  fingerprint_payload cue_path image_path cue_bytes img =
      cue_path
      ++ (lit "|"
          ++ (image_path
              ++ (lit "|"
                  ++ (sha256_hex cue_bytes
                      ++ (lit "|"
                          ++ (itoa img.size
                              ++ (lit "|"
                                  ++ (itoa img.mod_time_unix_nano
                                      ++ (lit "|" ++ img.content_sha256)))))))))

  unfoldable pub fingerprint : Text → Text → Text → ImageIdentity → Text
  fingerprint cue_path image_path cue_bytes img =
      sha256_hex (fingerprint_payload cue_path image_path cue_bytes img)

  unfoldable pub image_identity : Text → Result ImageIdentity
  image_identity path = do
    st ← stat_file path
    hash ← hash_file path
    ok (record {
      size = st.size;
      mod_time_unix_nano = st.mod_time_unix_nano;
      content_sha256 = hash;
    })

  unfoldable pub detect_album : Text → Result SplitPlan
  detect_album dir = do
    entries ← list_dir dir
    cue_name ← pick_single_cue_file entries
    refuse_if (is_nil cue_name) (sentinel image_not_found)
    cue_bytes ← read_file (join dir cue_name)
    sheet ← parse_cue cue_bytes
    plan ← build_split_plan dir sheet entries
    img ← image_identity plan.image_path
    ok (record plan { fingerprint = fingerprint plan.cue_path plan.image_path cue_bytes img })
