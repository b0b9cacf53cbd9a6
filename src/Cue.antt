-- ===== src/Cue.antt =====
-- internal/domain/cue.go: the CUE sheet and its parser.
-- A Go pointer `cur` to the last track is the last element of `tracks`; it is nil while there is
-- none. bufio.Scanner ends with an error at a line of 64 KiB or more.
pub mod Timing
pub mod Sheets
use cuearr.Prelude.{
  ℕ, zero, suc, ◌+◌, ◌≤◌, Text, lit, text_eq, Bool, true, false, ◌||◌, Option, none, some, List, [],
  ◌∷◌, ◌++◌, leb, ◌==◌, if◌then◌else◌, length, drop, to_upper, trim, trim_space, cut_prefix, split,
  fields, join_with,
}
use cuearr.Errors.{
  Error, Sentinel, multi_file_cue, sentinel, message, quoted, Result, ok, err, ◌>>=◌,
}
use cuearr.Strconv.{atoi}
use cuearr.Prelude.Int.{ℤ}

pub record CueTrack : Type 0 where
  pub number : ℤ
  pub title : Text
  pub performer : Text
  pub index_00 : Text
  pub index_01 : Text

pub record CueSheet : Type 0 where
  pub genre : Text
  pub date : Text
  pub performer : Text
  pub title : Text
  pub file : Text
  pub tracks : List CueTrack

-- the variables of ParseCue
pub record Parser : Type 0 where
  pub sheet : CueSheet
  pub file_seen : Bool

abbrev pub new_track : ℤ → CueTrack
new_track n = record { number = n; title = []; performer = []; index_00 = []; index_01 = [] }

-- `cur.Field = value`
abbrev pub update_last : (CueTrack → CueTrack) → List CueTrack → List CueTrack
update_last f [] = []
update_last f (t ∷ []) = f t ∷ []
update_last f (t ∷ u ∷ ts) = t ∷ update_last f (u ∷ ts)

abbrev pub with_performer : Text → CueTrack → CueTrack
with_performer name t = record t { performer = name }

abbrev pub with_title : Text → CueTrack → CueTrack
with_title name t = record t { title = name }

abbrev pub with_index_00 : Text → CueTrack → CueTrack
with_index_00 val t = record t { index_00 = val }

abbrev pub with_index_01 : Text → CueTrack → CueTrack
with_index_01 val t = record t { index_01 = val }

-- strings.Index
unfoldable pub index : Text → Text → Option ℕ
unfolding cut_prefix
index pattern [] = elim (cut_prefix pattern []) [ some _ ↦ some 0 | none ↦ none ]
index pattern (c ∷ s) = elim (cut_prefix pattern (c ∷ s)) [
  | some _ ↦ some 0
  | none ↦ elim (index pattern s) [ some i ↦ some (suc i) | none ↦ none ]
]

abbrev is_quote : ℕ → Bool
is_quote c = c == b'"'

unfoldable pub unquote_rest : Text → Text → Text
unfolding index to_upper trim_space trim
unquote_rest line keyword = elim (index (to_upper keyword) (to_upper line)) [
  | none ↦ []
  | some i ↦ trim is_quote (trim_space (drop (i + length keyword) line))
]

unfoldable pub unquote_fields : List Text → ℕ → Text
unfolding trim join_with
unquote_fields words from =
    if leb (length words) from then [] else trim is_quote (join_with (lit " ") (drop from words))

-- the loop of parseCueFile behind the opening quote
unfoldable pub quoted_value : Text → Text
quoted_value [] = []
quoted_value (c ∷ []) = if c == b'"' then [] else c ∷ []
quoted_value (c ∷ d ∷ s) =
    let after_escape = quoted_value s in
    let next = quoted_value (d ∷ s) in
    if c == b'"'
    then []
    else if c == b'\\'
    then (if d == b'"' || d == b'\\' then d ∷ after_escape else c ∷ next)
    else c ∷ next

abbrev first_or_empty : List Text → Text
first_or_empty [] = []
first_or_empty (w ∷ ws) = w

unfoldable pub file_value : Text → Text
unfolding quoted_value fields
file_value [] = []
file_value (c ∷ s) = if c == b'"' then quoted_value s else first_or_empty (fields (c ∷ s))

unfoldable pub parse_cue_file : Text → Text
unfolding file_value trim_space
parse_cue_file line = file_value (trim_space (drop 4 line))

unfoldable pub parse_rem : CueSheet → List Text → CueSheet
unfolding unquote_fields to_upper
parse_rem sheet (word ∷ key ∷ rest) =
    if text_eq (to_upper key) (lit "GENRE")
    then record sheet { genre = unquote_fields (word ∷ key ∷ rest) 2 }
    else if text_eq (to_upper key) (lit "DATE")
    then record sheet { date = unquote_fields (word ∷ key ∷ rest) 2 }
    else sheet
parse_rem sheet words = sheet

unfoldable pub set_performer : CueSheet → List CueTrack → Text → CueSheet
set_performer sheet [] name = record sheet { performer = name }
set_performer sheet (t ∷ ts) name = record sheet {
  tracks = update_last (with_performer name) (t ∷ ts);
}

unfoldable pub set_title : CueSheet → List CueTrack → Text → CueSheet
set_title sheet [] name = record sheet { title = name }
set_title sheet (t ∷ ts) name = record sheet { tracks = update_last (with_title name) (t ∷ ts) }

unfoldable pub set_index : CueSheet → Text → Text → CueSheet
set_index sheet idx val =
    if text_eq idx (lit "00")
    then record sheet { tracks = update_last (with_index_00 val) sheet.tracks }
    else if text_eq idx (lit "01")
    then record sheet { tracks = update_last (with_index_01 val) sheet.tracks }
    else sheet

-- `case "TRACK"`
unfoldable pub add_track : Parser → List Text → Result Parser
add_track p (word ∷ number ∷ rest) = elim (atoi number) [
  | none ↦ err (message (lit "invalid track number " ++ quoted number))
  | some n ↦
      ok (record p { sheet = record p.sheet { tracks = p.sheet.tracks ++ (new_track n ∷ []) } })
]
add_track p words = ok p

-- `case "INDEX"`; with no track there is none to update
unfoldable pub add_index : Parser → List Text → Parser
add_index p (word ∷ idx ∷ val ∷ rest) = record p { sheet = set_index p.sheet idx val }
add_index p words = p

-- the cases of the switch on the first word of a line
pub data Keyword : Type 0 where
  rem_line performer_line title_line file_line track_line index_line other_line : Keyword

unfoldable pub keyword : Text → Keyword
unfolding to_upper
keyword word =
    let name = to_upper word in
    if text_eq name (lit "REM")
    then rem_line
    else if text_eq name (lit "PERFORMER")
    then performer_line
    else if text_eq name (lit "TITLE")
    then title_line
    else if text_eq name (lit "FILE")
    then file_line
    else if text_eq name (lit "TRACK")
    then track_line
    else if text_eq name (lit "INDEX")
    then index_line
    else other_line

unfoldable pub dispatch : Keyword → Parser → Text → List Text → Result Parser
dispatch rem_line p line words = ok (record p { sheet = parse_rem p.sheet words })
dispatch performer_line p line words = ok (record p {
  sheet = set_performer p.sheet p.sheet.tracks (unquote_rest line (lit "PERFORMER"));
})
dispatch title_line p line words =
    ok (record p { sheet = set_title p.sheet p.sheet.tracks (unquote_rest line (lit "TITLE")) })
dispatch file_line p line words =
    if p.file_seen
    then err (sentinel multi_file_cue)
    else ok (record { sheet = record p.sheet { file = parse_cue_file line }; file_seen = true })
dispatch track_line p line words = add_track p words
dispatch index_line p line words = ok (add_index p words)
dispatch other_line p line words = ok p

unfoldable pub parse_words : Parser → Text → List Text → Result Parser
parse_words p line [] = ok p
parse_words p line (word ∷ words) = dispatch (keyword word) p line (word ∷ words)

-- bufio.MaxScanTokenSize
abbrev pub max_scan_token_size : ℕ
max_scan_token_size = 65_536

abbrev pub token_too_long : Error
token_too_long = message (lit "bufio.Scanner: token too long")

-- one line of the file, as the scanner hands it over
unfoldable pub parse_line : Parser → Text → Result Parser
parse_line p raw =
    if leb max_scan_token_size (length raw)
    then err token_too_long
    else parse_words p (trim_space raw) (fields (trim_space raw))

unfoldable pub parse_lines : Parser → List Text → Result Parser
parse_lines p [] = ok p
parse_lines p (line ∷ lines) = do q ← parse_line p line; parse_lines q lines

abbrev pub empty_sheet : CueSheet
empty_sheet = record { genre = []; date = []; performer = []; title = []; file = []; tracks = [] }

abbrev pub initial : Parser
initial = record { sheet = empty_sheet; file_seen = false }

unfoldable pub parse_cue : Text → Result CueSheet
parse_cue data' = do p ← parse_lines initial (split b'\n' data'); ok p.sheet
