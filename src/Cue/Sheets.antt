-- ===== src/Cue/Sheets.antt =====
-- internal/domain/cue.go: what ParseCue reads from the lines of a sheet.
pub mod Quoting
use cuearr.Prelude.{
  ℕ, zero, suc, ◌+◌, ◌≤◌, ◌≡◌, refl, ◌∙◌, sym, ap, Text, lit, Bool, true, false, Option, none, some,
  List, [], ◌∷◌, ◌++◌, map, if◌then◌else◌, arith, length, split, fields, trim_space, is_nil,
  Option-cases, Bool-cases, inl, inr, leb, text_eq, length-append,
}
use mathlib.Core.Path.{subst}
use mathlib.Core.List.{append-nil, append_assoc, map-append}
use cuearr.Prelude.Int.{ℤ}
use cuearr.Strconv.{atoi}
use cuearr.Errors.{Result, ok, err, ◌>>=◌, >>=-eq-ok}
use cuearr.Cue.{
  CueTrack, CueSheet, Parser, new_track, update_last, with_performer, with_title, with_index_00,
  with_index_01, parse_rem, set_performer, set_title, set_index, add_track, add_index, Keyword,
  rem_line, performer_line, title_line, file_line, track_line, index_line, other_line, keyword,
  dispatch, parse_words, parse_line, parse_lines, max_scan_token_size, initial, parse_cue,
  unquote_rest, parse_cue_file,
}

abbrev pub numbers : List CueTrack → List ℤ
numbers = map (λ t. t.number)

abbrev as_list : Option ℤ → List ℤ
as_list none = []
as_list (some n) = n ∷ []

-- The track numbers that the words of one line announce.
abbrev announced : Keyword → List Text → List ℤ
announced track_line (word ∷ number ∷ rest) = as_list (atoi number)
announced k words = []

abbrev is_file : Keyword → ℕ
is_file file_line = 1
is_file k = 0

abbrev announced_words : List Text → List ℤ
announced_words [] = []
announced_words (word ∷ words) = announced (keyword word) (word ∷ words)

abbrev file_words : List Text → ℕ
file_words [] = 0
file_words (word ∷ words) = is_file (keyword word)

-- The track numbers of the TRACK lines that give one, in their order; a bare TRACK line gives none.
abbrev pub track_numbers : List Text → List ℤ
track_numbers [] = []
track_numbers (line ∷ lines) = announced_words (fields (trim_space line)) ++ track_numbers lines

-- How many lines are FILE lines.
abbrev pub file_lines : List Text → ℕ
file_lines [] = 0
file_lines (line ∷ lines) = file_words (fields (trim_space line)) + file_lines lines

numbers-update_last :
    (f : CueTrack → CueTrack) (ts : List CueTrack)
    → ((t : CueTrack) → (f t).number ≡ t.number)
    → numbers (update_last f ts) ≡ numbers ts
numbers-update_last f [] h = refl
numbers-update_last f (t ∷ []) h = rw (h t)
numbers-update_last f (t ∷ u ∷ ts) h = rw (numbers-update_last f (u ∷ ts) h)

module _ (sheet : CueSheet) (text : Text) where
  numbers-set_performer :
      (ts : List CueTrack)
      → sheet.tracks ≡ ts
      → numbers (set_performer sheet ts text).tracks ≡ numbers ts
  unfolding set_performer
  numbers-set_performer [] e = ap numbers e
  numbers-set_performer (t ∷ ts) e = numbers-update_last (with_performer text) (t ∷ ts) (λ u. refl)

  numbers-set_title :
      (ts : List CueTrack)
      → sheet.tracks ≡ ts
      → numbers (set_title sheet ts text).tracks ≡ numbers ts
  unfolding set_title
  numbers-set_title [] e = ap numbers e
  numbers-set_title (t ∷ ts) e = numbers-update_last (with_title text) (t ∷ ts) (λ u. refl)

  numbers-set_index :
      (idx : Text) → numbers (set_index sheet idx text).tracks ≡ numbers sheet.tracks
  unfolding set_index
  numbers-set_index idx = elim (Bool-cases (text_eq idx (lit "00"))) [
    | inl first ↦ rw first (numbers-update_last (with_index_00 text) sheet.tracks (λ u. refl))
    | inr other ↦ elim (Bool-cases (text_eq idx (lit "01"))) [
      | inl second ↦
          rw (other, second) (numbers-update_last (with_index_01 text) sheet.tracks (λ u. refl))
      | inr neither ↦ rw (other, neither) refl
    ]
  ]

tracks-parse_rem :
    (sheet : CueSheet) (words : List Text) → (parse_rem sheet words).tracks ≡ sheet.tracks
unfolding parse_rem
tracks-parse_rem sheet [] = refl
tracks-parse_rem sheet (word ∷ []) = refl
tracks-parse_rem sheet (word ∷ key ∷ rest) = ground arith

abbrev seen : Parser → ℕ
seen p = if p.file_seen then 1 else 0

-- One line: the numbers grow by those that it announces, and a second FILE line is refused.
record Grows (p q : Parser) (k : Keyword) (words : List Text) : Type 0 where
  tracks : numbers q.sheet.tracks ≡ numbers p.sheet.tracks ++ announced k words
  files : seen p + is_file k ≡ seen q

Grows-same :
    (p q : Parser) (k : Keyword) (words : List Text)
    → numbers q.sheet.tracks ≡ numbers p.sheet.tracks
    → announced k words ≡ []
    → is_file k ≡ 0
    → p.file_seen ≡ q.file_seen
    → Grows p q k words
Grows-same p q k words same nothing no_file flag = record {
  tracks = rw nothing (same ∙ sym (append-nil (numbers p.sheet.tracks)));
  files = rw (no_file, flag) (omega arith);
}

Grows-ok :
    {p r q : Parser} (k : Keyword) (words : List Text)
    → ok r ≡ ok q
    → Grows p r k words
    → Grows p q k words
Grows-ok {p} k words e g = subst (λ x. Grows p x k words) (cc) g

add_track-Grows :
    (p : Parser) (words : List Text) {q : Parser}
    → add_track p words ≡ ok q
    → Grows p q track_line words
unfolding add_track
add_track-Grows p [] h = Grows-ok track_line [] h (Grows-same p p track_line [] refl refl refl refl)
add_track-Grows p (w ∷ []) h =
    Grows-ok track_line (w ∷ []) h (Grows-same p p track_line (w ∷ []) refl refl refl refl)
add_track-Grows p (w ∷ number ∷ rest) h = elim (Option-cases (atoi number)) [
  | inl bad ↦ absurd (ground arith)
  | inr (n, good) ↦ Grows-ok track_line (w ∷ number ∷ rest) (rw (good, add_track) at h) (record {
    tracks = rw good (map-append _ p.sheet.tracks (new_track n ∷ []));
    files = omega arith;
  })
]

add_index-Grows : (p : Parser) (words : List Text) → Grows p (add_index p words) index_line words
unfolding add_index
add_index-Grows p [] = Grows-same p p index_line [] refl refl refl refl
add_index-Grows p (w ∷ []) = Grows-same p p index_line (w ∷ []) refl refl refl refl
add_index-Grows p (w ∷ i ∷ []) = Grows-same p p index_line (w ∷ i ∷ []) refl refl refl refl
add_index-Grows p (w ∷ i ∷ val ∷ rest) =
    Grows-same p _ index_line (w ∷ i ∷ val ∷ rest) (numbers-set_index p.sheet val i) refl refl refl

dispatch-Grows :
    (k : Keyword) (p : Parser) (line : Text) (words : List Text) {q : Parser}
    → dispatch k p line words ≡ ok q
    → Grows p q k words
unfolding dispatch
dispatch-Grows rem_line p line words h =
    Grows-ok rem_line words h
      (Grows-same p _ rem_line words (ap numbers (tracks-parse_rem p.sheet words)) refl refl refl)
dispatch-Grows performer_line p line words h =
    Grows-ok performer_line words h
      (Grows-same p _ performer_line words (numbers-set_performer p.sheet _ _ refl) refl refl refl)
dispatch-Grows title_line p line words h =
    Grows-ok title_line words h
      (Grows-same p _ title_line words (numbers-set_title p.sheet _ _ refl) refl refl refl)
dispatch-Grows file_line p line words h = elim (Bool-cases p.file_seen) [
  | inl again ↦ absurd (ground arith)
  | inr fresh ↦
      Grows-ok file_line words (rw fresh at h)
        (record { tracks = sym (append-nil (numbers p.sheet.tracks)); files = ground arith })
]
dispatch-Grows track_line p line words h = add_track-Grows p words h
dispatch-Grows index_line p line words h = Grows-ok index_line words h (add_index-Grows p words)
dispatch-Grows other_line p line words h =
    Grows-ok other_line words h (Grows-same p p other_line words refl refl refl refl)

record GrowsBy (p q : Parser) (announced_numbers : List ℤ) (files_read : ℕ) : Type 0 where
  tracks : numbers q.sheet.tracks ≡ numbers p.sheet.tracks ++ announced_numbers
  files : seen p + files_read ≡ seen q

GrowsBy-refl : {p q : Parser} → ok p ≡ ok q → GrowsBy p q [] 0
GrowsBy-refl {p} e =
    subst (λ r. GrowsBy p r [] 0) {x = p} (cc)
      (record { tracks = sym (append-nil (numbers p.sheet.tracks)); files = omega arith })

parse_words-GrowsBy :
    (p : Parser) (line : Text) (words : List Text) {q : Parser}
    → parse_words p line words ≡ ok q
    → GrowsBy p q (announced_words words) (file_words words)
unfolding parse_words
parse_words-GrowsBy p line [] h = GrowsBy-refl h
parse_words-GrowsBy p line (word ∷ words) h =
    let g = dispatch-Grows (keyword word) p line (word ∷ words) h in
    record { tracks = g.tracks; files = g.files }

parse_line-GrowsBy :
    (p : Parser) (raw : Text) {q : Parser}
    → parse_line p raw ≡ ok q
    → GrowsBy p q (announced_words (fields (trim_space raw))) (file_words (fields (trim_space raw)))
unfolding parse_line
parse_line-GrowsBy p raw h = elim (Bool-cases (leb max_scan_token_size (length raw))) [
  | inl long ↦ absurd (ground arith)
  | inr fits ↦ parse_words-GrowsBy p _ _ (rw (fits, parse_line) at h)
]

parse_lines-GrowsBy :
    (p : Parser) (lines : List Text) {q : Parser}
    → parse_lines p lines ≡ ok q
    → GrowsBy p q (track_numbers lines) (file_lines lines)
unfolding parse_lines
parse_lines-GrowsBy p [] h = GrowsBy-refl h
parse_lines-GrowsBy p (line ∷ lines) h =
    let (r, now, later) = >>=-eq-ok (parse_line p line) _ h in
    let g = parse_line-GrowsBy p line now in
    let rest = parse_lines-GrowsBy r lines later in
    record {
      tracks =
          rest.tracks
          ∙ ap (λ ns. ns ++ track_numbers lines) g.tracks
          ∙ append_assoc (numbers p.sheet.tracks) _ _;
      files = omega (arith, g.files, rest.files);
    }

seen-le : (p : Parser) → seen p ≤ 1
seen-le p = ground arith

-- Of a sheet that is accepted the tracks carry, in their order, the numbers of those TRACK lines that
-- give a number: one track for each such line, and none for a bare TRACK line. At most one of its
-- lines is a FILE line.
pub parse_cue_tracks :
    (data' : Text) (sheet : CueSheet)
    → parse_cue data' ≡ ok sheet
    → (numbers sheet.tracks ≡ track_numbers (split b'\n' data'))
      × (file_lines (split b'\n' data') ≤ 1)
unfolding parse_cue
parse_cue_tracks data' sheet h =
    let (q, read, e) = >>=-eq-ok (parse_lines initial (split b'\n' data')) _ h in
    let g = parse_lines-GrowsBy initial (split b'\n' data') read in
    let same : sheet ≡ q.sheet = cc in
    (ap (λ (s : CueSheet). numbers s.tracks) same ∙ g.tracks, omega (arith, g.files, seen-le q))
