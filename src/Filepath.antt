-- ===== src/Filepath.antt =====
-- path/filepath on Unix, as far as the program calls it: Clean, Join, Dir, Base, Ext and IsAbs.
use cuearr.Prelude.{
  ◌≡◌, refl, Text, lit, text_eq, Bool, false, ◌||◌, List, [], ◌∷◌, ◌++◌, ◌==◌, if◌then◌else◌,
  reverse, split, join_with, is_nil,
}

unfoldable pub is_abs : Text → Bool
is_abs [] = false
is_abs (c ∷ s) = c == b'/'

abbrev is_dot : Text → Bool
is_dot t = text_eq t (lit ".")

abbrev is_dot_dot : Text → Bool
is_dot_dot t = text_eq t (lit "..")

-- `..` goes back to the parent, stays at the root, and is kept at the start of a relative path
go_up : Bool → List Text → List Text
go_up rooted [] = if rooted then [] else lit ".." ∷ []
go_up rooted (top ∷ below) = if is_dot_dot top then lit ".." ∷ top ∷ below else below

-- one element, on the stack of the elements before it
push_element : Bool → List Text → Text → List Text
unfolding go_up
push_element rooted stack element =
    if is_nil element || is_dot element
    then stack
    else if is_dot_dot element
    then go_up rooted stack
    else element ∷ stack

push_elements : Bool → List Text → List Text → List Text
unfolding push_element
push_elements rooted stack [] = stack
push_elements rooted stack (e ∷ es) = push_elements rooted (push_element rooted stack e) es

-- the elements of a path, without empty ones and dots
unfoldable pub elements : Text → List Text
unfolding is_abs push_elements split
elements path = reverse (push_elements (is_abs path) [] (split b'/' path))

abbrev or_dot : Text → Text
or_dot [] = lit "."
or_dot (c ∷ s) = c ∷ s

unfoldable pub clean : Text → Text
unfolding elements join_with
clean path =
    if is_abs path
    then b'/' ∷ join_with (lit "/") (elements path)
    else or_dot (join_with (lit "/") (elements path))

-- filepath.Join of two parts; empty parts are ignored
unfoldable pub join : Text → Text → Text
unfolding clean
join [] [] = []
join [] (c ∷ s) = clean (c ∷ s)
join (c ∷ s) name = clean ((c ∷ s) ++ (b'/' ∷ name))

-- what stands up to the last slash, with it, and what stands behind it
split_last : Text → Text × Text
split_last [] = ([], [])
split_last (c ∷ s) =
    let (before, after) = split_last s in
    if c == b'/'
    then (c ∷ before, after)
    else if is_nil before
    then ([], c ∷ after)
    else (c ∷ before, after)

unfoldable pub dir : Text → Text
unfolding split_last clean
dir path = clean (split_last path).0

-- the text without the slashes at its end, from its reverse
drop_slashes : Text → Text
drop_slashes [] = []
drop_slashes (c ∷ s) = let rest = drop_slashes s in if c == b'/' then rest else c ∷ s

abbrev or_slash : Text → Text
or_slash [] = lit "/"
or_slash (c ∷ s) = c ∷ s

unfoldable pub base : Text → Text
unfolding split_last drop_slashes
base [] = lit "."
base (c ∷ s) = or_slash (split_last (reverse (drop_slashes (reverse (c ∷ s))))).1

-- the suffix from the last dot of the reversed last element on, or nothing
ext_of : Text → Text → Text
ext_of seen [] = []
ext_of seen (c ∷ s) =
    let rest = ext_of (c ∷ seen) s in if c == b'/' then [] else if c == b'.' then c ∷ seen else rest

unfoldable pub ext : Text → Text
unfolding ext_of
ext path = ext_of [] (reverse path)

path_examples :
    (clean (lit "/a//b/./../c/") ≡ lit "/a/c")
    × (join (lit "/out") (lit "f1") ≡ lit "/out/f1")
    × (dir (lit "/out/f1") ≡ lit "/out")
    × (base (lit "/out/f1") ≡ lit "f1")
    × (dir (lit "f1") ≡ lit ".")
    × (base (lit "/") ≡ lit "/")
    × (ext (lit "/a.b/x.WAV") ≡ lit ".WAV")
    × (dir (lit "/f1") ≡ lit "/")
    × (clean (lit "../x/../..") ≡ lit "../..")
unfolding clean join dir base ext
path_examples = (refl, refl, refl, refl, refl, refl, refl, refl, refl)
