-- ===== src/Fs.antt =====
-- The file system behind package os, as far as internal/app calls it. A place is the list of a
-- path's elements behind a mark that tells absolute paths from relative ones; links are not
-- modelled. `faults` says in order what the operations to come meet: nothing, or an error of the
-- system. A refused operation changes nothing, but a refused RemoveAll may have removed a part.
pub mod Acts
pub mod Lookups
pub mod Keeps
use cuearr.Prelude.{
  ℕ, Text, lit, text_eq, Bool, true, false, not, ◌&&◌, Option, none, some, List, [], ◌∷◌, ◌++◌,
  if◌then◌else◌, is_nil,
}
use cuearr.Filepath.{is_abs, elements}

abbrev pub Place : Type 0
Place = List Text

unfoldable pub place : Text → Place
place path = (if is_abs path then lit "/" else lit ".") ∷ elements path

abbrev pub place_eq : Place → Place → Bool
place_eq [] [] = true
place_eq [] (y ∷ ys) = false
place_eq (x ∷ xs) [] = false
place_eq (x ∷ xs) (y ∷ ys) = let rest = place_eq xs ys in if text_eq x y then rest else false

-- what follows the first place in the second, where that lies at it or below
abbrev pub below? : Place → Place → Option Place
below? [] q = some q
below? (x ∷ p) [] = none
below? (x ∷ p) (y ∷ q) = let rest = below? p q in if text_eq x y then rest else none

abbrev pub is_at_or_below : Place → Place → Bool
is_at_or_below p q = elim (below? p q) [ none ↦ false | some _ ↦ true ]

pub data Node : Type 0 where
  directory : Node
  file : Text → Node

-- An error of the system, and which places a RemoveAll that meets it has removed.
pub record Fault : Type 0 where
  pub errno : Text
  pub cross_device : Bool
  pub removed : Place → Bool

pub record Fs : Type 0 where
  pub nodes : List (Place × Node)
  pub faults : List (Option Fault)

pub data OsError : Type 0 where
  not_exist exists not_directory : OsError
  system : Fault → OsError

abbrev pub node_at : Place → List (Place × Node) → Option Node
node_at p [] = none
node_at p ((q, n) ∷ rest) = let later = node_at p rest in if place_eq p q then some n else later

abbrev pub remove_where : (Place → Bool) → List (Place × Node) → List (Place × Node)
remove_where test [] = []
remove_where test ((q, n) ∷ rest) =
    let later = remove_where test rest in if test q then later else (q, n) ∷ later

abbrev pub moved_entry : Place → Place → Place × Node → Place × Node
moved_entry from to (q, n) = elim (below? from q) [ none ↦ (q, n) | some tail ↦ (to ++ tail, n) ]

-- the entries with the tree at `from` moved to `to`
abbrev pub move_entries : Place → Place → List (Place × Node) → List (Place × Node)
move_entries from to [] = []
move_entries from to (e ∷ rest) = moved_entry from to e ∷ move_entries from to rest

-- the directory and those above it that are not there yet
abbrev pub add_directories : Place → Place → List (Place × Node) → List (Place × Node)
add_directories done [] nodes = nodes
add_directories done (e ∷ es) nodes =
    let here = done ++ (e ∷ []) in
    add_directories here es
      (elim (node_at here nodes) [ some _ ↦ nodes | none ↦ (here, directory) ∷ nodes ])

unfoldable pub next_fault : List (Option Fault) → Option Fault × List (Option Fault)
next_fault [] = (none, [])
next_fault (f ∷ fs) = (f, fs)

-- An operation: none, or the error that it returns, with the file system behind it.
abbrev pub Outcome : Type 0
Outcome = Option OsError × Fs

abbrev pub with_fault :
    Fs
    → (Fault → List (Place × Node))
    → (List (Place × Node) → Option OsError × List (Place × Node))
    → Outcome
with_fault fs on_fault run =
    let (fault, faults) = next_fault fs.faults in
    elim fault [
      | some f ↦ (some (system f), record { nodes = on_fault f; faults = faults })
      | none ↦ let (e, nodes) = run fs.nodes in (e, record { nodes = nodes; faults = faults })
    ]

-- os.RemoveAll; a place that is not there is no error
unfoldable pub remove_all : Text → Fs → Outcome
unfolding next_fault
remove_all path fs =
    with_fault fs (λ f. remove_where (λ q. is_at_or_below (place path) q && f.removed q) fs.nodes)
      (λ nodes. (none, remove_where (is_at_or_below (place path)) nodes))

-- whether one of the places on the way is a file
abbrev pub passes_file : Place → Place → List (Place × Node) → Bool
passes_file done [] nodes = false
passes_file done (e ∷ es) nodes =
    let here = done ++ (e ∷ []) in
    let later = passes_file here es nodes in
    elim (node_at here nodes) [ some (file data') ↦ true | some directory ↦ later | none ↦ later ]

abbrev pub make_directories : Place → List (Place × Node) → Option OsError × List (Place × Node)
make_directories p nodes = elim (node_at p nodes) [
  | some (file data') ↦ (some not_directory, nodes)
  | some directory ↦ (none, nodes)
  | none ↦
      if passes_file [] p nodes
      then (some not_directory, nodes)
      else (none, add_directories [] p nodes)
]

-- os.MkdirAll
unfoldable pub mkdir_all : Text → Fs → Outcome
unfolding next_fault
mkdir_all path fs = with_fault fs (λ f. fs.nodes) (make_directories (place path))

abbrev pub look_for : Place → List (Place × Node) → Option OsError × List (Place × Node)
look_for p nodes = elim (node_at p nodes) [
  | some _ ↦ (none, nodes)
  | none ↦ (some not_exist, nodes)
]

-- os.Stat: none where it succeeds
unfoldable pub stat : Text → Fs → Outcome
unfolding next_fault
stat path fs = with_fault fs (λ f. fs.nodes) (look_for (place path))

-- what is in the way of a rename onto a place; any directory there is
abbrev pub blocked : Option Node → Option Node → Option OsError
blocked none target = some not_exist
blocked (some node) none = none
blocked (some node) (some directory) = some exists
blocked (some directory) (some (file data')) = some not_directory
blocked (some (file data')) (some (file old)) = none

abbrev pub move_tree : Place → Place → List (Place × Node) → Option OsError × List (Place × Node)
move_tree from to nodes = elim (blocked (node_at from nodes) (node_at to nodes)) [
  | some e ↦ (some e, nodes)
  | none ↦ (none, move_entries from to (remove_where (is_at_or_below to) nodes))
]

-- os.Rename: the tree at `from` moves to `to`, over a file there
unfoldable pub rename : Text → Text → Fs → Outcome
unfolding next_fault
rename from to fs = with_fault fs (λ f. fs.nodes) (move_tree (place from) (place to))

-- os.WriteFile, in a directory that is there
unfoldable pub write_file : Text → Text → Fs → Outcome
unfolding next_fault
write_file path data' fs =
    with_fault fs (λ f. fs.nodes)
      (λ nodes. (none, (place path, file data') ∷ remove_where (place_eq (place path)) nodes))

-- an answer of the system, or its error
pub data Answer {ℓ} (A : Type ℓ) : Type ℓ where
  found : A → Answer A
  refused : OsError → Answer A

abbrev answer : {A : Type 0} → Fs → (List (Place × Node) → Answer A) → Answer A × Fs
answer fs look =
    let (fault, faults) = next_fault fs.faults in
    elim fault [
      | some f ↦ (refused (system f), record fs { faults = faults })
      | none ↦ (look fs.nodes, record fs { faults = faults })
    ]

-- os.Stat, with what is at the place
unfoldable pub stat_node : Text → Fs → Answer Node × Fs
unfolding next_fault
stat_node path fs =
    answer fs
      (λ nodes. elim (node_at (place path) nodes) [ some n ↦ found n | none ↦ refused not_exist ])

abbrev is_a_directory : OsError
is_a_directory =
    system (record { errno = lit "is a directory"; cross_device = false; removed = λ q. false })

-- os.ReadFile
unfoldable pub read_file : Text → Fs → Answer Text × Fs
unfolding next_fault
read_file path fs = answer fs (λ nodes. elim (node_at (place path) nodes) [
  | some (file data') ↦ found data'
  | some directory ↦ refused is_a_directory
  | none ↦ refused not_exist
])
