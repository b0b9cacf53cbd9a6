-- ===== src/Fs/Keeps.antt =====
-- Operations and actions that leave the tree at a place as it is.
use mathlib.Core.Path.{subst}
use mathlib.Core.List.{append_assoc}
use cuearr.Prelude.{
  inl, inr, ◌≡◌, refl, sym, ap, ◌∙◌, Text, true, false, Bool-cases, Option, none, some,
  Option-cases, List, [], ◌∷◌, ◌++◌, arith, ◌&&◌,
}
use cuearr.Fs.{
  Fs, Fault, Place, place, place_eq, below?, is_at_or_below, Node, directory, file, node_at,
  remove_where, move_entries, add_directories, Outcome, OsError, not_exist, system, next_fault,
  with_fault, remove_all, mkdir_all, stat, rename, write_file, blocked, passes_file,
  make_directories, look_for, move_tree,
}
use cuearr.Fs.Lookups.{
  Apart, below?-append, below?-apart, node_at-remove_where, node_at-move_entries_other,
  node_at-move_entries, place_eq_iff,
}

-- The tree at the place is the same in both lists of entries.
abbrev pub Same : Place → List (Place × Node) → List (Place × Node) → Type 0
Same p nodes nodes' = (tail : Place) → node_at (p ++ tail) nodes' ≡ node_at (p ++ tail) nodes

abbrev pub Keeps : Place → (Fs → Outcome) → Type 0
Keeps p op = (fs : Fs) → Same p fs.nodes (op fs).1.nodes

below_elsewhere : (p q tail : Place) → Apart p q → is_at_or_below p (q ++ tail) ≡ false
below_elsewhere p q tail a = ground (arith, below?-apart p q tail)

-- What an operation does: it meets a fault, or it runs.
operation :
    (P : Outcome → Type 0) (nodes : List (Place × Node)) (faults : List (Option Fault))
    (on_fault : Fault → List (Place × Node))
    (run : List (Place × Node) → Option OsError × List (Place × Node))
    → ((f : Fault) (later : List (Option Fault))
        → P (some (system f), record { nodes = on_fault f; faults = later }))
    → ((later : List (Option Fault))
        → P ((run nodes).0, record { nodes = (run nodes).1; faults = later }))
    → P (with_fault (record { nodes = nodes; faults = faults }) on_fault run)
unfolding next_fault
operation P nodes [] on_fault run meets runs = runs []
operation P nodes (none ∷ faults) on_fault run meets runs = runs faults
operation P nodes (some f ∷ faults) on_fault run meets runs = meets f faults

abbrev Unmoved : Place → List (Place × Node) → Outcome → Type 0
Unmoved p nodes outcome = Same p nodes outcome.1.nodes

pub remove_all-Keeps : (p : Place) (path : Text) → Apart (place path) p → Keeps p (remove_all path)
unfolding remove_all
remove_all-Keeps p path a fs =
    operation (Unmoved p fs.nodes) fs.nodes fs.faults
      (λ f. remove_where (λ q. is_at_or_below (place path) q && f.removed q) fs.nodes)
      (λ nodes. (none, remove_where (is_at_or_below (place path)) nodes))
      (λ f later tail.
        node_at-remove_where (λ q. is_at_or_below (place path) q && f.removed q) (p ++ tail)
          fs.nodes (rw (below_elsewhere (place path) p tail a) refl))
      (λ later tail.
        node_at-remove_where (is_at_or_below (place path)) (p ++ tail) fs.nodes
          (below_elsewhere (place path) p tail a))

looked : (p : Place) (nodes : List (Place × Node)) → (look_for p nodes).1 ≡ nodes
looked p nodes = elim (Option-cases (node_at p nodes)) [
  | inl k ↦ rw (k, look_for) refl
  | inr (n, k) ↦ rw (k, look_for) refl
]

pub stat-Keeps : (p : Place) (path : Text) → Keeps p (stat path)
unfolding stat
stat-Keeps p path fs =
    operation (Unmoved p fs.nodes) fs.nodes fs.faults (λ f. fs.nodes) (look_for (place path))
      (λ f later tail. refl) (λ later tail. ap (node_at (p ++ tail)) (looked (place path) fs.nodes))

-- Stat says that nothing is there only where nothing is there.
pub stat-not_exist :
    (path : Text) (fs : Fs)
    → (stat path fs).0 ≡ some not_exist
    → node_at (place path) fs.nodes ≡ none
unfolding stat
stat-not_exist path fs =
    operation (λ outcome. outcome.0 ≡ some not_exist → node_at (place path) fs.nodes ≡ none)
      fs.nodes fs.faults (λ f. fs.nodes) (look_for (place path))
      (λ f later h. absurd (ground arith))
      (λ later h. elim (Option-cases (node_at (place path) fs.nodes)) [
        | inl k ↦ k
        | inr (n, k) ↦ absurd (ground arith)
      ])

differs_from : (p q tail : Place) → Apart p q → place_eq p (q ++ tail) ≡ false
differs_from p q tail a = elim (Bool-cases (place_eq p (q ++ tail))) [
  | inr other ↦ other
  | inl same ↦
      absurd
        (ground (arith, below?-append q tail, ap (below? q) ((place_eq_iff p (q ++ tail)).0 same)))
]

differs_sym : (p q tail : Place) → Apart p q → place_eq (q ++ tail) p ≡ false
differs_sym p q tail a = elim (Bool-cases (place_eq (q ++ tail) p)) [
  | inr other ↦ other
  | inl same ↦
      absurd
        (ground (arith, below?-append q tail, ap (below? q) ((place_eq_iff (q ++ tail) p).0 same)))
]

pub write_file-Keeps :
    (p : Place) (path contents : Text) → Apart (place path) p → Keeps p (write_file path contents)
unfolding write_file
write_file-Keeps p path contents a fs =
    operation (Unmoved p fs.nodes) fs.nodes fs.faults (λ f. fs.nodes)
      (λ nodes. (none, (place path, file contents) ∷ remove_where (place_eq (place path)) nodes))
      (λ f later tail. refl)
      (λ later tail. rw (differs_sym (place path) p tail a) (
        node_at-remove_where (place_eq (place path)) (p ++ tail) fs.nodes
          (differs_from (place path) p tail a)))

-- What a rename does to the trees apart from it, and where the moved tree is.
pub record Renames (from to : Place) (nodes : List (Place × Node)) (outcome : Outcome)
    : Type 0 where
  pub refused : (e : OsError) → outcome.0 ≡ some e → outcome.1.nodes ≡ nodes
  pub moved :
      Apart from to
      → outcome.0 ≡ none
      → (tail : Place) → node_at (to ++ tail) outcome.1.nodes ≡ node_at (from ++ tail) nodes
  pub others : (p : Place) → Apart from p → Apart to p → Same p nodes outcome.1.nodes

moved-other :
    (from to p tail : Place) (nodes : List (Place × Node))
    → Apart from p
    → Apart to p
    → node_at (p ++ tail) (move_entries from to (remove_where (is_at_or_below to) nodes))
      ≡ node_at (p ++ tail) nodes
moved-other from to p tail nodes a b =
    node_at-move_entries_other from to (p ++ tail) _ (below?-apart from p tail a.0 a.1)
      (below?-apart to p tail b.0 b.1)
    ∙ node_at-remove_where (is_at_or_below to) (p ++ tail) nodes (below_elsewhere to p tail b)

renamed :
    (from to : Place) (nodes : List (Place × Node)) (later : List (Option Fault))
    → Renames from to nodes (
      (move_tree from to nodes).0,
      record { nodes = (move_tree from to nodes).1; faults = later },
    )
renamed from to nodes later =
    elim (Option-cases (blocked (node_at from nodes) (node_at to nodes))) [
      | inr (x, k) ↦
          rw (k, move_tree)
            (record {
              refused = λ e h. refl;
              moved = λ a h. absurd (ground arith);
              others = λ p h k tail. refl;
            })
      | inl k ↦
          rw (k, move_tree)
            (record {
              refused = λ e h. absurd (ground arith);
              moved = λ a h tail. node_at-move_entries from to tail nodes a;
              others = λ p h k tail. moved-other from to p tail nodes h k;
            })
    ]

pub rename-Renames :
    (from to : Text) (fs : Fs) → Renames (place from) (place to) fs.nodes (rename from to fs)
unfolding rename
rename-Renames from to fs =
    operation (Renames (place from) (place to) fs.nodes) fs.nodes fs.faults (λ f. fs.nodes)
      (move_tree (place from) (place to))
      (λ f later. record {
        refused = λ e h. refl;
        moved = λ a h. absurd (ground arith);
        others = λ p h k tail. refl;
      })
      (λ later. renamed (place from) (place to) fs.nodes later)

below?-under : (p tail es : Place) → is_at_or_below p ((p ++ tail) ++ es) ≡ true
below?-under p tail es =
    subst (λ q. is_at_or_below p q ≡ true) (sym (append_assoc p tail es))
      (rw (below?-append p (tail ++ es), is_at_or_below) refl)

added_directories :
    (p done es : Place) (nodes : List (Place × Node))
    → is_at_or_below p (done ++ es) ≡ false
    → Same p nodes (add_directories done es nodes)
added_directories p done [] nodes h tail = refl
added_directories p done (e ∷ es) nodes h tail =
    let here = done ++ (e ∷ []) in
    let regroup = append_assoc done (e ∷ []) es in
    let ne =
      elim (Bool-cases (place_eq (p ++ tail) here)) as (λ _. place_eq (p ++ tail) here ≡ false) [
        | inr other ↦ other
        | inl same ↦ absurd (
            ground (
              arith,
              below?-under p tail es,
              ap (λ q. is_at_or_below p (q ++ es)) ((place_eq_iff (p ++ tail) here).0 same),
              subst (λ q. is_at_or_below p q ≡ false) (sym regroup) h,
            ))
      ] in
    elim (Option-cases (node_at here nodes)) [
      | inr (n, k) ↦ rw k (
          added_directories p here es nodes
            (subst (λ q. is_at_or_below p q ≡ false) (sym regroup) h) tail)
      | inl k ↦ rw k (
          added_directories p here es ((here, directory) ∷ nodes)
            (subst (λ q. is_at_or_below p q ≡ false) (sym regroup) h) tail
          ∙ rw ne refl)
    ]

made_directory :
    (p q : Place) (nodes : List (Place × Node))
    → is_at_or_below p q ≡ false
    → Same p nodes (make_directories q nodes).1
made_directory p q nodes h tail = elim (Option-cases (node_at q nodes)) [
  | inl k ↦ elim (Bool-cases (passes_file [] q nodes)) [
    | inl through ↦ rw (k, through, make_directories) refl
    | inr clear ↦ rw (k, clear, make_directories) (added_directories p [] q nodes h tail)
  ]
  | inr (directory, k) ↦ rw (k, make_directories) refl
  | inr (file contents, k) ↦ rw (k, make_directories) refl
]

pub mkdir_all-Keeps :
    (p : Place) (path : Text) → is_at_or_below p (place path) ≡ false → Keeps p (mkdir_all path)
unfolding mkdir_all
mkdir_all-Keeps p path a fs =
    operation (Unmoved p fs.nodes) fs.nodes fs.faults (λ f. fs.nodes)
      (make_directories (place path)) (λ f later tail. refl)
      (λ later. made_directory p (place path) fs.nodes a)

pub rename-Keeps :
    (p : Place) (from to : Text)
    → Apart (place from) p
    → Apart (place to) p
    → Keeps p (rename from to)
rename-Keeps p from to a b fs = (rename-Renames from to fs).others p a b
