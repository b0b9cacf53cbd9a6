-- ===== src/Fs/Lookups.antt =====
-- What lies at a place after the operations of the file system: removals and moves elsewhere do not
-- change it, and a moved tree is found again at its new place.
use mathlib.Core.Path.{subst}
use cuearr.Prelude.{
  inl, inr, ◌≡◌, refl, sym, ap, ◌∙◌, text_eq, text_eq_iff, text_eq_refl, Bool, true, false,
  Bool-cases, none, some, Option-cases, List, [], ◌∷◌, ◌++◌, arith, ◌↔◌,
}
use cuearr.Fs.{
  Place, place_eq, below?, is_at_or_below, Node, node_at, remove_where, moved_entry, move_entries,
}

pub place_eq_iff : (p q : Place) → (place_eq p q ≡ true) ↔ (p ≡ q)
place_eq_iff [] [] = (λ _. refl, λ _. refl)
place_eq_iff [] (y ∷ q) = (λ h. cc, λ h. cc)
place_eq_iff (x ∷ p) [] = (λ h. cc, λ h. cc)
place_eq_iff (x ∷ p) (y ∷ q) = ground (arith, place_eq_iff p q, text_eq_iff x y)

pub place_eq_refl : (p : Place) → place_eq p p ≡ true
place_eq_refl p = (place_eq_iff p p).1 refl

-- Neither place lies at or below the other.
abbrev pub Apart : Place → Place → Type 0
Apart p q = (is_at_or_below p q ≡ false) × (is_at_or_below q p ≡ false)

pub below?-append : (p tail : Place) → below? p (p ++ tail) ≡ some tail
below?-append [] tail = refl
below?-append (x ∷ p) tail = rw (text_eq_refl x, below?-append p tail) refl

pub below?_sound : (p q : Place) {tail : Place} → below? p q ≡ some tail → q ≡ p ++ tail
below?_sound [] q h = ground arith
below?_sound (x ∷ p) [] h = cc
below?_sound (x ∷ p) (y ∷ q) {tail} h = elim (Bool-cases (text_eq x y)) [
  | inl same ↦ ground (arith, text_eq_iff x y, below?_sound p q {tail = tail} (ground arith))
  | inr other ↦ absurd (ground arith)
]

-- A place apart from another is apart from all below it.
pub below?-apart :
    (p q tail : Place)
    → is_at_or_below p q ≡ false
    → is_at_or_below q p ≡ false
    → below? p (q ++ tail) ≡ none
below?-apart [] q tail h k = absurd (ground arith)
below?-apart (x ∷ p) [] tail h k = absurd (ground arith)
below?-apart (x ∷ p) (y ∷ q) tail h k = elim (Bool-cases (text_eq x y)) [
  | inl same ↦
      rw same
        (below?-apart p q tail (ground arith) (ground (arith, text_eq_iff x y, text_eq_refl y)))
  | inr other ↦ rw other refl
]

pub node_at-remove_where :
    (test : Place → Bool) (q : Place) (nodes : List (Place × Node))
    → test q ≡ false
    → node_at q (remove_where test nodes) ≡ node_at q nodes
node_at-remove_where test q [] h = refl
node_at-remove_where test q ((r, n) ∷ nodes) h = elim (Bool-cases (test r)) [
  | inr keep ↦ rw (keep, node_at-remove_where test q nodes h) refl
  | inl drop ↦ elim (Bool-cases (place_eq q r)) [
    | inl same ↦ absurd (ground (arith, place_eq_iff q r))
    | inr other ↦ rw (drop, other) (node_at-remove_where test q nodes h)
  ]
]

moved_entry-none :
    (from to r : Place) (n : Node) → below? from r ≡ none → moved_entry from to (r, n) ≡ (r, n)
moved_entry-none from to r n e = ground arith

moved_entry-some :
    (from to r tail : Place) (n : Node)
    → below? from r ≡ some tail
    → moved_entry from to (r, n) ≡ (to ++ tail, n)
moved_entry-some from to r tail n e = ground arith

-- the first entry of a lookup
first_entry :
    (q : Place) (e : Place × Node) (rest rest' : List (Place × Node)) {n : Node} {r : Place}
    → e ≡ (r, n)
    → node_at q rest ≡ node_at q rest'
    → node_at q (e ∷ rest) ≡ node_at q ((r, n) ∷ rest')
first_entry q e rest rest' {n} {r} h k =
    subst (λ x. node_at q (x ∷ rest) ≡ node_at q ((r, n) ∷ rest')) (sym h) (rw k refl)

skipped_entry :
    (q : Place) (e : Place × Node) (rest : List (Place × Node)) (n : Node) (r : Place)
    → e ≡ (r, n)
    → place_eq q r ≡ false
    → node_at q (e ∷ rest) ≡ node_at q rest
skipped_entry q e rest n r h k =
    subst (λ x. node_at q (x ∷ rest) ≡ node_at q rest) (sym h) (rw k refl)

ne_at : (p q tail : Place) → below? p q ≡ none → place_eq q (p ++ tail) ≡ false
ne_at p q tail h = elim (Bool-cases (place_eq q (p ++ tail))) [
  | inr other ↦ other
  | inl same ↦
      absurd
        (ground (arith, below?-append p tail, ap (below? p) ((place_eq_iff q (p ++ tail)).0 same)))
]

ne_from : (p q r tail : Place) → below? p q ≡ none → below? p r ≡ some tail → place_eq q r ≡ false
ne_from p q r tail h k =
    subst (λ x. place_eq q x ≡ false) (sym (below?_sound p r k)) (ne_at p q tail h)

pub node_at-move_entries_other :
    (from to q : Place) (nodes : List (Place × Node))
    → below? from q ≡ none
    → below? to q ≡ none
    → node_at q (move_entries from to nodes) ≡ node_at q nodes
node_at-move_entries_other from to q [] h k = refl
node_at-move_entries_other from to q ((r, n) ∷ nodes) h k =
    let ih = node_at-move_entries_other from to q nodes h k in
    elim (Option-cases (below? from r)) [
      | inl e ↦ first_entry q _ _ nodes (moved_entry-none from to r n e) ih
      | inr (tail, e) ↦
          skipped_entry q _ _ n (to ++ tail) (moved_entry-some from to r tail n e)
            (ne_at to q tail k)
          ∙ (ih ∙ sym (skipped_entry q (r, n) nodes n r refl (ne_from from q r tail h e)))
    ]

place_eq-append : (p s t : Place) → place_eq (p ++ s) (p ++ t) ≡ place_eq s t
place_eq-append [] s t = refl
place_eq-append (x ∷ p) s t = rw (text_eq_refl x) (place_eq-append p s t)

same_entry :
    (q q' r r' : Place) (n : Node) (rest rest' : List (Place × Node))
    → place_eq q r ≡ place_eq q' r'
    → node_at q rest ≡ node_at q' rest'
    → node_at q ((r, n) ∷ rest) ≡ node_at q' ((r', n) ∷ rest')
same_entry q q' r r' n rest rest' h k = rw (h, k) refl

below-true : (p q t : Place) → below? p q ≡ some t → is_at_or_below p q ≡ true
below-true p q t e = ground arith

below-false : (p q : Place) → below? p q ≡ none → is_at_or_below p q ≡ false
below-false p q e = ground arith

ne_below : (p r tail : Place) → below? p r ≡ none → place_eq (p ++ tail) r ≡ false
ne_below p r tail h = elim (Bool-cases (place_eq (p ++ tail) r)) [
  | inr other ↦ other
  | inl same ↦
      absurd
        (ground (arith, below?-append p tail, ap (below? p) ((place_eq_iff (p ++ tail) r).0 same)))
]

same_moved :
    (from to r t tail : Place) (n : Node) (rest rest' : List (Place × Node))
    → below? from r ≡ some t
    → node_at (to ++ tail) rest ≡ node_at (from ++ tail) rest'
    → node_at (to ++ tail) (moved_entry from to (r, n) ∷ rest)
      ≡ node_at (from ++ tail) ((r, n) ∷ rest')
same_moved from to r t tail n rest rest' f k =
    first_entry (to ++ tail) _ rest rest (moved_entry-some from to r t n f) refl
    ∙ subst
        (λ x. node_at (to ++ tail) ((to ++ t, n) ∷ rest) ≡ node_at (from ++ tail) ((x, n) ∷ rest'))
        (sym (below?_sound from r f))
        (same_entry (to ++ tail) (from ++ tail) (to ++ t) (from ++ t) n rest rest'
          (place_eq-append to tail t ∙ sym (place_eq-append from tail t)) k)

-- A moved tree, its target cleared before: what lay below `from` lies below `to`.
pub node_at-move_entries :
    (from to tail : Place) (nodes : List (Place × Node))
    → Apart from to
    → node_at (to ++ tail) (move_entries from to (remove_where (is_at_or_below to) nodes))
      ≡ node_at (from ++ tail) nodes
node_at-move_entries from to tail [] a = refl
node_at-move_entries from to tail ((r, n) ∷ nodes) a =
    let ih = node_at-move_entries from to tail nodes a in
    elim (Option-cases (below? to r)) [
      | inr (t, e) ↦
          let apart =
            subst (λ x. below? from x ≡ none) (sym (below?_sound to r e))
              (below?-apart from to t a.0 a.1) in
          rw (below-true to r t e, ne_below from r tail apart) ih
      | inl e ↦ elim (Option-cases (below? from r)) [
        | inl f ↦ rw (below-false to r e) (
            skipped_entry (to ++ tail) _ _ n r (moved_entry-none from to r n f)
              (ne_below to r tail e)
            ∙ (ih
                ∙ sym
                    (skipped_entry (from ++ tail) (r, n) nodes n r refl (ne_below from r tail f))))
        | inr (t, f) ↦ rw (below-false to r e) (same_moved from to r t tail n _ nodes f ih)
      ]
    ]
