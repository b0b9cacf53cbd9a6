-- ===== src/Settings/PathMap.antt =====
-- internal/domain/settings.go: MapLidarrPath rewrites whole path elements, by the first rule that fits.
use cuearr.Prelude.{
  ℕ, ◌≡◌, ◌≢◌, refl, Text, true, false, none, some, List, [], ◌∷◌, ◌++◌, arith, ◌⊎◌, inl, inr,
  Bool-cases, Option-cases, ◌==◌, is_nil, cut_prefix, trim_right,
}
use cuearr.Settings.{PathMapRule, is_separator, map_rest, apply_rule, map_lidarr_path}

pub cut_prefix-append : (p s : Text) → cut_prefix p (p ++ s) ≡ some s
unfolding cut_prefix
cut_prefix-append [] s = refl
cut_prefix-append (c ∷ p) s = ground (arith, cut_prefix-append p s)

cut_prefix_sound : (p s : Text) {rest : Text} → cut_prefix p s ≡ some rest → s ≡ p ++ rest
unfolding cut_prefix
cut_prefix_sound [] s h = ground arith
cut_prefix_sound (c ∷ p) [] h = cc
cut_prefix_sound (c ∷ p) (d ∷ s) {rest} h = elim (Bool-cases (c == d)) [
  | inl same ↦ ground (arith, cut_prefix_sound p s {rest = rest} (ground arith))
  | inr other ↦ absurd (ground arith)
]

-- The prefix of a rule, without the separators at its end.
abbrev pub prefix_of : PathMapRule → Text
prefix_of rule = trim_right is_separator rule.from

-- What a rule does to a path that it fits: the path is its prefix, and becomes its target, or it
-- goes on with a separator, and the prefix is replaced.
pub data Rewrites (rule : PathMapRule) (path result : Text) : Type 0 where
  whole :
      rule.from ≢ [] → path ≡ prefix_of rule ++ [] → result ≡ rule.to → Rewrites rule path result
  inside :
      (c : ℕ) (rest : Text)
      → rule.from ≢ []
      → is_separator c ≡ true
      → path ≡ prefix_of rule ++ (c ∷ rest)
      → result ≡ trim_right is_separator rule.to ++ (c ∷ rest)
      → Rewrites rule path result

rest-Rewrites :
    (rule : PathMapRule) (path rest : Text) {result : Text}
    → rule.from ≢ []
    → path ≡ prefix_of rule ++ rest
    → map_rest rule rest ≡ some result
    → Rewrites rule path result
rest-Rewrites rule path [] n e h = whole n e (cc)
rest-Rewrites rule path (c ∷ rest) n e h = elim (Bool-cases (is_separator c)) [
  | inl sep ↦ inside c rest n sep e (ground arith)
  | inr other ↦ absurd (ground arith)
]

nil_of : (s : Text) → is_nil s ≡ true → s ≡ []
nil_of [] h = refl
nil_of (c ∷ s) h = absurd (ground arith)

from-ne-nil : (rule : PathMapRule) → is_nil rule.from ≡ false → rule.from ≢ []
from-ne-nil rule h e = ground arith

is_nil-from : (rule : PathMapRule) → rule.from ≢ [] → is_nil rule.from ≡ false
is_nil-from rule n = elim (Bool-cases (is_nil rule.from)) [
  | inl empty ↦ absurd (n (nil_of rule.from empty))
  | inr given ↦ given
]

apply_rule-Rewrites :
    (rule : PathMapRule) (path : Text) {result : Text}
    → apply_rule rule path ≡ some result
    → Rewrites rule path result
unfolding apply_rule
apply_rule-Rewrites rule path h = elim (Bool-cases (is_nil rule.from)) [
  | inl empty ↦ absurd (ground arith)
  | inr given ↦ elim (Option-cases (cut_prefix (prefix_of rule) path)) [
    | inl apart ↦ absurd (ground arith)
    | inr (rest, cut) ↦
        rest-Rewrites rule path rest (from-ne-nil rule given) (cut_prefix_sound _ path cut)
          (ground arith)
  ]
]

Rewrites-apply_rule :
    (rule : PathMapRule) (path : Text) {result : Text}
    → Rewrites rule path result
    → apply_rule rule path ≡ some result
unfolding apply_rule
Rewrites-apply_rule rule path (whole n e r) =
    rw (is_nil-from rule n, e, cut_prefix-append (prefix_of rule) [], r, apply_rule) refl
Rewrites-apply_rule rule path (inside c rest n sep e r) =
    rw (is_nil-from rule n, e, cut_prefix-append (prefix_of rule) (c ∷ rest), sep, r, apply_rule)
      refl

-- A rule that does not fit: there is nothing that it could make of the path.
abbrev pub Misses : PathMapRule → Text → Type 0
Misses rule path = (result : Text) → ¬ Rewrites rule path result

apply_rule-Misses :
    (rule : PathMapRule) (path : Text) → apply_rule rule path ≡ none → Misses rule path
apply_rule-Misses rule path e result fits = absurd (cc (Rewrites-apply_rule rule path fits))

-- The first rule that rewrites the path, behind rules that do not.
pub data FirstRewrite (path result : Text) : List PathMapRule → Type 0 where
  now :
      {rule : PathMapRule} {rules : List PathMapRule}
      → Rewrites rule path result
      → FirstRewrite path result (rule ∷ rules)
  later :
      {rule : PathMapRule} {rules : List PathMapRule}
      → Misses rule path
      → FirstRewrite path result rules
      → FirstRewrite path result (rule ∷ rules)

abbrev pub NoneFits : Text → List PathMapRule → Type 0
NoneFits path [] = Unit
NoneFits path (rule ∷ rules) = Misses rule path × NoneFits path rules

-- A path that is mapped either is rewritten by the first rule that fits it, as a whole or up to a
-- separator, with the rest kept; or no rule fits and it stays as it is.
pub map_lidarr_path_lem :
    (path : Text) (rules : List PathMapRule)
    → FirstRewrite path (map_lidarr_path path rules) rules
      ⊎ (NoneFits path rules × (map_lidarr_path path rules ≡ path))
unfolding map_lidarr_path
map_lidarr_path_lem path [] = inr (tt, refl)
map_lidarr_path_lem path (rule ∷ rules) = elim (Option-cases (apply_rule rule path)) [
  | inr (result, e) ↦ inl (rw e (now (apply_rule-Rewrites rule path e)))
  | inl e ↦ rw e (elim (map_lidarr_path_lem path rules) [
    | inl first ↦ inl (later (apply_rule-Misses rule path e) first)
    | inr (fits, same) ↦ inr ((apply_rule-Misses rule path e, fits), same)
  ])
]
