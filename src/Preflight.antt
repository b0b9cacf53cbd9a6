-- ===== src/Preflight.antt =====
-- internal/app/preflight.go: the checks of source and destination before a job is split. The probe
-- and the wait between the two looks at the source stand as parameters.
pub mod Space
pub mod Checks
use cuearr.Prelude.{
  ℕ, ◌+◌, ◌*◌, ◌-◌, ◌/◌, ◌%◌, max, Text, lit, ◌++◌, ◌∷◌, [], not, Option, none, some, if◌then◌else◌,
  ltb, ◌==◌,
}
use cuearr.Prelude.Int.{ℤ, pos, negsuc, int64_modulus}
use cuearr.Strconv.{itoa}
use cuearr.Errors.{
  Error, sentinel, wrapped, annotated, message, error_text, quoted, preflight_unavailable,
  output_not_writable, free_space_unavailable, insufficient_space, image_unstable, Result, ok, err,
}
use cuearr.World.{Run, ◌>>=◌, pure, ask}

-- math.MaxUint64
abbrev pub max_uint64 : ℕ
max_uint64 = 18_446_744_073_709_551_615

-- 64 MiB
abbrev pub free_space_reserve : ℕ
free_space_reserve = 67_108_864

-- Both sums wrap around at 64 bits, and are replaced where they do.
unfoldable pub required_free_space : ℕ → ℕ
required_free_space image_size =
    let double =
      if ltb (max_uint64 / 2) image_size then max_uint64 else (image_size * 2) % int64_modulus in
    let with_reserve =
      if ltb (max_uint64 - free_space_reserve) image_size
      then max_uint64
      else (image_size + free_space_reserve) % int64_modulus in
    max double with_reserve

pub record FileSafetyProbe : Type 0 where
  pub stat_size : ℕ → Text → Result ℤ
  pub ensure_writable : ℕ → Text → Option Error
  pub free_space : ℕ → Text → Result ℕ

pub record Preflight : Type 0 where
  pub probe : Option FileSafetyProbe
  pub stability_gap : ℕ
  pub wait : ℕ → ℕ → Option Error

-- 500 * time.Millisecond
abbrev pub default_stability_gap : ℕ
default_stability_gap = 500_000_000

unfoldable pub gap_of : Preflight → ℕ
gap_of p =
    if ltb p.stability_gap default_stability_gap then default_stability_gap else p.stability_gap

abbrev pub invalid_size : Text → ℕ → Error
invalid_size image_path n =
    message (
      lit "stat source image " ++ (quoted image_path ++ (lit ": invalid size " ++ itoa (negsuc n))))

abbrev pub no_space : ℕ → ℕ → ℕ → Error
no_space available required size = annotated (sentinel insufficient_space) (
    lit "available="
    ++ (itoa (pos available)
        ++ (lit " required=" ++ (itoa (pos required) ++ (lit " image_size=" ++ itoa (pos size))))))

abbrev pub unstable : Text → ℕ → ℤ → Error
unstable image_path first second = annotated (sentinel image_unstable) (
    quoted image_path
    ++ (lit " changed from "
        ++ (itoa (pos first) ++ (lit " to " ++ (itoa second ++ lit " bytes")))))

abbrev pub compare_sizes : Text → ℕ → Result ℤ → Option Error
compare_sizes image_path first (err e) =
    some (wrapped (lit "restat source image " ++ quoted image_path) e)
compare_sizes image_path first (ok (negsuc n)) = some (unstable image_path first (negsuc n))
compare_sizes image_path first (ok (pos second)) =
    if second == first then none else some (unstable image_path first (pos second))

-- the part behind the check of the free space
unfoldable pub check_stable : Preflight → FileSafetyProbe → Text → ℕ → Run (Option Error)
unfolding gap_of
check_stable p probe image_path first = do
  waited ← ask (λ t. p.wait t (gap_of p))
  elim waited [
    | some e ↦ pure (some (wrapped (lit "wait for source stability") e))
    | none ↦ do
      second ← ask (λ t. probe.stat_size t image_path)
      pure (compare_sizes image_path first second)
  ]

abbrev pub space_unknown : Text → Error → Error
space_unknown parent e = message (
    error_text (sentinel free_space_unavailable)
    ++ (lit " for " ++ (quoted parent ++ (lit ": " ++ error_text e))))

abbrev pub not_writable : Text → Error → Error
not_writable parent e =
    annotated (sentinel output_not_writable) (quoted parent ++ (lit ": " ++ error_text e))

-- the part behind the first look at the source
unfoldable pub check_destination :
    Preflight → FileSafetyProbe → Text → Text → ℕ → Run (Option Error)
check_destination p probe image_path output_parent first = do
  writable ← ask (λ t. probe.ensure_writable t output_parent)
  elim writable [
    | some e ↦ pure (some (not_writable output_parent e))
    | none ↦ do
      space ← ask (λ t. probe.free_space t output_parent)
      elim space [
        | err e ↦ pure (some (space_unknown output_parent e))
        | ok available ↦
            if ltb available (required_free_space first)
            then pure (some (no_space available (required_free_space first) first))
            else check_stable p probe image_path first
      ]
  ]

unfoldable pub check_with : Preflight → FileSafetyProbe → Text → Text → Run (Option Error)
check_with p probe image_path output_parent = do
  first ← ask (λ t. probe.stat_size t image_path)
  elim first [
    | err e ↦ pure (some (wrapped (lit "stat source image " ++ quoted image_path) e))
    | ok (negsuc n) ↦ pure (some (invalid_size image_path n))
    | ok (pos size) ↦ check_destination p probe image_path output_parent size
  ]

unfoldable pub check : Preflight → Text → Text → Run (Option Error)
check p image_path output_parent = elim p.probe [
  | none ↦ pure (some (sentinel preflight_unavailable))
  | some probe ↦ check_with p probe image_path output_parent
]
