-- ===== src/Preflight/Checks.antt =====
-- internal/app/preflight.go: what a check that passes has seen.
use cuearr.Prelude.{
  inl, inr, ℕ, ◌+◌, ◌≤◌, ◌≡◌, Text, Bool-cases, none, some, Option-cases, arith, ltb,
}
use cuearr.Prelude.Int.{ℤ, pos, negsuc}
use cuearr.Errors.{Result, ok, err, Result-cases}
use cuearr.World.{World}
use cuearr.Preflight.{
  Preflight, FileSafetyProbe, required_free_space, check_stable, check_destination, check_with,
  check, gap_of, default_stability_gap, compare_sizes,
}

-- What the probe and the wait answered at the five moments of a check that passes.
pub record Safe (p : Preflight) (image_path parent : Text) (t : ℕ) : Type 0 where
  pub probe : FileSafetyProbe
  pub configured : p.probe ≡ some probe
  pub size : ℕ
  pub first : probe.stat_size t image_path ≡ ok (pos size)
  pub writable : probe.ensure_writable (t + 1) parent ≡ none
  pub available : ℕ
  pub space : probe.free_space (t + 2) parent ≡ ok available
  pub enough : required_free_space size ≤ available
  pub waited : p.wait (t + 3) (gap_of p) ≡ none
  pub second : probe.stat_size (t + 4) image_path ≡ ok (pos size)

compare_sizes_lem :
    (image_path : Text) (size : ℕ) (second : Result ℤ)
    → compare_sizes image_path size second ≡ none
    → second ≡ ok (pos size)
compare_sizes_lem image_path size (err e) h = absurd (ground arith)
compare_sizes_lem image_path size (ok (negsuc n)) h = absurd (ground arith)
compare_sizes_lem image_path size (ok (pos n)) h = ground arith

check_stable_lem :
    (p : Preflight) (probe : FileSafetyProbe) (image_path : Text) (size : ℕ) (w : World)
    → (check_stable p probe image_path size w).0 ≡ none
    → (p.wait w.ticks (gap_of p) ≡ none)
      × (probe.stat_size (w.ticks + 1) image_path ≡ ok (pos size))
unfolding check_stable
check_stable_lem p probe image_path size w h = elim (Option-cases (p.wait w.ticks (gap_of p))) [
  | inr (e, k) ↦ absurd (ground arith)
  | inl k ↦ (k, compare_sizes_lem image_path size _ (ground arith))
]

check_with_lem :
    (p : Preflight) (probe : FileSafetyProbe) (image_path parent : Text) (w : World)
    → p.probe ≡ some probe
    → (check_with p probe image_path parent w).0 ≡ none
    → Safe p image_path parent w.ticks
unfolding check_with check_destination
check_with_lem p probe image_path parent w given h =
    elim (Result-cases (probe.stat_size w.ticks image_path)) [
      | inr (e, k) ↦ absurd (ground arith)
      | inl (negsuc n, k) ↦ absurd (ground arith)
      | inl (pos size, k) ↦ elim (Option-cases (probe.ensure_writable (w.ticks + 1) parent)) [
        | inr (e, l) ↦ absurd (ground arith)
        | inl l ↦ elim (Result-cases (probe.free_space (w.ticks + 2) parent)) [
          | inr (e, m) ↦ absurd (ground arith)
          | inl (available, m) ↦ elim (Bool-cases (ltb available (required_free_space size))) [
            | inl less ↦ absurd (ground arith)
            | inr enough ↦
                let (waited, second) =
                  check_stable_lem p probe image_path size (record w { ticks = w.ticks + 3 })
                    (ground arith) in
                record {
                  probe = probe;
                  configured = given;
                  size = size;
                  first = k;
                  writable = l;
                  available = available;
                  space = m;
                  enough = ground arith;
                  waited = waited;
                  second = ground arith;
                }
          ]
        ]
      ]
    ]

gap_of_lem : (p : Preflight) → default_stability_gap ≤ gap_of p
unfolding gap_of
gap_of_lem p = ground arith

-- A check that passes has asked, in this order: the size of the source, whether the destination can
-- be written, its free space, which is enough for that size, the wait of at least half a second, and
-- the size of the source again, which is the same.
pub check_lem :
    (p : Preflight) (image_path parent : Text) (w : World)
    → (check p image_path parent w).0 ≡ none
    → Safe p image_path parent w.ticks × (default_stability_gap ≤ gap_of p)
unfolding check
check_lem p image_path parent w h = elim (Option-cases p.probe) [
  | inl e ↦ absurd (ground arith)
  | inr (probe, e) ↦ (check_with_lem p probe image_path parent w e (ground arith), gap_of_lem p)
]
