-- ===== src/Runtime/Updates.antt =====
-- internal/app/runtime.go: nobody who waits for new settings misses them, and Apply never panics.
use cuearr.Prelude.{
  ℕ, suc, ◌<◌, true, false, ◌≡◌, ◌⊎◌, refl, sym, ap, inl, inr, arith, some, List, [], ◌∷◌, All,
}
use mathlib.Core.Path.{subst}
use cuearr.Settings.{Settings}
use cuearr.Runtime.{
  RuntimeConfig, Channels, no_channels, is_among, is_closed, new_runtime_config, apply,
  snapshot_with_changes, make_channel, close_channel, renewed,
}

-- The channel of the configuration was made and is open, and only channels that were made are closed.
record Live (changed : ℕ) (ch : Channels) : Type 0 where
  was_made : changed < ch.made
  is_open : is_closed changed ch ≡ false
  closed_made : All (λ n. n < ch.made) ch.closed

All-more : (n m : ℕ) (ns : List ℕ) → n < m → All (λ k. k < n) ns → All (λ k. k < m) ns
All-more n m [] h a = tt
All-more n m (k ∷ ns) h a = (omega (arith, a.0), All-more n m ns h a.1)

is_among-above : (n : ℕ) (ns : List ℕ) → All (λ k. k < n) ns → is_among n ns ≡ false
is_among-above n [] a = refl
is_among-above n (k ∷ ns) a = ground (arith, a.0, is_among-above n ns a.1)

module _ {Splitter : Type 0} where
  -- what calls of Apply make of a configuration and the channels
  pub data Applied
      : RuntimeConfig Splitter × Channels → RuntimeConfig Splitter × Channels → Type 0 where
    unchanged : (c : RuntimeConfig Splitter × Channels) → Applied c c
    then_apply :
        {c d e : RuntimeConfig Splitter × Channels} (s : Settings) (splitter : Splitter)
        → Applied c d
        → apply s splitter d ≡ some e
        → Applied c e

  -- one Apply
  record Renews (s : Settings) (splitter : Splitter) (c : RuntimeConfig Splitter) (ch : Channels)
      : Type 0 where
    after : RuntimeConfig Splitter × Channels
    runs : apply s splitter (c, ch) ≡ some after
    snapped : snapshot_with_changes after.0 ≡ (s, splitter, after.0.changed)
    live : Live after.0.changed after.1
    closes : is_closed c.changed after.1 ≡ true
    keeps_closed : (n : ℕ) → is_closed n ch ≡ true → is_closed n after.1 ≡ true

  apply-Renews :
      (s : Settings) (splitter : Splitter) (c : RuntimeConfig Splitter) (ch : Channels)
      → Live c.changed ch
      → Renews s splitter c ch
  unfolding apply close_channel make_channel is_closed snapshot_with_changes
  apply-Renews s splitter c ch l = record {
    after = (
      record { settings = s; splitter = splitter; changed = ch.made },
      record { made = suc ch.made; closed = c.changed ∷ ch.closed },
    );
    runs = rw (l.is_open, apply, close_channel, renewed) refl;
    snapped = refl;
    live = record {
      was_made = omega arith;
      is_open = ground (arith, l.was_made, is_among-above ch.made ch.closed l.closed_made);
      closed_made = (
        omega (arith, l.was_made),
        All-more ch.made ((suc ch.made)) ch.closed (omega arith) l.closed_made,
      );
    };
    closes = ground arith;
    keeps_closed = λ n h. ground arith;
  }

  closes_earlier :
      {c d : RuntimeConfig Splitter × Channels} {s : Settings} {splitter : Splitter}
      (r : Renews s splitter d.0 d.1)
      → (c ≡ d) ⊎ (is_closed c.0.changed d.1 ≡ true)
      → is_closed c.0.changed r.after.1 ≡ true
  closes_earlier {c} {d} r (inl same) =
      subst (λ n. is_closed n r.after.1 ≡ true) (ap (λ x. x.0.changed) (sym same)) r.closes
  closes_earlier {c} {d} r (inr closed) = r.keeps_closed c.0.changed closed

  Applied-Live :
      {c d : RuntimeConfig Splitter × Channels}
      → Applied c d
      → Live c.0.changed c.1
      → Live d.0.changed d.1 × ((c ≡ d) ⊎ (is_closed c.0.changed d.1 ≡ true))
  Applied-Live (unchanged c) l = (l, inl refl)
  Applied-Live (then_apply {c} {d} {e} s splitter a h) l =
      let (ld, before) = Applied-Live a l in
      let r = apply-Renews s splitter d.0 d.1 ld in
      let same : r.after ≡ e = ground (arith, r.runs) in
      (
        subst (λ x. Live x.0.changed x.1) same r.live,
        inr (subst (λ x. is_closed c.0.changed x.1 ≡ true) same (closes_earlier r before)),
      )

  fresh-Live :
      (s : Settings) (splitter : Splitter)
      → let c = new_runtime_config s splitter no_channels in Live c.0.changed c.1
  unfolding new_runtime_config make_channel is_closed
  fresh-Live s splitter = record { was_made = omega arith; is_open = refl; closed_made = tt }

  -- From a new configuration on, through any calls of Apply: the channel that comes with a snapshot is
  -- open for as long as the snapshot is the configuration, and closed once an Apply has come. A next
  -- Apply does not panic, closes that channel, and leaves an open one in its place.
  pub snapshot_with_changes-is_closed :
      (s : Settings) (splitter : Splitter) (c d : RuntimeConfig Splitter × Channels)
      → Applied (new_runtime_config s splitter no_channels) c
      → Applied c d
      → let channel = c.0.changed in
        (((is_closed channel d.1 ≡ false) × (snapshot_with_changes d.0 ≡ snapshot_with_changes c.0))
          ⊎ (is_closed channel d.1 ≡ true))
        × ((t : Settings) (new : Splitter)
            → (e : RuntimeConfig Splitter × Channels) × (apply t new d ≡ some e)
              × (snapshot_with_changes e.0 ≡ (t, new, e.0.changed))
              × (is_closed channel e.1 ≡ true)
              × (is_closed e.0.changed e.1 ≡ false))
  unfolding snapshot_with_changes
  snapshot_with_changes-is_closed s splitter c d a b =
      let (lc, _) = Applied-Live a (fresh-Live s splitter) in
      let (ld, since) = Applied-Live b lc in
      (
        elim since [
          | inl same ↦ inl (
              subst
                (λ x.
                  (is_closed c.0.changed x.1 ≡ false)
                  × (snapshot_with_changes x.0 ≡ snapshot_with_changes c.0))
                same (lc.is_open, refl))
          | inr closed ↦ inr closed
        ],
        λ t new.
            let r = apply-Renews t new d.0 d.1 ld in
            (r.after, r.runs, r.snapped, closes_earlier r since, r.live.is_open),
      )
