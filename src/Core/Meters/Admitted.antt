-- ===== src/Core/Meters/Admitted.antt =====
-- Which meter frames crates/librewave-core/src/meters.rs admits.
use libre_wave.Common.{
  ℕ, ◌≤◌, ◌≡◌, ◌≢◌, ◌↔◌, refl, List, [], ◌∷◌, map, not, ◌||◌, ◌==◌, ==_iff, ltb, arith, length, All,
  Unique, Result, ok, ◌>>◌, ensure,
}
use libre_wave.Common.Search.Priors.{any-false_iff, Apart, Apart-nil, Apart-cons_iff}
use libre_wave.Core.Meters.{
  SourceLevels, MeterFrame, FrameWire, FrameError, sequence_or_count, has_source, check_sources,
  try_from,
}

abbrev levels_id : SourceLevels → ℕ
levels_id s = s.source

check_sources_iff :
    (prior rest : List SourceLevels)
    → (check_sources prior rest ≡ ok tt)
      ↔ (All (λ s. s.source ≢ 0) rest × Unique (map levels_id rest) × Apart levels_id prior rest)
unfolding check_sources
check_sources_iff prior [] = (λ h. (tt, tt, tt), λ h. refl)
check_sources_iff prior (s ∷ rest) =
    let priors =
      any-false_iff (has_source s) (λ p. p.source ≡ s.source) prior
        (λ p. ==_iff p.source s.source) in
    let there = check_sources_iff (s ∷ prior) rest in
    let split = Apart-cons_iff levels_id s prior rest in
    (
      λ h.
          let (fine, unique, apart) = there.0 (ground arith) in
          let (new, old) = split.0 apart in
          ((ground arith, fine), (new, unique), (priors.0 (ground arith), old)),
      λ h.
          let later = there.1 (h.0.1, h.1.1, split.1 (h.1.0, h.2.1)) in
          let before = priors.1 h.2.0 in let here = h.0.0 in ground arith,
    )

limits_iff :
    (n l : ℕ) (r : Result FrameError (Unit {0})) (f g : MeterFrame)
    → ((ensure (not (n == 0 || l == 0 || ltb 12 l)) sequence_or_count >> (r >> ok f)) ≡ ok g)
      ↔ ((n ≢ 0) × (1 ≤ l) × (l ≤ 12) × (r ≡ ok tt) × (f ≡ g))
limits_iff n l r f g = ground arith

-- A frame is admitted, and then as it is, exactly when its sequence number is not 0, it has from 1 to
-- 12 sources, and the identities of its sources are distinct and not 0.
pub try_from_iff :
    (wire : FrameWire) (frame : MeterFrame)
    → (try_from wire ≡ ok frame) ↔ (
        (record { sequence = wire.sequence; sources = wire.sources; outputs = wire.outputs }
          ≡ frame)
        × (wire.sequence ≢ 0)
        × (1 ≤ length wire.sources)
        × (length wire.sources ≤ 12)
        × All (λ s. s.source ≢ 0) wire.sources
        × Unique (map (λ s. s.source) wire.sources))
unfolding try_from
try_from_iff wire frame =
    let limits =
      limits_iff wire.sequence (length wire.sources) (check_sources [] wire.sources)
        (record { sequence = wire.sequence; sources = wire.sources; outputs = wire.outputs })
        frame in
    let sources = check_sources_iff [] wire.sources in
    (
      λ h.
          let (n, some_, few, checked, same) = limits.0 h in
          let (nonzero, unique, apart) = sources.0 checked in
          (same, n, some_, few, nonzero, unique),
      λ (same, n, some_, few, nonzero, unique).
          limits.1
            (n, some_, few, sources.1 (nonzero, unique, Apart-nil levels_id wire.sources), same),
    )
