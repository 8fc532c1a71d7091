-- ===== src/Engine/Controls/Complete.antt =====
-- A compiled snapshot has the route of every control at the index of its source.
use libre_wave.Common.{
  ℕ, ◌≤◌, ◌<◌, ◌≡◌, ◌≢◌, ◌∙◌, refl, ap, List, [], ◌∷◌, Bool, true, false, ◌==◌, some, ok, length,
  get_or, set, replicate, map, All, Unique, position, arith, inl, inr, Bool-cases, Option-cases,
  length-set, get_or-set_self, get_or-set_ne,
}
use libre_wave.Core.Mixer.{FaderGain, SourceControls, OutputControls}
use libre_wave.Engine.Config.{MixerConfig, max_sources, sources_of, source_index}
use libre_wave.Engine.Controls.{
  ControlSnapshot, no_route, empty_snapshot, compile_route, put_source, put_sources,
  compile_snapshot,
}

module _ {R : Type 0} (silence : R) (power : FaderGain → R) (config : MixerConfig) where
  -- The snapshot has the routes of `c` at the index of its source.
  pub record Holds (snapshot : ControlSnapshot R) (c : SourceControls) : Type 0 where
    pub index : ℕ
    pub found : source_index config c.source ≡ some index
    pub monitor_route :
        get_or snapshot.monitor index (no_route silence power)
        ≡ compile_route silence power c.monitor
    pub stream_route :
        get_or snapshot.stream index (no_route silence power) ≡ compile_route silence power c.stream

  -- An entry that is present is kept by the rest of the loop.
  record IsKept (before after : ControlSnapshot R) (index : ℕ) : Type 0 where
    monitor_kept :
        get_or after.monitor index (no_route silence power)
        ≡ get_or before.monitor index (no_route silence power)
    stream_kept :
        get_or after.stream index (no_route silence power)
        ≡ get_or before.stream index (no_route silence power)

  -- What the loop has done when it ends, from any point of it.
  record Done (snapshot after : ControlSnapshot R) (list : List SourceControls) : Type 0 where
    all_held : All (Holds after) list
    once : Unique (map (λ c. c.source) list)
    outputs_kept : after.outputs ≡ snapshot.outputs

  put_sources-cons :
      (present : List Bool) (snapshot : ControlSnapshot R) (c : SourceControls)
      (rest : List SourceControls) {after : ControlSnapshot R}
      → put_sources silence power config present snapshot (c ∷ rest) ≡ ok after
      → (i : ℕ) × (source_index config c.source ≡ some i)
        × (get_or present i false ≡ false)
        × (put_sources silence power config
              (set present i true)
              (put_source silence power snapshot i c)
              rest
            ≡ ok after)
  unfolding put_sources
  put_sources-cons present snapshot c rest h = elim (Option-cases (source_index config c.source)) [
    | inl missing ↦ absurd (ground arith)
    | inr (i, found) ↦ elim (Bool-cases (get_or present i false)) [
      | inl twice ↦ absurd (ground arith)
      | inr free ↦ (i, found, free, ground arith)
    ]
  ]

  -- The loop goes on at another index than one that is present.
  other_index :
      (present : List Bool) (i index : ℕ)
      → get_or present i false ≡ false
      → get_or present index false ≡ true
      → i ≢ index
  other_index present i index free here e =
      absurd (ground (arith, ap (λ k. get_or present k false) e))

  put_sources-IsKept :
      (present : List Bool) (snapshot after : ControlSnapshot R) (list : List SourceControls)
      (index : ℕ)
      → get_or present index false ≡ true
      → put_sources silence power config present snapshot list ≡ ok after
      → IsKept snapshot after index
  unfolding put_sources
  put_sources-IsKept present snapshot after [] index here h =
      let same : snapshot ≡ after = cc in
      rw same (record { monitor_kept = refl; stream_kept = refl })
  put_sources-IsKept present snapshot after (c ∷ rest) index here h =
      let (i, found, free, more) = put_sources-cons present snapshot c rest h in
      let apart = other_index present i index free here in
      let kept =
        put_sources-IsKept (set present i true) (put_source silence power snapshot i c) after rest
          index (get_or-set_ne present i index true false apart ∙ here) more in
      record {
        monitor_kept =
            kept.monitor_kept
            ∙ get_or-set_ne snapshot.monitor i index _ (no_route silence power) apart;
        stream_kept =
            kept.stream_kept
            ∙ get_or-set_ne snapshot.stream i index _ (no_route silence power) apart;
      }

  -- A source that is present does not come again.
  put_sources-apart :
      (present : List Bool) (snapshot after : ControlSnapshot R) (list : List SourceControls)
      (source index : ℕ)
      → source_index config source ≡ some index
      → get_or present index false ≡ true
      → put_sources silence power config present snapshot list ≡ ok after
      → All (λ t. source ≢ t) (map (λ (c : SourceControls). c.source) list)
  put_sources-apart present snapshot after [] source index at here h = tt
  put_sources-apart present snapshot after (c ∷ rest) source index at here h =
      let (i, found, free, more) = put_sources-cons present snapshot c rest h in
      let apart = other_index present i index free here in
      (
        λ e. apart (ground (arith, ap (source_index config) e)),
        put_sources-apart (set present i true) (put_source silence power snapshot i c) after rest
            source index at (get_or-set_ne present i index true false apart ∙ here) more,
      )

  module _ (inside : (source i : ℕ) → source_index config source ≡ some i → i < 12) where
    put_sources-Done :
        (present : List Bool) (snapshot after : ControlSnapshot R) (list : List SourceControls)
        → length present ≡ 12
        → length snapshot.monitor ≡ 12
        → length snapshot.stream ≡ 12
        → put_sources silence power config present snapshot list ≡ ok after
        → Done snapshot after list
    unfolding put_sources
    put_sources-Done present snapshot after [] p m s h = record {
      all_held = tt;
      once = tt;
      outputs_kept = let same : snapshot ≡ after = cc in rw same refl;
    }
    put_sources-Done present snapshot after (c ∷ rest) p m s h =
        let (i, found, free, more) = put_sources-cons present snapshot c rest h in
        let bound = inside c.source i found in
        let here : get_or (set present i true) i false ≡ true =
          get_or-set_self present i true false (omega (arith, p, bound)) in
        let kept =
          put_sources-IsKept (set present i true) (put_source silence power snapshot i c) after rest
            i here more in
        let done =
          put_sources-Done (set present i true) (put_source silence power snapshot i c) after rest
            (length-set present i true ∙ p) (length-set snapshot.monitor i _ ∙ m)
            (length-set snapshot.stream i _ ∙ s) more in
        record {
          all_held = (
            record {
              index = i;
              found = found;
              monitor_route =
                  kept.monitor_kept
                  ∙ get_or-set_self snapshot.monitor i _ (no_route silence power)
                      (omega (arith, m, bound));
              stream_route =
                  kept.stream_kept
                  ∙ get_or-set_self snapshot.stream i _ (no_route silence power)
                      (omega (arith, s, bound));
            },
            done.all_held,
          );
          once = (
            put_sources-apart (set present i true) (put_source silence power snapshot i c) after
                rest c.source i found here more,
            done.once,
          );
          outputs_kept = done.outputs_kept;
        }

position-lt :
    (source : ℕ) (xs : List ℕ) {i : ℕ} → position (λ s. s == source) xs ≡ some i → i < length xs
position-lt source [] h = cc
position-lt source (x ∷ xs) {i} h = elim (Option-cases (position (λ s. s == source) xs)) [
  | inl missing ↦ ground arith
  | inr (j, found) ↦ ground (arith, position-lt source xs found)
]

-- If a configuration has at most twelve sources, a snapshot is made only of one control for each source of
-- the configuration. It has the routes of every control at the index of its source, and those of the
-- outputs.
pub compile_snapshot_lem :
    {R : Type 0} (silence : R) (power : FaderGain → R) (config : MixerConfig)
    (list : List SourceControls) (outputs : OutputControls) (snapshot : ControlSnapshot R)
    → length (sources_of config) ≤ 12
    → compile_snapshot silence power config list outputs ≡ ok snapshot
    → (length list ≡ length (sources_of config))
      × Unique (map (λ (c : SourceControls). c.source) list)
      × All (Holds silence power config snapshot) list
      × (snapshot.outputs
          ≡ compile_route silence power outputs.monitor
            ∷ compile_route silence power outputs.stream
            ∷ [])
unfolding compile_snapshot source_index
compile_snapshot_lem {R} silence power config list outputs snapshot few h =
    let counted : length list ≡ length (sources_of config) = ground arith in
    let first : ControlSnapshot R = record (empty_snapshot silence power) {
      outputs =
          compile_route silence power outputs.monitor
          ∷ compile_route silence power outputs.stream
          ∷ [];
    } in
    let loop : put_sources silence power config (replicate max_sources false) first list
        ≡ ok snapshot =
      ground arith in
    let done =
      put_sources-Done silence power config
        (λ source i found. omega (arith, few, position-lt source (sources_of config) found))
        (replicate max_sources false) first snapshot list refl refl refl loop in
    (counted, done.once, done.all_held, done.outputs_kept)
