-- ===== src/Engine/Config/Valid.antt =====
-- Which layouts are accepted, and what an accepted one holds.
use mathlib.Core.List.{append_assoc, append-nil}
use libre_wave.Common.{
  Result-cases, Option-cases, ℕ, zero, suc, ◌+◌, ◌*◌, ◌≤◌, ◌<◌, ◌≡◌, ◌≢◌, ◌↔◌, ◌∙◌, refl, sym, ap,
  ap₂, List, [], ◌∷◌, ◌++◌, false, ◌==◌, ==_iff, some, ok, length, set, take, replicate, any,
  position, All, Unique, Has, arith, inl, inr, Bool-cases, take-append, All-append, length-append,
  length-set,
}
use libre_wave.Common.Search.Priors.{any-false_iff}
use libre_wave.Common.Bytes.{usize_mod}
use libre_wave.Engine.Config.{MixerConfig, max_sources, configure, try_new, sources_of}

-- The array after the loop: the sources over the front of what it held.
abbrev laid_over : List ℕ → ℕ → List ℕ → List ℕ
laid_over configured index [] = configured
laid_over configured index (source ∷ rest) =
    laid_over (set configured index source) (suc index) rest

-- The sources are unique, and unlike those before them.
abbrev IsFresh : List ℕ → List ℕ → Type 0
IsFresh before [] = Unit
IsFresh before (s ∷ rest) = All (λ x. ¬ (x ≡ s)) before × IsFresh (before ++ (s ∷ [])) rest

-- Nothing in `xs` is in `before`.
abbrev Apart : List ℕ → List ℕ → Type 0
Apart before xs = All (λ t. All (λ x. ¬ (x ≡ t)) before) xs

Apart-append :
    (before : List ℕ) (s : ℕ) (xs : List ℕ)
    → Apart (before ++ (s ∷ [])) xs ↔ (Apart before xs × All (λ t. s ≢ t) xs)
Apart-append before s [] = (λ h. (tt, tt), λ h. tt)
Apart-append before s (t ∷ xs) =
    let here = All-append (λ x. ¬ (x ≡ t)) before (s ∷ []) in
    let rest = Apart-append before s xs in
    (
      λ h. let (a, b) = here.0 h.0 in let (c, d) = rest.0 h.1 in ((a, c), (b.0, d)),
      λ h. (here.1 (h.0.0, (h.1.0, tt)), rest.1 (h.0.1, h.1.1)),
    )

IsFresh-iff : (before xs : List ℕ) → IsFresh before xs ↔ (Apart before xs × Unique xs)
IsFresh-iff before [] = (λ h. (tt, tt), λ h. tt)
IsFresh-iff before (s ∷ rest) =
    let more = IsFresh-iff (before ++ (s ∷ [])) rest in
    let split = Apart-append before s rest in
    (
      λ h.
          let (apart, unique) = more.0 h.1 in let (a, b) = split.0 apart in ((h.0, a), (b, unique)),
      λ h. (h.0.0, more.1 (split.1 (h.0.1, h.1.0), h.1.1)),
    )

Unique-iff : (xs : List ℕ) → IsFresh [] xs ↔ Unique xs
Unique-iff xs = (λ h. ((IsFresh-iff [] xs).0 h).1, λ u. (IsFresh-iff [] xs).1 (none_before xs, u))
  where
    none_before : (xs : List ℕ) → Apart [] xs
    none_before [] = tt
    none_before (x ∷ xs) = (tt, none_before xs)

seen_iff :
    (before rest all : List ℕ) (s : ℕ)
    → before ++ rest ≡ all
    → (any (λ x. x == s) (take (length before) all) ≡ false) ↔ All (λ x. ¬ (x ≡ s)) before
seen_iff before rest all s e =
    rw (← e, take-append before rest)
      (any-false_iff (λ x. x == s) (λ x. x ≡ s) before (λ x. ==_iff x s))

-- The loop from the source behind `before` on.
configure_iff :
    (before rest all configured : List ℕ)
    → before ++ rest ≡ all
    → (IsFresh before rest
        → configure all (length before) configured rest
          ≡ ok (laid_over configured (length before) rest))
      × ((out : List ℕ)
          → configure all (length before) configured rest ≡ ok out
          → IsFresh before rest)
unfolding configure
configure_iff before [] all configured e = (λ f. refl, λ out h. tt)
configure_iff before (s ∷ rest) all configured e =
    let seen = seen_iff before (s ∷ rest) all s e in
    let longer : length (before ++ (s ∷ [])) ≡ suc (length before) =
      omega (arith, length-append before (s ∷ [])) in
    let more =
      configure_iff (before ++ (s ∷ [])) rest all (set configured (length before) s)
        (append_assoc before (s ∷ []) rest ∙ e) in
    (
      λ f. rw (seen.1 f.0) (rw (← longer) (more.0 f.1)),
      λ out h. elim (Bool-cases (any (λ x. x == s) (take (length before) all))) [
        | inl twice ↦ absurd (ground arith)
        | inr once ↦ (seen.0 once, more.1 out (rw longer (ground arith)))
      ],
    )

take-set_snoc :
    (xs : List ℕ) (i s : ℕ) → i < length xs → take (suc i) (set xs i s) ≡ take i xs ++ (s ∷ [])
take-set_snoc [] i s h = absurd (omega arith)
take-set_snoc (x ∷ xs) zero s h = refl
take-set_snoc (x ∷ xs) (suc i) s h = ap₂ ◌∷◌ refl (take-set_snoc xs i s (omega arith))

laid_over_lem :
    (configured rest : List ℕ) (index : ℕ)
    → index + length rest ≤ length configured
    → take (index + length rest) (laid_over configured index rest) ≡ take index configured ++ rest
laid_over_lem configured [] index fits =
    ap (λ n. take n configured) (omega arith) ∙ sym (append-nil (take index configured))
laid_over_lem configured (s ∷ rest) index fits =
    ap (λ n. take n (laid_over (set configured index s) (suc index) rest)) (omega arith)
    ∙ laid_over_lem (set configured index s) rest (suc index)
        (omega (arith, length-set configured index s))
    ∙ ap (λ front. front ++ rest) (take-set_snoc configured index s (omega arith))
    ∙ append_assoc (take index configured) (s ∷ []) rest

Has-iff :
    (source : ℕ) (xs : List ℕ)
    → ((i : ℕ) × (position (λ s. s == source) xs ≡ some i)) ↔ Has source xs
Has-iff source [] = (λ h. cc, λ h. absurd h)
Has-iff source (x ∷ xs) =
    let rest = Has-iff source xs in
    elim (Bool-cases (x == source)) [
      | inl here ↦ (λ h. inl ((==_iff x source).0 here), λ h. (0, rw here refl))
      | inr other ↦ (
        λ h. inr (rest.0 (ground arith)),
        λ h. rw other (elim h [
          | inl here ↦ absurd (ground (arith, (==_iff x source).1 here))
          | inr tail ↦ let (i, found) = rest.1 tail in (suc i, rw found refl)
        ]),
      )
    ]

-- A layout: a frame count whose samples a `usize` can number, from one to twelve unique sources, and the
-- microphone among them.
pub record IsLayout (max_frames microphone_source : ℕ) (sources : List ℕ) : Type 0 where
  pub positive : 0 < max_frames
  pub numbered : max_frames * 2 < usize_mod
  pub some_sources : 0 < length sources
  pub few_sources : length sources ≤ 12
  pub unique : Unique sources
  pub has_microphone : Has microphone_source sources

abbrev blank : List ℕ
blank = replicate max_sources 0

module _ (max_frames microphone_source : ℕ) (sources : List ℕ) where
  try_new_ok :
      IsLayout max_frames microphone_source sources
      → (config : MixerConfig) × (try_new max_frames microphone_source sources ≡ ok config)
        × (sources_of config ≡ sources)
  unfolding try_new
  try_new_ok is =
      let laid = (configure_iff [] sources sources blank refl).0 ((Unique-iff sources).1 unique) in
      let (i, found) = (Has-iff microphone_source sources).1 has_microphone in
      (
        record {
          max_frames = max_frames;
          microphone_source = microphone_source;
          microphone_index = i;
          sources = laid_over blank 0 sources;
          source_count = length sources;
        },
        ground (arith, laid, found),
        ap (λ n. take n (laid_over blank 0 sources)) (omega arith)
            ∙ laid_over_lem blank sources 0 (omega arith),
      )
    where
      open is use {positive, numbered, some_sources, few_sources, unique, has_microphone}

  try_new-IsLayout :
      (config : MixerConfig)
      → try_new max_frames microphone_source sources ≡ ok config
      → IsLayout max_frames microphone_source sources
  unfolding try_new
  try_new-IsLayout config h = elim (Result-cases (configure sources 0 blank sources)) [
    | inl (out, laid) ↦ elim (Option-cases (position (λ s. s == microphone_source) sources)) [
      | inl missing ↦ absurd (ground arith)
      | inr (i, found) ↦ record {
        positive = ground arith;
        numbered = ground arith;
        some_sources = ground arith;
        few_sources = ground arith;
        unique = (Unique-iff sources).0 ((configure_iff [] sources sources blank refl).1 out laid);
        has_microphone = (Has-iff microphone_source sources).0 (i, found);
      }
    ]
    | inr (e, refused) ↦ absurd (ground arith)
  ]

-- A configuration is made exactly of a layout, and then its sources are those that were given, in order.
pub try_new_lem :
    (max_frames microphone_source : ℕ) (sources : List ℕ)
    → (IsLayout max_frames microphone_source sources
        → (config : MixerConfig) × (try_new max_frames microphone_source sources ≡ ok config)
          × (sources_of config ≡ sources))
      × ((config : MixerConfig)
          → try_new max_frames microphone_source sources ≡ ok config
          → IsLayout max_frames microphone_source sources)
try_new_lem max_frames microphone_source sources = (
  try_new_ok max_frames microphone_source sources,
  try_new-IsLayout max_frames microphone_source sources,
)
