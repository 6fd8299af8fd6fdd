-- ===== src/Models/Dataset/Partition.antt =====
-- Each date of a data set becomes a sample or is skipped with a reason.
use toss_api.Prelude.{
  ℕ, ◌*◌, ◌+◌, String, ◌≡◌, refl, ◌⊎◌, none, some, List, [], ◌∷◌, arith, inl, inr, Option-cases,
}
use mathlib.Core.Path.{subst}
use toss_api.Action.{Result, ok, bind-ok}
use toss_api.Numeric.{Numeric}
use toss_api.Time.{day, earlier, later}
use toss_api.Models.Features.{FeatureVector, FeatureComputationResult, compute_features}
use toss_api.Models.Labels.{LabelResult, compute_forward_return_label}
use toss_api.Models.Dataset.{
  DatasetSample, SkipReason, SkippedSample, no_features, no_label, entry_of, DatasetBuildResult,
  DatasetBuilder, Entry, sampled, left_out, label_at, entry_at, add_entry, build,
}

result_ok : {E A : Type 0} {a b : A} → ◌≡◌ {A = Result E A} (ok a) (ok b) → a ≡ b
result_ok h = cc

module _ {D F : Type 0} (dec : Numeric D) (flo : Numeric F) (to_float : D → F) (pstdev : List F → F)
    (b : DatasetBuilder D) (instrument_id : ℕ) (symbol : String) (data_as_of : ℕ) where
  -- What is read for the features and for the label of a date.
  abbrev pub features_of : ℕ → ℕ → FeatureComputationResult F
  features_of start as_of =
      compute_features dec flo to_float pstdev
        (b.get_bars instrument_id b.timeframe start as_of as_of)

  abbrev pub label_of : ℕ → ℕ → LabelResult D
  label_of as_of end =
      compute_forward_return_label dec b.label_definition
        (b.get_bars instrument_id b.timeframe as_of end data_as_of)

  -- The windows of a date: as many days before it, and after it, as the builder says.
  abbrev pub Window : ℕ → ℕ → Type 0
  Window start as_of = start + b.feature_lookback_days * day ≡ as_of

  abbrev pub Horizon : ℕ → ℕ → Type 0
  Horizon as_of end = end ≡ as_of + b.label_lookback_days * day

  -- The sample of a date, whose features are of bars known at the date alone, and whose label is of
  -- the bars from it on that are known at `data_as_of`.
  pub record IsSample (as_of : ℕ) (s : DatasetSample D F) : Type 0 where
    pub dated : s.as_of ≡ as_of
    pub instrument : s.instrument_id ≡ instrument_id
    pub symbol_ : s.symbol ≡ symbol
    pub start : ℕ
    pub end : ℕ
    pub window : Window start as_of
    pub horizon : Horizon as_of end
    pub features_known : (features_of start as_of).vector ≡ some s.features
    pub label_known : (label_of as_of end).label ≡ some s.label
    pub return_known : (label_of as_of end).forward_return ≡ some s.forward_return

  -- Why a date has no sample.
  abbrev pub IsReason : ℕ → SkipReason → Type 0
  IsReason as_of (no_features why) =
      (start : ℕ) × Window start as_of
      × ((features_of start as_of).vector ≡ none)
      × ((features_of start as_of).reason ≡ why)
  IsReason as_of (no_label why) =
      (end : ℕ) × Horizon as_of end
      × (((label_of as_of end).label ≡ none) ⊎ ((label_of as_of end).forward_return ≡ none))
      × ((label_of as_of end).reason ≡ why)

  pub record IsSkipped (as_of : ℕ) (s : SkippedSample) : Type 0 where
    pub dated : s.as_of ≡ as_of
    pub instrument : s.instrument_id ≡ instrument_id
    pub why : IsReason as_of s.reason

  -- Each date, in order, has the next sample or the next skipped entry, and there are no others.
  abbrev pub Covers : List ℕ → List (DatasetSample D F) → List SkippedSample → Type 0
  Covers [] samples skipped = (samples ≡ []) × (skipped ≡ [])
  Covers (as_of ∷ dates) samples skipped =
      ((s : DatasetSample D F) × (rest : List (DatasetSample D F)) × (samples ≡ s ∷ rest)
        × IsSample as_of s
        × Covers dates rest skipped)
      ⊎ ((s : SkippedSample) × (rest : List SkippedSample) × (skipped ≡ s ∷ rest)
          × IsSkipped as_of s
          × Covers dates samples rest)

  abbrev pub IsEntry : ℕ → Entry D F → Type 0
  IsEntry as_of (sampled s) = IsSample as_of s
  IsEntry as_of (left_out s) = IsSkipped as_of s

  entry_of-IsEntry :
      (start end as_of : ℕ) (features : FeatureVector F)
      → Window start as_of
      → Horizon as_of end
      → (features_of start as_of).vector ≡ some features
      → IsEntry as_of (
          entry_of dec flo to_float pstdev b instrument_id symbol data_as_of as_of features
            (label_of as_of end))
  entry_of-IsEntry start end as_of features w h found =
      let result = label_of as_of end in
      elim (Option-cases result.label) [
        | inl missing ↦
            rw missing
              (record { dated = refl; instrument = refl; why = (end, h, inl missing, refl) })
        | inr (label, l) ↦ elim (Option-cases result.forward_return) [
          | inl missing ↦
              rw (l, missing)
                (record { dated = refl; instrument = refl; why = (end, h, inr missing, refl) })
          | inr (change, c) ↦
              rw (l, c)
                (record {
                  dated = refl;
                  instrument = refl;
                  symbol_ = refl;
                  start = start;
                  end = end;
                  window = w;
                  horizon = h;
                  features_known = found;
                  label_known = l;
                  return_known = c;
                })
        ]
      ]

  entry_at-IsEntry :
      {E : Type 0} (as_of : ℕ) (entry : Entry D F)
      → entry_at dec flo to_float pstdev b instrument_id symbol data_as_of {E = E} as_of ≡ ok entry
      → IsEntry as_of entry
  unfolding entry_at earlier label_at later
  entry_at-IsEntry {E} as_of entry h =
      let (start, from, h') =
        bind-ok (earlier {F = E} as_of (b.feature_lookback_days * day)) _ entry h in
      let w : Window start as_of = ground (arith, from) in
      elim (Option-cases (features_of start as_of).vector) [
        | inl missing ↦
            subst (IsEntry as_of) (result_ok (rw missing at h'))
              (record { dated = refl; instrument = refl; why = (start, w, missing, refl) })
        | inr (features, found) ↦
            let (end, until, made) =
              bind-ok (later {F = E} as_of (b.label_lookback_days * day)) _ entry
                (rw found at h') in
            let hz : Horizon as_of end = ground (arith, until) in
            subst (IsEntry as_of) (result_ok made)
              (entry_of-IsEntry start end as_of features w hz found)
      ]

  add_entry-Covers :
      (as_of : ℕ) (entry : Entry D F) (dates : List ℕ) (rest : DatasetBuildResult D F)
      → IsEntry as_of entry
      → Covers dates rest.samples rest.skipped
      → let result =
          add_entry dec flo to_float pstdev b instrument_id symbol data_as_of entry rest in
        Covers (as_of ∷ dates) result.samples result.skipped
  add_entry-Covers as_of (sampled s) dates rest is c = inl (s, rest.samples, refl, is, c)
  add_entry-Covers as_of (left_out s) dates rest is c = inr (s, rest.skipped, refl, is, c)

  -- A data set that is built has, in the order of the dates, a sample or a skipped entry for each and
  -- no other. The sample of a date has the features of the bars of the look-back days up to it that
  -- were known then, and the label and the return of the bars from it on, over the label's look-back
  -- days, that are known at data_as_of; a skipped entry has the reason for which those features or
  -- that label are missing.
  pub build-Covers :
      {E : Type 0} (dates : List ℕ) (result : DatasetBuildResult D F)
      → build dec flo to_float pstdev b instrument_id symbol data_as_of {E = E} dates ≡ ok result
      → Covers dates result.samples result.skipped
  unfolding build
  build-Covers {E} [] result h = (ground (arith, h), ground (arith, h))
  build-Covers {E} (as_of ∷ dates) result h =
      let (entry, one, h') =
        bind-ok (entry_at dec flo to_float pstdev b instrument_id symbol data_as_of {E = E} as_of) _
          result h in
      let (rest, more, whole) =
        bind-ok (build dec flo to_float pstdev b instrument_id symbol data_as_of {E = E} dates) _
          result h' in
      subst (λ (out : DatasetBuildResult D F). Covers (as_of ∷ dates) out.samples out.skipped)
        (result_ok whole)
        (add_entry-Covers as_of entry dates rest (entry_at-IsEntry {E = E} as_of entry one)
          (build-Covers {E = E} dates rest more))
