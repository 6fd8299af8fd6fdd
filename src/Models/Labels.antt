-- ===== src/Models/Labels.antt =====
-- app/models/labels.py: the label of the bars from `as_of` on.
use toss_api.Prelude.{
  ℕ, ◌+◌, ◌≤◌, ◌<◌, ◌≡◌, ◌↔◌, refl, false, Option, none, some, List, [], ◌∷◌, length, get_elem?,
  ltb, arith, if◌then◌else◌, Bool-cases, inl, inr,
}
use toss_api.Numeric.{Numeric}
use toss_api.Db.Repositories.{MarketBarRow}
use toss_api.Regime.{is_zero, relative_change}

pub record LabelDefinition (D : Type 0) : Type 0 where
  pub horizon_days : ℕ
  pub return_threshold : D

-- The messages, by what they hold.
pub data LabelReason : Type 0 where
  need_bars : ℕ → ℕ → LabelReason
  entry_is_zero : LabelReason

pub record LabelResult (D : Type 0) : Type 0 where
  pub label : Option ℕ
  pub forward_return : Option D
  pub reason : Option LabelReason

module _ {D : Type 0} (num : Numeric D) (definition : LabelDefinition D) where
  abbrev pub too_few : ℕ → LabelResult D
  too_few n = record {
    label = none;
    forward_return = none;
    reason = some (need_bars (definition.horizon_days + 1) n);
  }

  -- What follows the two prices.
  unfoldable pub label_between : D → D → LabelResult D
  label_between entry forward =
      let change = relative_change num entry forward in
      if is_zero num entry
      then record { label = none; forward_return = none; reason = some entry_is_zero }
      else record {
        label = some (if num.ltb definition.return_threshold change then 1 else 0);
        forward_return = some change;
        reason = none;
      }

  -- `compute_forward_return_label`; a list that is long enough has both bars.
  unfoldable pub compute_forward_return_label : List (MarketBarRow D) → LabelResult D
  unfolding label_between
  compute_forward_return_label bars =
      if ltb (length bars) (definition.horizon_days + 1)
      then too_few (length bars)
      else elim (get_elem? bars 0) [
        | none ↦ too_few (length bars)
        | some entry ↦ elim (get_elem? bars definition.horizon_days) [
          | none ↦ too_few (length bars)
          | some forward ↦ label_between entry.values.close_price forward.values.close_price
        ]
      ]

  get_elem-there :
      (bars : List (MarketBarRow D)) (n : ℕ)
      → n < length bars
      → (b : MarketBarRow D) × (get_elem? bars n ≡ some b)
  get_elem-there [] n h = absurd (omega (arith, h))
  get_elem-there (b ∷ bars) Prim.Native.Nat.zero h = (b, refl)
  get_elem-there (b ∷ bars) (Prim.Native.Nat.suc n) h = get_elem-there bars n (omega (arith, h))

  get_elem-short :
      (bars : List (MarketBarRow D)) (n : ℕ) → length bars ≤ n → get_elem? bars n ≡ none
  get_elem-short [] n h = refl
  get_elem-short (b ∷ bars) Prim.Native.Nat.zero h = absurd (omega (arith, h))
  get_elem-short (b ∷ bars) (Prim.Native.Nat.suc n) h = get_elem-short bars n (omega (arith, h))

  -- A label is given exactly if there are `horizon_days` bars after the first and its close is not
  -- zero; it is then 1 or 0 by whether the return over them is above the threshold.
  pub compute_forward_return_label_iff :
      (bars : List (MarketBarRow D)) (l : ℕ)
      → ((compute_forward_return_label bars).label ≡ some l) ↔ (
          (entry : MarketBarRow D) × (forward : MarketBarRow D) × (get_elem? bars 0 ≡ some entry)
          × (get_elem? bars definition.horizon_days ≡ some forward)
          × (is_zero num entry.values.close_price ≡ false)
          × (l ≡ (
              if num.ltb definition.return_threshold
                (relative_change num entry.values.close_price forward.values.close_price)
              then 1
              else 0)))
  unfolding compute_forward_return_label
  compute_forward_return_label_iff bars l =
      let needed = definition.horizon_days + 1 in
      (
        λ h. elim (Bool-cases (ltb (length bars) needed)) [
          | inl few ↦ absurd (ground (arith, h, few))
          | inr enough ↦
              let (entry, e) = get_elem-there bars 0 (ground (arith, enough)) in
              let (forward, f) =
                get_elem-there bars definition.horizon_days (ground (arith, enough)) in
              elim (Bool-cases (is_zero num entry.values.close_price)) [
                | inl z ↦ absurd (ground (arith, h, enough, e, f, z))
                | inr n ↦ (entry, forward, e, f, n, ground (arith, h, enough, e, f, n))
              ]
        ],
        λ h.
            let (entry, forward, e, f, n, same) = h in
            elim (Bool-cases (ltb (length bars) needed)) [
              | inl few ↦ absurd (
                  ground
                    (arith, get_elem-short bars definition.horizon_days (ground (arith, few)), f))
              | inr enough ↦ ground (arith, enough, e, f, n, same)
            ],
      )
