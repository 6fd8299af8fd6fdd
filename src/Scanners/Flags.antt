-- ===== src/Scanners/Flags.antt =====
-- What `RawFlagFilter` makes of the field that it looks up.
use toss_api.Prelude.{
  String, ◌≡◌, ◌↔◌, refl, Bool, true, false, not, Option, none, some, List, any, arith, inl, inr,
  Bool-cases, Option-cases, is_some,
}
use toss_api.Exceptions.{plain, type_error}
use toss_api.Action.{Result, ok, err}
use toss_api.Numeric.{Numeric}
use toss_api.Runtime.{Json}
use toss_api.Scanners.Universe.{
  UniverseFilterInput, UniverseFilterResult, lookup_path, split_dots, is_falsy, is_hashable,
  evaluate_raw_flag,
}

-- The value at the path of a payload that is not empty.
abbrev pub value_in : {D : Type 0} → Numeric D → List String → Option Json → Option Json
value_in num parts none = none
value_in num parts (some p) = elim (is_falsy num (some p)) [
  | true ↦ none
  | false ↦ lookup_path p parts
]

module _ {D : Type 0} (F : Type 0) (num : Numeric D) (equal : Json → Json → Bool)
    (name field_path : String) (fail_values : List Json) (treat_unknown_as_pass : Bool)
    (data_in : UniverseFilterInput D) where
  -- The outcome: an absent value passes as the flag says, one without a hash raises, any other passes
  -- unless it is among the failing ones.
  abbrev pub FlagOutcome : Option Json → Result F (UniverseFilterResult D) → Type 0
  FlagOutcome none (ok r) = (r.passed ≡ treat_unknown_as_pass) × (is_some r.reason ≡ true)
  FlagOutcome none (err e) = ⊥
  FlagOutcome (some v) (ok r) =
      (is_hashable v ≡ true)
      × (r.passed ≡ not (any (equal v) fail_values))
      × ((r.passed ≡ false) ↔ (is_some r.reason ≡ true))
  FlagOutcome (some v) (err e) = (is_hashable v ≡ false) × (e ≡ plain type_error)

  -- A payload or a field that is absent gives a result with a reason that passes exactly if unknown
  -- values are to pass; a list or an object at the path raises `TypeError`; any other value passes
  -- exactly if it is not among the failing ones, and has a reason exactly if it fails.
  pub evaluate_raw_flag-FlagOutcome :
      FlagOutcome
        (value_in num (split_dots field_path) data_in.instrument.raw_payload)
        (evaluate_raw_flag num equal name field_path fail_values treat_unknown_as_pass data_in)
  unfolding evaluate_raw_flag
  evaluate_raw_flag-FlagOutcome = elim (Option-cases data_in.instrument.raw_payload) [
    | inl absent ↦ rw absent (refl, refl)
    | inr (p, there) ↦ elim (Bool-cases (is_falsy num (some p))) [
      | inl empty ↦ rw (there, value_in, empty) (refl, refl)
      | inr full ↦ elim (Option-cases (lookup_path p (split_dots field_path))) [
        | inl missing ↦ rw (there, value_in, full, missing) (refl, refl)
        | inr (v, found) ↦ elim (Bool-cases (is_hashable v)) [
          | inl hash ↦
              rw (there, value_in, full, found, hash)
                (hash, refl, (λ h. ground (arith, h), λ h. ground (arith, h)))
          | inr list ↦ rw (there, value_in, full, found, list) (list, refl)
        ]
      ]
    ]
  ]
