-- ===== src/Gateway/Profiles/Meters.antt =====
-- Delta's meter values.
use charge_pulse.Prelude.{
  Bool, true, false, ◌||◌, str_eq, is_some, if◌then◌else◌, String, none, some, List, [], ◌∷◌, map,
  ◌≡◌, refl, ap, ap₂, sym, ◌∙◌, ◌⊎◌, inl, inr, arith, All, after_prefix, after_first, get_or,
}
use charge_pulse.Gateway.Profiles.{
  SampledValue, MeterValue, VendorProfile, delta, delta_sample, normalize_meter_values,
}

-- no sample is labelled with a phase of the voltage
abbrev pub IsFlat : SampledValue → Type 0
IsFlat sv = after_prefix "Voltage." (get_or sv.measurand "") ≡ none

voltage_flat : after_prefix "Voltage." "Voltage" ≡ none
unfolding after_prefix
voltage_flat = refl

import_flat : after_prefix "Voltage." "Current.Import" ≡ none
unfolding after_prefix
import_flat = refl

delta_sample-IsFlat : (sv : SampledValue) → IsFlat (delta_sample sv)
unfolding delta_sample
delta_sample-IsFlat sv = ground (arith, voltage_flat, import_flat)

abbrev voltage_of : SampledValue → String → SampledValue
voltage_of sv part = record sv { measurand = some "Voltage"; phase = some part }

abbrev current_of : SampledValue → String → SampledValue
current_of sv part = record sv { measurand = some "Current.Import"; phase = some part }

branches :
    (sv : SampledValue) (part : String) (voltage current phase : Bool)
    → let r : SampledValue =
        if voltage
        then voltage_of sv part
        else if current
        then if phase then current_of sv part else sv
        else sv in
      (r ≡ sv)
      ⊎ ((part : String) × (r ≡ voltage_of sv part))
      ⊎ ((part : String) × (r ≡ current_of sv part))
branches sv part true current phase = inr (inl (part, refl))
branches sv part false true true = inr (inr (part, refl))
branches sv part false true false = inl refl
branches sv part false false phase = inl refl

delta_sample-cases :
    (sv : SampledValue)
    → (delta_sample sv ≡ sv)
      ⊎ ((part : String) × (delta_sample sv ≡ voltage_of sv part))
      ⊎ ((part : String) × (delta_sample sv ≡ current_of sv part))
unfolding delta_sample
delta_sample-cases sv =
    let meas = get_or sv.measurand "" in
    let part = get_or (after_first b'.' meas) "" in
    branches sv part (is_some (after_prefix "Voltage." meas))
      (is_some (after_prefix "Current." meas))
      (str_eq part "L1" || str_eq part "L2" || str_eq part "L3")

delta_sample_voltage :
    (sv : SampledValue) (part : String) → delta_sample (voltage_of sv part) ≡ voltage_of sv part
unfolding delta_sample after_prefix after_first
delta_sample_voltage sv part = refl

delta_sample_current :
    (sv : SampledValue) (part : String) → delta_sample (current_of sv part) ≡ current_of sv part
unfolding delta_sample after_prefix after_first
delta_sample_current sv part = refl

delta_sample_idem : (sv : SampledValue) → delta_sample (delta_sample sv) ≡ delta_sample sv
delta_sample_idem sv = elim (delta_sample-cases sv) [
  | inl e ↦ ap delta_sample e
  | inr (inl (part, e)) ↦ ap delta_sample e ∙ (delta_sample_voltage sv part ∙ sym e)
  | inr (inr (part, e)) ↦ ap delta_sample e ∙ (delta_sample_current sv part ∙ sym e)
]

current_l2 :
    delta_sample (record {
      value = some "5";
      measurand = some "Current.L2";
      phase = none;
      unit = none;
      unit_of_measure = none;
    })
    ≡ record {
      value = some "5";
      measurand = some "Current.Import";
      phase = some "L2";
      unit = none;
      unit_of_measure = none;
    }
unfolding delta_sample after_prefix after_first
current_l2 = refl

-- Every sample of every meter value has the property.
abbrev pub AllSamples : (SampledValue → Type 0) → List MeterValue → Type 0
AllSamples P = All (λ mv. All P mv.sampled_value)

map-All :
    (P : SampledValue → Type 0) (f : SampledValue → SampledValue)
    → ((sv : SampledValue) → P (f sv))
    → (xs : List SampledValue) → All P (map f xs)
map-All P f h [] = tt
map-All P f h (x ∷ xs) = (h x, map-All P f h xs)

-- After Delta's normalisation no sample is labelled with a phase of the voltage ("Voltage.x"), so the
-- feature extractor, which reads the samples labelled "Voltage", finds every voltage.
pub normalize_meter_values-AllSamples :
    (raw : List MeterValue) → AllSamples IsFlat (normalize_meter_values delta raw)
unfolding normalize_meter_values
normalize_meter_values-AllSamples [] = tt
normalize_meter_values-AllSamples (mv ∷ raw) = (
  map-All IsFlat delta_sample delta_sample-IsFlat mv.sampled_value,
  normalize_meter_values-AllSamples raw,
)

map_idem : (xs : List SampledValue) → map delta_sample (map delta_sample xs) ≡ map delta_sample xs
map_idem [] = refl
map_idem (x ∷ xs) = cc (delta_sample_idem x, map_idem xs)

delta_idem :
    (raw : List MeterValue)
    → normalize_meter_values delta (normalize_meter_values delta raw)
      ≡ normalize_meter_values delta raw
unfolding normalize_meter_values
delta_idem [] = refl
delta_idem (mv ∷ raw) =
    ap₂ (λ xs rest. record mv { sampled_value = xs } ∷ rest) (map_idem mv.sampled_value)
      (delta_idem raw)

-- Under every profile, a second normalisation of meter values changes nothing.
pub normalize_meter_values_idem :
    (p : VendorProfile) (raw : List MeterValue)
    → normalize_meter_values p (normalize_meter_values p raw) ≡ normalize_meter_values p raw
unfolding normalize_meter_values
normalize_meter_values_idem delta raw = delta_idem raw
normalize_meter_values_idem _ raw = refl
