-- ===== src/Gateway/V201/Energy.antt =====
-- `_first_energy_wh` of backend/gateway/handler_v201.py.
use charge_pulse.Prelude.{
  ℕ, String, Bool, Option, none, some, List, [], ◌∷◌, get_or, coalesce, if◌then◌else◌, truthy,
  str_eq, strip, is_space, contains,
}
use charge_pulse.Gateway.Profiles.{SampledValue, MeterValue}

-- The interpreter's floats as the gateway uses them: `float(value)` of a JSON value given by its
-- text, `none` where it raises; `0.0` and the test for it; the product by 1000; `int(x)`, of readings that are not
-- negative; the JSON text of a float.
pub record Floats : Type 1 where
  pub F : Type 0
  pub float : String → Option F
  pub zero_float : F
  pub is_zero : F → Bool
  pub thousand_times : F → F
  pub to_int : F → ℕ
  pub repr : F → String

module _ (fl : Floats) where
  open fl use {F, float, zero_float, thousand_times}

  -- `float(sv.get("value", 0))`
  unfoldable pub read_value : Option String → Option F
  read_value none = some zero_float
  read_value (some v) = float v

  -- the reading of a sample in watt-hours, `none` where the loop goes on
  unfoldable pub energy_of : SampledValue → Option F
  unfolding truthy strip contains is_space read_value
  energy_of sv =
      let meas = strip is_space (get_or (truthy sv.measurand) "Energy.Active.Import.Register") in
      let unit = get_or (coalesce (truthy sv.unit_of_measure) (truthy sv.unit)) "Wh" in
      if contains "Energy.Active" meas
      then elim (read_value sv.value) [
        | none ↦ none
        | some val ↦ some (if str_eq unit "Wh" then val else thousand_times val)
      ]
      else none

  unfoldable pub first_sample : List SampledValue → Option F
  unfolding energy_of
  first_sample [] = none
  first_sample (sv ∷ rest) = coalesce (energy_of sv) (first_sample rest)

  unfoldable pub first_energy_wh : List MeterValue → Option F
  unfolding first_sample
  first_energy_wh [] = none
  first_energy_wh (mv ∷ rest) = coalesce (first_sample mv.sampled_value) (first_energy_wh rest)
