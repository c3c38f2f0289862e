-- ===== src/Gateway/Profiles.antt =====
-- Vendor profiles: backend/gateway/vendor_profiles. The classes are the constructors of
-- `VendorProfile`, and a method is a function by cases on the class.
pub mod Errors
pub mod Resolve
pub mod Meters
use charge_pulse.Prelude.{
  ℕ, ◌==◌, String, Option, none, some, Bool, List, [], ◌∷◌, codes, codes_eq, strip, is_space, lower,
  lookup, Dict, get_or, str_eq, if◌then◌else◌, is_some, truthy, after_prefix, after_first, ◌||◌,
  map,
}

-- One constructor for each profile class.
pub data VendorProfile : Type 0 where
  generic delta abb exicom servotech : VendorProfile

-- One entry of a `sampled_value` list. For all but `value` a missing key and a null are both `none`;
-- `value` is the JSON text of the value, `none` if the key is missing. `unit_of_measure` is the `unit`
-- in that object of OCPP 2.0.1.
pub record SampledValue : Type 0 where
  pub value : Option String
  pub measurand : Option String
  pub phase : Option String
  pub unit : Option String
  pub unit_of_measure : Option String

-- A missing or null `sampled_value` reads as the empty list.
pub record MeterValue : Type 0 where
  pub timestamp : Option String
  pub sampled_value : List SampledValue

abbrev pub registry : List (String × VendorProfile)
registry = ("delta", delta) ∷ ("abb", abb) ∷ ("exicom", exicom) ∷ ("servotech", servotech) ∷ []

-- `_REGISTRY.get(name)`, the name given by its code points
unfoldable pub registered : List ℕ → List (String × VendorProfile) → Option VendorProfile
unfolding codes_eq
registered name [] = none
registered name ((key, p) ∷ rest) =
    if codes_eq (codes key) name then some p else registered name rest

unfoldable pub resolve_name : String → VendorProfile
unfolding registered strip lower is_space
resolve_name vendor = get_or (registered (lower (strip is_space vendor)) registry) generic

unfoldable pub resolve : Option String → VendorProfile
unfolding truthy resolve_name
resolve vendor = elim (truthy vendor) [ none ↦ generic | some v ↦ resolve_name v ]

abbrev pub abb_error_map : Dict String
abb_error_map =
    ("PowerModuleFault", "PowerSwitchFailure")
    ∷ ("DcLeakageDetected", "GroundFailure")
    ∷ ("AcInputVoltageOutOfRange", "UnderVoltage")
    ∷ ("AcInputOverVoltage", "OverVoltage")
    ∷ ("AcInputUnderVoltage", "UnderVoltage")
    ∷ ("RcdTripped", "GroundFailure")
    ∷ ("EmergencyStopPressed", "OtherError")
    ∷ ("CcsCommTimeout", "EVCommunicationError")
    ∷ []

abbrev pub delta_error_map : Dict String
delta_error_map =
    ("OverTemperature", "HighTemperature")
    ∷ ("OverTemp", "HighTemperature")
    ∷ ("ContactorWelded", "PowerSwitchFailure")
    ∷ ("AcMainsBrownout", "UnderVoltage")
    ∷ ("InsulationCheckFail", "GroundFailure")
    ∷ ("CommModuleTimeout", "WeakSignal")
    ∷ []

abbrev pub exicom_error_map : Dict String
exicom_error_map =
    ("InsufficientGridSupply", "UnderVoltage")
    ∷ ("ChargerOverTemp", "HighTemperature")
    ∷ ("RelayStuck", "PowerSwitchFailure")
    ∷ ("EmergencyShutdown", "OtherError")
    ∷ ("EarthLeakage", "GroundFailure")
    ∷ ("CommunicationLost", "WeakSignal")
    ∷ []

abbrev pub servotech_error_map : Dict String
servotech_error_map =
    ("DCContactorFailure", "PowerSwitchFailure")
    ∷ ("VoltageOutOfRange", "OverVoltage")
    ∷ ("VoltageDrop", "UnderVoltage")
    ∷ ("GFCITripped", "GroundFailure")
    ∷ ("TempSensorFail", "HighTemperature")
    ∷ ("GSMSignalLow", "WeakSignal")
    ∷ []

-- `MAP.get(raw_code, raw_code)` for a code that is not empty, and the default for one that is
map_code : Dict String → String → Option String → String
map_code table default raw = elim (truthy raw) [
  | none ↦ default
  | some code ↦ get_or (lookup code table) code
]

unfoldable pub normalize_error_code : VendorProfile → Option String → String
unfolding map_code
normalize_error_code generic raw = get_or (truthy raw) "NoError"
normalize_error_code delta raw = map_code delta_error_map "NoError" raw
normalize_error_code abb raw = map_code abb_error_map "NoError" raw
normalize_error_code exicom raw = map_code exicom_error_map "OtherError" raw
normalize_error_code servotech raw = map_code servotech_error_map "NoError" raw

unfoldable pub normalize_status : VendorProfile → String → String
normalize_status exicom raw = if str_eq raw "Error" then "Faulted" else raw
normalize_status _ raw = raw

-- the body of Delta's inner loop: `meas` is the measurand, empty where there is none
delta_sample : SampledValue → SampledValue
delta_sample sv =
    let meas = get_or sv.measurand "" in
    let part = get_or (after_first b'.' meas) "" in
    if is_some (after_prefix "Voltage." meas)
    then record sv { measurand = some "Voltage"; phase = some part }
    else if is_some (after_prefix "Current." meas)
    then if str_eq part "L1" || str_eq part "L2" || str_eq part "L3"
      then record sv { measurand = some "Current.Import"; phase = some part }
      else sv
    else sv

delta_meter : MeterValue → MeterValue
delta_meter mv = record mv { sampled_value = map delta_sample mv.sampled_value }

unfoldable pub normalize_meter_values : VendorProfile → List MeterValue → List MeterValue
unfolding delta_meter delta_sample
normalize_meter_values delta raw = map delta_meter raw
normalize_meter_values _ raw = raw

unfoldable pub get_heartbeat_interval : VendorProfile → ℕ
get_heartbeat_interval abb = 60
get_heartbeat_interval _ = 60

unfoldable pub get_meter_sample_interval : VendorProfile → ℕ
get_meter_sample_interval abb = 30
get_meter_sample_interval _ = 30
