-- ===== src/Gateway/Profiles/Errors.antt =====
-- What the error codes and states of a profile are after normalisation.
use mathlib.Core.Path.{subst}
use charge_pulse.Prelude.{
  Bool, true, false, String, Option, none, some, [], ◌∷◌, ◌≡◌, refl, arith, truthy, get_or, eq_iff,
  lookup, Dict, All, ap, ◌∙◌, Option-cases, inl, inr, if◌then◌else◌, str_eq,
}
use charge_pulse.Gateway.Profiles.{
  VendorProfile, generic, delta, abb, exicom, servotech, normalize_error_code, normalize_status,
  map_code, delta_error_map, abb_error_map, exicom_error_map, servotech_error_map,
}

-- a code that the table leaves alone
record IsFixed (table : Dict String) (code : String) : Type 0 where
  unmapped : lookup code table ≡ none
  not_empty : truthy (some code) ≡ some code

truthy_self :
    (raw : Option String) (code : String) → truthy raw ≡ some code → truthy (some code) ≡ some code
unfolding truthy
truthy_self none code h = ground arith
truthy_self (some String.[]) code h = ground arith
truthy_self (some (String.◌∷◌ c s)) String.[] h = cc
truthy_self (some (String.◌∷◌ c s)) (String.◌∷◌ d t) h = refl

some_eq : {v w : String} → some v ≡ some w → v ≡ w
some_eq e = cc

lookup-All :
    (P : String → Type 0) (k : String) (table : Dict String) {v : String}
    → All (λ e. P e.1) table
    → lookup k table ≡ some v
    → P v
unfolding lookup
lookup-All P k [] all h = cc
lookup-All P k ((j, w) ∷ rest) {v} all h = pick (str_eq j k) (lookup-All P k rest all.1) h
  where
    pick :
        (b : Bool)
        → (lookup k rest ≡ some v → P v)
        → (if b then some w else lookup k rest) ≡ some v
        → P v
    pick true ih e = subst P (some_eq e) all.0
    pick false ih e = ih e

map_code-none :
    (table : Dict String) (default : String) (raw : Option String)
    → truthy raw ≡ none
    → map_code table default raw ≡ default
unfolding map_code
map_code-none table default raw e = ground arith

map_code-some :
    (table : Dict String) (default : String) (raw : Option String) (code : String)
    → truthy raw ≡ some code
    → map_code table default raw ≡ get_or (lookup code table) code
unfolding map_code
map_code-some table default raw code e = ground arith

get_or-IsFixed :
    (table : Dict String) (code : String)
    → truthy (some code) ≡ some code
    → All (λ e. IsFixed table e.1) table
    → IsFixed table (get_or (lookup code table) code)
get_or-IsFixed table code t all = elim (Option-cases (lookup code table)) [
  | inl miss ↦ rw miss (record { unmapped = miss; not_empty = t })
  | inr (v, hit) ↦ rw hit (lookup-All (IsFixed table) code table all hit)
]

map_code-IsFixed :
    (table : Dict String) (default : String) (raw : Option String)
    → IsFixed table default
    → All (λ e. IsFixed table e.1) table
    → IsFixed table (map_code table default raw)
map_code-IsFixed table default raw fixed all = elim (Option-cases (truthy raw)) [
  | inl e ↦ rw (map_code-none table default raw e) fixed
  | inr (code, e) ↦
      rw (map_code-some table default raw code e)
        (get_or-IsFixed table code (truthy_self raw code e) all)
]

map_code_fixed :
    (table : Dict String) (default code : String)
    → IsFixed table code
    → map_code table default (some code) ≡ code
map_code_fixed table default code h =
    map_code-some table default (some code) code h.not_empty ∙ ap (λ o. get_or o code) h.unmapped

map_code_idem :
    (table : Dict String) (default : String) (raw : Option String)
    → IsFixed table default
    → All (λ e. IsFixed table e.1) table
    → map_code table default (some (map_code table default raw)) ≡ map_code table default raw
map_code_idem table default raw fixed all =
    map_code_fixed table default _ (map_code-IsFixed table default raw fixed all)

delta-IsFixed : All (λ e. IsFixed delta_error_map e.1) delta_error_map
unfolding lookup truthy
delta-IsFixed = (
  record { unmapped = refl; not_empty = refl },
  (
    record { unmapped = refl; not_empty = refl },
    (
      record { unmapped = refl; not_empty = refl },
      (
        record { unmapped = refl; not_empty = refl },
        (
          record { unmapped = refl; not_empty = refl },
          (record { unmapped = refl; not_empty = refl }, tt),
        ),
      ),
    ),
  ),
)

abb-IsFixed : All (λ e. IsFixed abb_error_map e.1) abb_error_map
unfolding lookup truthy
abb-IsFixed = (
  record { unmapped = refl; not_empty = refl },
  (
    record { unmapped = refl; not_empty = refl },
    (
      record { unmapped = refl; not_empty = refl },
      (
        record { unmapped = refl; not_empty = refl },
        (
          record { unmapped = refl; not_empty = refl },
          (
            record { unmapped = refl; not_empty = refl },
            (
              record { unmapped = refl; not_empty = refl },
              (record { unmapped = refl; not_empty = refl }, tt),
            ),
          ),
        ),
      ),
    ),
  ),
)

exicom-IsFixed : All (λ e. IsFixed exicom_error_map e.1) exicom_error_map
unfolding lookup truthy
exicom-IsFixed = (
  record { unmapped = refl; not_empty = refl },
  (
    record { unmapped = refl; not_empty = refl },
    (
      record { unmapped = refl; not_empty = refl },
      (
        record { unmapped = refl; not_empty = refl },
        (
          record { unmapped = refl; not_empty = refl },
          (record { unmapped = refl; not_empty = refl }, tt),
        ),
      ),
    ),
  ),
)

servotech-IsFixed : All (λ e. IsFixed servotech_error_map e.1) servotech_error_map
unfolding lookup truthy
servotech-IsFixed = (
  record { unmapped = refl; not_empty = refl },
  (
    record { unmapped = refl; not_empty = refl },
    (
      record { unmapped = refl; not_empty = refl },
      (
        record { unmapped = refl; not_empty = refl },
        (
          record { unmapped = refl; not_empty = refl },
          (record { unmapped = refl; not_empty = refl }, tt),
        ),
      ),
    ),
  ),
)

-- Under every profile, an error code that is already normalised is left as it is by a second
-- normalisation, whatever the raw code was, missing and empty codes included.
pub normalize_error_code_idem :
    (p : VendorProfile) (raw : Option String)
    → normalize_error_code p (some (normalize_error_code p raw)) ≡ normalize_error_code p raw
unfolding normalize_error_code lookup truthy
normalize_error_code_idem generic none = refl
normalize_error_code_idem generic (some String.[]) = refl
normalize_error_code_idem generic (some (String.◌∷◌ c s)) = refl
normalize_error_code_idem delta raw =
    map_code_idem delta_error_map "NoError" raw (record { unmapped = refl; not_empty = refl })
      delta-IsFixed
normalize_error_code_idem abb raw =
    map_code_idem abb_error_map "NoError" raw (record { unmapped = refl; not_empty = refl })
      abb-IsFixed
normalize_error_code_idem exicom raw =
    map_code_idem exicom_error_map "OtherError" raw (record { unmapped = refl; not_empty = refl })
      exicom-IsFixed
normalize_error_code_idem servotech raw =
    map_code_idem servotech_error_map "NoError" raw (record { unmapped = refl; not_empty = refl })
      servotech-IsFixed

-- A second normalisation of a status changes nothing.
pub normalize_status_idem :
    (p : VendorProfile) (raw : String)
    → normalize_status p (normalize_status p raw) ≡ normalize_status p raw
unfolding normalize_status
normalize_status_idem exicom raw = ground (arith, eq_iff raw "Error")
normalize_status_idem _ raw = refl
