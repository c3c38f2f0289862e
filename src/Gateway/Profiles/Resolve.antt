-- ===== src/Gateway/Profiles/Resolve.antt =====
-- How a vendor's name finds its profile.
use Prim.Native.Char.{Char, code}
use charge_pulse.Prelude.{
  ℕ, String, some, List, [], ◌∷◌, ◌≡◌, refl, ap, arith, is_space, lower_code, lower, drop_last,
  lstrip, rstrip, if◌then◌else◌, get_or, Bool-cases, inl, inr, sym, ◌∙◌,
}
use charge_pulse.Gateway.Profiles.{
  VendorProfile, generic, delta, registry, registered, resolve_name, resolve,
}

-- `strip` on code points
lstrip_codes : List ℕ → List ℕ
lstrip_codes [] = []
lstrip_codes (c ∷ s) = let rest = lstrip_codes s in if is_space c then rest else c ∷ s

drop_last_codes : ℕ → List ℕ → List ℕ
drop_last_codes c [] = if is_space c then [] else c ∷ []
drop_last_codes c (d ∷ s) = c ∷ d ∷ s

rstrip_codes : List ℕ → List ℕ
rstrip_codes [] = []
rstrip_codes (c ∷ s) = drop_last_codes c (rstrip_codes s)

is_space-lower_code : (c : ℕ) → is_space (lower_code c) ≡ is_space c
unfolding is_space lower_code
is_space-lower_code c = ground arith

lower-lstrip : (s : String) → lower (lstrip is_space s) ≡ lstrip_codes (lower s)
unfolding lower lstrip lstrip_codes
lower-lstrip String.[] = refl
lower-lstrip (String.◌∷◌ c s) = elim (Bool-cases (is_space (code c))) [
  | inl e ↦ rw (is_space-lower_code (code c)) (rw e (lower-lstrip s))
  | inr e ↦ rw (is_space-lower_code (code c)) (rw e refl)
]

lower-drop_last :
    (c : Char) (s : String)
    → lower (drop_last is_space c s) ≡ drop_last_codes (lower_code (code c)) (lower s)
unfolding lower drop_last drop_last_codes
lower-drop_last c String.[] = elim (Bool-cases (is_space (code c))) [
  | inl e ↦ rw (is_space-lower_code (code c)) (rw e refl)
  | inr e ↦ rw (is_space-lower_code (code c)) (rw e refl)
]
lower-drop_last c (String.◌∷◌ d s) = refl

lower-rstrip : (s : String) → lower (rstrip is_space s) ≡ rstrip_codes (lower s)
unfolding lower rstrip rstrip_codes
lower-rstrip String.[] = refl
lower-rstrip (String.◌∷◌ c s) =
    lower-drop_last c (rstrip is_space s)
    ∙ ap (drop_last_codes (lower_code (code c))) (lower-rstrip s)

by_codes : List ℕ → VendorProfile
by_codes name = get_or (registered (rstrip_codes (lstrip_codes name)) registry) generic

-- The profile depends on the letters of the name only.
resolve_name-by_codes : (v : String) → resolve_name v ≡ by_codes (lower v)
unfolding resolve_name by_codes
resolve_name-by_codes v =
    ap (λ name. get_or (registered name registry) generic)
      (lower-rstrip (lstrip is_space v) ∙ ap rstrip_codes (lower-lstrip v))

same_codes : (u v : String) → lower u ≡ lower v → resolve_name u ≡ resolve_name v
same_codes u v h = resolve_name-by_codes u ∙ (ap by_codes h ∙ sym (resolve_name-by_codes v))

-- Two vendor names that agree in lower case have the same profile.
pub resolve_case : (u v : String) → lower u ≡ lower v → resolve (some u) ≡ resolve (some v)
unfolding resolve lower
resolve_case String.[] String.[] h = refl
resolve_case String.[] (String.◌∷◌ d v) h = ground arith
resolve_case (String.◌∷◌ c u) String.[] h = ground arith
resolve_case (String.◌∷◌ c u) (String.◌∷◌ d v) h = same_codes (String.◌∷◌ c u) (String.◌∷◌ d v) h

padded_delta : resolve (some "  DeLTA ") ≡ delta
unfolding resolve
padded_delta = refl

unknown_vendor : resolve (some "Polestar") ≡ generic
unfolding resolve
unknown_vendor = refl
