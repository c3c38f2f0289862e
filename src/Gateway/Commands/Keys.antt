-- ===== src/Gateway/Commands/Keys.antt =====
-- The names of the streams of commands, and the charger that the consumer reads from them.
use Prim.Native.Char.{Char, code}
use Prim.Native.String.{◌++◌ as str_append}
use Prim.Native.String.append
use text.Mathlib.TextLemmas.{append_assoc}
use charge_pulse.Prelude.{
  ℕ, ◌==◌, String, Bool, true, false, Option, some, ◌≡◌, refl, sym, ap, ◌∙◌, after_last,
  after_first, is_some, if◌then◌else◌, Bool-cases, inl, inr,
}

-- f"stream:commands:{cp_id}" of `send_command` in backend/app/chargers/service.py
abbrev pub command_stream : String → String
command_stream cp_id = str_append "stream:commands:" cp_id

not_here :
    (b : Bool) (s : String) (o : Option String)
    → is_some (if b then some s else o) ≡ false
    → (b ≡ false) × (is_some o ≡ false)
not_here true s o h = absurd (true-false h)
  where
    true-false : ◌≡◌ {A = Bool} true false → ⊥
    true-false e = cc
not_here false s o h = (refl, h)

-- a text that does not hold the separator is its own last part
after_last_none :
    (sep : ℕ) (s : String) → is_some (after_first sep s) ≡ false → after_last sep s ≡ s
unfolding after_last after_first
after_last_none sep String.[] h = refl
after_last_none sep (String.◌∷◌ c s) h =
    let (ne, none_later) = not_here (code c == sep) s (after_first sep s) h in
    rw none_later (rw ne refl)

after_last_step :
    (sep : ℕ) (c : Char) (s : String)
    → is_some (after_first sep s) ≡ true
    → after_last sep (String.◌∷◌ c s) ≡ after_last sep s
unfolding after_last
after_last_step sep c s h = rw h refl

after_last_only :
    (sep : ℕ) (c : Char) (s : String)
    → is_some (after_first sep s) ≡ false
    → (code c == sep) ≡ true
    → after_last sep (String.◌∷◌ c s) ≡ s
unfolding after_last
after_last_only sep c s h e = rw h (rw e refl)

after_last_here :
    (sep : ℕ) (c : Char) (s : String)
    → (code c == sep) ≡ true
    → after_last sep (String.◌∷◌ c s) ≡ after_last sep s
after_last_here sep c s h = elim (Bool-cases (is_some (after_first sep s))) [
  | inl e ↦ after_last_step sep c s e
  | inr e ↦ after_last_only sep c s e h ∙ sym (after_last_none sep s e)
]

has_separator :
    (sep : ℕ) (c : Char) (u s : String)
    → (code c == sep) ≡ true
    → is_some (after_first sep (str_append u (String.◌∷◌ c s))) ≡ true
unfolding after_first
has_separator sep c String.[] s h = rw (append.nil (String.◌∷◌ c s)) (rw h refl)
has_separator sep c (String.◌∷◌ d u) s h =
    rw (append.cons d u (String.◌∷◌ c s))
      (either (code d == sep) (str_append u (String.◌∷◌ c s)) _ (has_separator sep c u s h))
  where
    either :
        (b : Bool) (t : String) (o : Option String)
        → is_some o ≡ true
        → is_some (if b then some t else o) ≡ true
    either true t o e = refl
    either false t o e = e

after_last-append :
    (sep : ℕ) (c : Char) (u s : String)
    → (code c == sep) ≡ true
    → after_last sep (str_append u (String.◌∷◌ c s)) ≡ after_last sep s
after_last-append sep c String.[] s h = rw (append.nil (String.◌∷◌ c s)) (after_last_here sep c s h)
after_last-append sep c (String.◌∷◌ d u) s h = rw (append.cons d u (String.◌∷◌ c s)) (
    after_last_step sep d (str_append u (String.◌∷◌ c s)) (has_separator sep c u s h)
    ∙ after_last-append sep c u s h)

split_stream :
    (cp_id : String) → command_stream cp_id ≡ str_append "stream:commands" (String.◌∷◌ ":" cp_id)
split_stream cp_id =
    append_assoc "stream:commands" ":" cp_id
    ∙ ap (str_append "stream:commands")
        (append.cons ":" "" cp_id ∙ ap (String.◌∷◌ ":") (append.nil cp_id))

-- The consumer takes for the charger of a command what follows the last colon of the stream's name.
-- That is the charger's id if the id holds no colon, and else what follows the last colon of the id: a command for
-- the charger "a:b" goes to the charger "b".
pub command_stream_lem :
    (cp_id : String)
    → after_last b':' (command_stream cp_id)
      ≡ (if is_some (after_first b':' cp_id) then after_last b':' cp_id else cp_id)
command_stream_lem cp_id =
    let last : after_last b':' (command_stream cp_id) ≡ after_last b':' cp_id =
      rw (split_stream cp_id) (after_last-append b':' ":" "stream:commands" cp_id refl) in
    elim (Bool-cases (is_some (after_first b':' cp_id))) [
      | inl e ↦ rw e last
      | inr plain ↦ rw plain (last ∙ after_last_none b':' cp_id plain)
    ]
