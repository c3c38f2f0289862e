-- ===== src/Features/Durations.antt =====
-- The time that a charger spent in a status during a window.
use charge_pulse.Prelude.{
  ℕ, zero, suc, ◌+◌, ◌-◌, ◌≤◌, ◌<◌, leb, leb→le, String, Bool, List, [], ◌∷◌, ◌≡◌, refl, sym, ap,
  ap₂, ◌∙◌, arith, All, get_or, lookup, insert, Dict, lookup-insert, str_eq, eq_iff, if◌then◌else◌,
  Bool-cases, inl, inr,
}
use charge_pulse.Database.{OcppEvent}
use charge_pulse.Features.{
  insert_event, sort_events, add_time, time_in, status_after, durations_by_status, durations_of,
}

-- the number of the microseconds from `from` on, among `n`, that pass the test
unfoldable pub ticks : (ℕ → Bool) → ℕ → ℕ → ℕ
ticks p from zero = 0
ticks p from (suc n) = (if p from then 1 else 0) + ticks p (suc from) n

-- the status that the last event up to `t` gave, and `last_status` before the first
unfoldable pub status_at : ℕ → String → List OcppEvent → String
status_at t last_status [] = last_status
status_at t last_status (e ∷ es) =
    let later = status_at t (status_after last_status e) es in
    if leb e.time t then later else last_status

-- the events' times ascend from `from` to `until`
abbrev pub IsAscending : ℕ → ℕ → List OcppEvent → Type 0
IsAscending from until [] = from ≤ until
IsAscending from until (e ∷ es) = (from ≤ e.time) × IsAscending e.time until es

abbrev pub IsIn : ℕ → ℕ → OcppEvent → Type 0
IsIn from until e = (from ≤ e.time) × (e.time ≤ until)

pub IsAscending-le :
    (from until : ℕ) (es : List OcppEvent) → IsAscending from until es → from ≤ until
IsAscending-le from until [] h = h
IsAscending-le from until (e ∷ es) h = omega (arith, h.0, IsAscending-le e.time until es h.1)

insert_event-IsAscending :
    (from until : ℕ) (e : OcppEvent) (es : List OcppEvent)
    → IsIn from until e
    → IsAscending from until es
    → IsAscending from until (insert_event e es)
unfolding insert_event
insert_event-IsAscending from until e [] h k = h
insert_event-IsAscending from until e (x ∷ xs) h k = elim (Bool-cases (leb e.time x.time)) [
  | inl q ↦ rw q (h.0, (leb→le e.time x.time q, k.1))
  | inr q ↦ rw q (k.0, insert_event-IsAscending x.time until e xs (ground (arith, q), h.1) k.1)
]

pub sort_events-IsAscending :
    (from until : ℕ) (es : List OcppEvent)
    → from ≤ until
    → All (IsIn from until) es
    → IsAscending from until (sort_events es)
unfolding sort_events
sort_events-IsAscending from until [] le h = le
sort_events-IsAscending from until (e ∷ es) le h =
    insert_event-IsAscending from until e (sort_events es) h.0
      (sort_events-IsAscending from until es le h.1)

time_in-add_time :
    (s k : String) (n : ℕ) (d : Dict ℕ)
    → time_in s (add_time k n d) ≡ time_in s d + (if str_eq k s then n else 0)
unfolding lookup insert
time_in-add_time s k n d = elim (Bool-cases (str_eq k s)) [
  | inl e ↦ rw (lookup-insert k s (get_or (lookup k d) 0 + n) d) (rw e (rw ((eq_iff k s).0 e) refl))
  | inr e ↦ rw (lookup-insert k s (get_or (lookup k d) 0 + n) d) (rw e (omega arith))
]

ticks-add :
    (p : ℕ → Bool) (from m n : ℕ) → ticks p from (m + n) ≡ ticks p from m + ticks p (from + m) n
unfolding ticks
ticks-add p from zero n =
    let e : from + 0 ≡ from = omega arith in
    let k : 0 + n ≡ n = omega arith in rw e (rw k (omega arith))
ticks-add p from (suc m) n =
    let e : from + suc m ≡ suc from + m = omega arith in
    let k : suc m + n ≡ suc (m + n) = omega arith in
    rw e (rw k (omega (arith, ticks-add p (suc from) m n)))

ticks-same :
    (p q : ℕ → Bool) (from n : ℕ)
    → ((t : ℕ) → from ≤ t → t < from + n → p t ≡ q t)
    → ticks p from n ≡ ticks q from n
unfolding ticks
ticks-same p q from zero h = refl
ticks-same p q from (suc n) h =
    ap₂ (λ b k. (if b then 1 else 0) + k) (h from (omega arith) (omega arith))
      (ticks-same p q (suc from) n (λ t a b. h t (omega (arith, a)) (omega (arith, b))))

ticks-const : (b : Bool) (from n : ℕ) → ticks (λ t. b) from n ≡ (if b then n else 0)
unfolding ticks
ticks-const b from zero = ground arith
ticks-const b from (suc n) = ground (arith, ticks-const b (suc from) n)

-- a microsecond before the next event, and one from it on
before_event :
    (s last : String) (from : ℕ) (e : OcppEvent) (es : List OcppEvent) (until : ℕ)
    → from ≤ e.time
    → e.time ≤ until
    → ticks (λ t. str_eq (status_at t last (e ∷ es)) s) from (until - from)
      ≡ (if str_eq last s then e.time - from else 0)
        + ticks (λ t. str_eq (status_at t (status_after last e) es) s) e.time (until - e.time)
unfolding status_at
before_event s last from e es until a b =
    let k : until - from ≡ (e.time - from) + (until - e.time) = omega (arith, a, b) in
    let j : from + (e.time - from) ≡ e.time = omega (arith, a) in
    rw k (
      ticks-add _ from (e.time - from) (until - e.time)
      ∙ ap₂ (λ x y. x + y)
          (ticks-same _ (λ t. str_eq last s) from (e.time - from) (λ t u v. ground (arith, u, v, j))
            ∙ ticks-const (str_eq last s) from (e.time - from))
          (rw j (ticks-same _ _ e.time (until - e.time) (λ t u v. ground (arith, u, v)))))

time_in-durations :
    (s : String) (until from : ℕ) (last : String) (es : List OcppEvent) (d : Dict ℕ)
    → IsAscending from until es
    → time_in s (durations_by_status until from last es d)
      ≡ time_in s d + ticks (λ t. str_eq (status_at t last es) s) from (until - from)
unfolding durations_by_status status_at
time_in-durations s until from last [] d h =
    time_in-add_time s last (until - from) d
    ∙ ap (λ k. time_in s d + k) (sym (ticks-const (str_eq last s) from (until - from)))
time_in-durations s until from last (e ∷ es) d h = omega (
  arith,
  time_in-durations s until e.time (status_after last e) es (add_time last (e.time - from) d) h.1,
  time_in-add_time s last (e.time - from) d,
  before_event s last from e es until h.0 (IsAscending-le e.time until es h.1),
)

-- The time that `extract` counts for a status is the number of the window's microseconds at which that
-- status was the last one reported, where the charger counts as available before the window's first report. The
-- status events lie in the window, in any order.
pub durations-ticks :
    (s : String) (window_start window_end : ℕ) (events : List OcppEvent)
    → window_start ≤ window_end
    → All (IsIn window_start window_end) events
    → time_in s (durations_of window_start window_end events)
      ≡ ticks
          (λ t. str_eq (status_at t "Available" (sort_events events)) s)
          window_start
          (window_end - window_start)
unfolding lookup
durations-ticks s window_start window_end events le inside = omega (
  arith,
  time_in-durations s window_end window_start "Available" (sort_events events) []
      (sort_events-IsAscending window_start window_end events le inside),
)

one_status :
    (x : String)
    → (if str_eq x "Faulted" then 1 else 0)
        + (if str_eq x "Available" then 1 else 0)
        + (if str_eq x "Unavailable" then 1 else 0)
      ≤ 1
one_status x = elim (Bool-cases (str_eq x "Faulted")) [
  | inl e ↦ rw ((eq_iff x "Faulted").0 e) (omega arith)
  | inr e ↦ elim (Bool-cases (str_eq x "Available")) [
    | inl k ↦ rw ((eq_iff x "Available").0 k) (omega arith)
    | inr k ↦ rw e (
        rw k (elim (Bool-cases (str_eq x "Unavailable")) [
          | inl h ↦ rw h (omega arith)
          | inr h ↦ rw h (omega arith)
        ]))
  ]
]

ticks-three :
    (x : ℕ → String) (from n : ℕ)
    → ticks (λ t. str_eq (x t) "Faulted") from n
        + ticks (λ t. str_eq (x t) "Available") from n
        + ticks (λ t. str_eq (x t) "Unavailable") from n
      ≤ n
unfolding ticks
ticks-three x from zero = omega arith
ticks-three x from (suc n) = omega (arith, one_status (x from), ticks-three x (suc from) n)

-- The three shares of a window that the vector holds do not exceed the window together: for status
-- events that lie in the window, in any order.
pub time_in-bounds :
    (window_start window_end : ℕ) (events : List OcppEvent)
    → window_start ≤ window_end
    → All (IsIn window_start window_end) events
    → time_in "Faulted" (durations_of window_start window_end events)
        + time_in "Available" (durations_of window_start window_end events)
        + time_in "Unavailable" (durations_of window_start window_end events)
      ≤ window_end - window_start
time_in-bounds window_start window_end events le inside = omega (
  arith,
  durations-ticks "Faulted" window_start window_end events le inside,
  durations-ticks "Available" window_start window_end events le inside,
  durations-ticks "Unavailable" window_start window_end events le inside,
  ticks-three (λ t. status_at t "Available" (sort_events events)) window_start
      (window_end - window_start),
)
