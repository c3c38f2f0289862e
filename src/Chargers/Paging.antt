-- ===== src/Chargers/Paging.antt =====
-- Pages of a list: together they are the list.
use charge_pulse.Prelude.{
  String, Bool, Option, select, ℕ, zero, suc, ◌+◌, ◌-◌, ◌*◌, ◌/◌, ◌≤◌, ◌<◌, max, List, [], ◌∷◌,
  ◌++◌, ◌≡◌, refl, ap, sym, ◌∙◌, arith, take, drop, length, take-append-drop, drop-drop, ap₂, Permᴰ,
  IsDescending, IsDistinct, descending_unique, length-perm,
}
use native.Mathlib.Nat.{mul-le-mul_right, lt-mul-div-succ}
use mathlib.Core.List.{append-nil, append_assoc}
use charge_pulse.Database.{Charger, Db}
use charge_pulse.Chargers.{page_of, pages_of, is_listed, list_chargers}

pages_suffice : (total limit : ℕ) → 0 < limit → total ≤ (0 + pages_of total limit) * limit
unfolding pages_of
pages_suffice total limit h =
    let q = (total + limit - 1) / limit in
    let big : q * limit ≤ max 1 q * limit = mul-le-mul_right limit (omega arith) in
    let last : total + limit - 1 < limit * (q + 1) = lt-mul-div-succ (total + limit - 1) h in
    grind (arith, last, big)

module _ {ℓ} {A : Type ℓ} where
  -- the pages from `page` on, `n` of them, one after the other
  pub pages_from : ℕ → ℕ → ℕ → List A → List A
  pages_from zero page limit rows = []
  pages_from (suc n) page limit rows = page_of page limit rows ++ pages_from n (suc page) limit rows

  drop_all : (n : ℕ) (xs : List A) → length xs ≤ n → drop n xs ≡ []
  drop_all zero [] h = refl
  drop_all zero (x ∷ xs) h = elim h [ ]
  drop_all (suc n) [] h = refl
  drop_all (suc n) (x ∷ xs) h = drop_all n xs (omega arith)

  -- a page and what follows it
  page_of-drop :
      (k limit : ℕ) (rows : List A)
      → page_of (suc k) limit rows ++ drop (suc k * limit) rows ≡ drop (k * limit) rows
  unfolding page_of
  page_of-drop k limit rows =
      ap (λ i. take limit (drop (i * limit) rows) ++ drop (suc k * limit) rows) {y = k}
        (omega arith)
      ∙ (ap (λ i. take limit (drop (k * limit) rows) ++ drop i rows) {y = k * limit + limit}
            (grind arith)
          ∙ (ap (λ l. take limit (drop (k * limit) rows) ++ l)
                (sym (drop-drop (k * limit) limit rows))
              ∙ take-append-drop limit (drop (k * limit) rows)))

  pages_from_lem :
      (n k limit : ℕ) (rows : List A)
      → pages_from n (suc k) limit rows ++ drop ((k + n) * limit) rows ≡ drop (k * limit) rows
  unfolding pages_from page_of
  pages_from_lem zero k limit rows = ap (λ i. drop (i * limit) rows) (omega arith)
  pages_from_lem (suc n) k limit rows =
      append_assoc (page_of (suc k) limit rows) (pages_from n (suc (suc k)) limit rows)
        (drop ((k + suc n) * limit) rows)
      ∙ (ap
            (λ i.
              page_of (suc k) limit rows
              ++ (pages_from n (suc (suc k)) limit rows ++ drop (i * limit) rows))
            {y = suc k + n} (omega arith)
          ∙ (ap (λ l. page_of (suc k) limit rows ++ l) (pages_from_lem n (suc k) limit rows)
              ∙ page_of-drop k limit rows))

  -- with a limit of at least one row, the counted pages are the list
  pub pages_cover :
      (limit : ℕ) (rows : List A)
      → 0 < limit
      → pages_from (pages_of (length rows) limit) 1 limit rows ≡ rows
  unfolding pages_of
  pages_cover limit rows h =
      let n = pages_of (length rows) limit in
      sym (append-nil (pages_from n 1 limit rows))
      ∙ (ap (λ l. pages_from n 1 limit rows ++ l)
            (sym (drop_all ((0 + n) * limit) rows (pages_suffice (length rows) limit h)))
          ∙ (pages_from_lem n 0 limit rows
              ∙ ap (λ i. drop i rows) {x = 0 * limit} {y = 0} (omega arith)))

-- `order page` is what ORDER BY does in the query for a page: the queries are separate, and the database orders anew
-- for each.
module _ (order : ℕ → List Charger → List Charger) (org_id : ℕ) (status_filter : Option String)
    (below : Charger → Bool) (limit : ℕ) (db : Db) where
  -- the chargers that the filters select
  abbrev pub selected : List Charger
  selected = select (is_listed org_id status_filter below) db.chargers

  -- the answers for `n` pages from `page` on, one after the other
  pub listed_from : ℕ → ℕ → List Charger
  listed_from zero page = []
  listed_from (suc n) page =
      (list_chargers (order page) org_id status_filter below page limit db).chargers
      ++ listed_from n (suc page)

  -- where all the queries have one order, the answers are pages of one list
  listed_from_lem :
      (rows : List Charger)
      → ((k : ℕ) → order k selected ≡ rows)
      → (n page : ℕ) → listed_from n page ≡ pages_from n page limit rows
  unfolding listed_from pages_from list_chargers
  listed_from_lem rows same zero page = refl
  listed_from_lem rows same (suc n) page =
      ap₂ ◌++◌ (ap (page_of page limit) (same page)) (listed_from_lem rows same n (suc page))

  -- With a limit of at least one row: the pages of `list_chargers` from the first to as many as each answer counts,
  -- one after the other, are the chargers that the filters select, each as often as it is in the table, and newest
  -- first. Each query orders the selected rows anew, by descending time of creation; no two of them have one time of
  -- creation, and the table does not change between the queries.
  pub list_chargers_cover :
      (page : ℕ)
      → 0 < limit
      → IsDistinct (λ c. c.created_at) selected
      → ((k : ℕ) → Permᴰ selected (order k selected))
      → ((k : ℕ) → IsDescending (λ c. c.created_at) (order k selected))
      → Permᴰ selected (
          listed_from (list_chargers (order page) org_id status_filter below page limit db).pages 1)
        × IsDescending
            (λ c. c.created_at)
            (listed_from
              (list_chargers (order page) org_id status_filter below page limit db).pages
              1)
  unfolding list_chargers
  list_chargers_cover page h distinct same sorted =
      let rows = order 1 selected in
      let one : (k : ℕ) → order k selected ≡ rows = λ k.
        descending_unique (λ c. c.created_at) selected (order k selected) rows distinct (same k)
          (same 1) (sorted k) (sorted 1) in
      let all : listed_from (pages_of (length selected) limit) 1 ≡ rows =
        listed_from_lem rows one (pages_of (length selected) limit) 1
        ∙ rw (length-perm (same 1)) (pages_cover limit rows h) in
      (rw all (same 1), rw all (sorted 1))
