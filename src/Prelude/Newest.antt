-- ===== src/Prelude/Newest.antt =====
-- ORDER BY a number DESC: where no two rows have one number, a table has one such order.
use Prim.Native.Nat.{ℕ, suc, ◌≤◌, ◌<◌}
use mathlib.Core.Path.{◌≡◌, refl, sym, ap, ◌∙◌, subst}
use mathlib.Core.Logic.{◌≢◌}
use mathlib.Core.List.{List, [], ◌∷◌, Memᴰ, Permᴰ}
use mathlib.Core.List.Permᴰ
use native.Mathlib.Omega.{arith}
use charge_pulse.Prelude.Lists.{length, All}

module _ {A : Type 0} where
  All-mem : (P : A → Type 0) {x : A} {xs : List A} → Memᴰ x xs → All P xs → P x
  All-mem P (Memᴰ.head e) h = rw e h.0
  All-mem P (Memᴰ.tail m) h = All-mem P m h.1

  All-both :
      {P Q R : A → Type 0}
      → ((x : A) → P x → Q x → R x)
      → (xs : List A) → All P xs
      → All Q xs
      → All R xs
  All-both f [] h k = tt
  All-both f (x ∷ xs) h k = (f x h.0 k.0, All-both f xs h.1 k.1)

  All-perm : (P : A → Type 0) {xs ys : List A} → Permᴰ xs ys → All P xs → All P ys
  All-perm P Permᴰ.nil h = tt
  All-perm P (Permᴰ.cons e d) h = (rw (← e) h.0, All-perm P d h.1)
  All-perm P (Permᴰ.swap e k) h = (rw (← k) h.1.0, (rw (← e) h.0, h.1.1))
  All-perm P (Permᴰ.trans d c) h = All-perm P c (All-perm P d h)

  mem-perm : {x : A} {xs ys : List A} → Permᴰ xs ys → Memᴰ x xs → Memᴰ x ys
  mem-perm Permᴰ.nil m = elim m [ ]
  mem-perm (Permᴰ.cons e d) (Memᴰ.head h) = Memᴰ.head (h ∙ e)
  mem-perm (Permᴰ.cons e d) (Memᴰ.tail m) = Memᴰ.tail (mem-perm d m)
  mem-perm (Permᴰ.swap e k) (Memᴰ.head h) = Memᴰ.tail (Memᴰ.head (h ∙ e))
  mem-perm (Permᴰ.swap e k) (Memᴰ.tail (Memᴰ.head h)) = Memᴰ.head (h ∙ k)
  mem-perm (Permᴰ.swap e k) (Memᴰ.tail (Memᴰ.tail m)) = Memᴰ.tail (Memᴰ.tail m)
  mem-perm (Permᴰ.trans d c) m = mem-perm c (mem-perm d m)

  pub length-perm : {xs ys : List A} → Permᴰ xs ys → length xs ≡ length ys
  length-perm Permᴰ.nil = refl
  length-perm (Permᴰ.cons e d) = ap suc (length-perm d)
  length-perm (Permᴰ.swap e k) = refl
  length-perm (Permᴰ.trans d c) = length-perm d ∙ length-perm c

module _ {A : Type 0} (key : A → ℕ) where
  -- the rows are in descending order
  abbrev pub IsDescending : List A → Type 0
  IsDescending [] = Unit
  IsDescending (x ∷ xs) = All (λ y. key y ≤ key x) xs × IsDescending xs

  -- no two rows have one number
  abbrev pub IsDistinct : List A → Type 0
  IsDistinct [] = Unit
  IsDistinct (x ∷ xs) = All (λ y. key y ≢ key x) xs × IsDistinct xs

  abbrev IsStrict : List A → Type 0
  IsStrict [] = Unit
  IsStrict (x ∷ xs) = All (λ y. key y < key x) xs × IsStrict xs

  IsDistinct-perm : {xs ys : List A} → Permᴰ xs ys → IsDistinct xs → IsDistinct ys
  IsDistinct-perm Permᴰ.nil h = tt
  IsDistinct-perm (Permᴰ.cons e d) h = (rw (← e) (All-perm _ d h.0), IsDistinct-perm d h.1)
  IsDistinct-perm (Permᴰ.swap {l = l} e k) h = (
    (
      λ q. h.0.0 (ap key k ∙ sym q ∙ sym (ap key e)),
      subst (λ z. All (λ y. key y ≢ key z) l) k h.1.0,
    ),
    (subst (λ z. All (λ y. key y ≢ key z) l) e h.0.1, h.1.1),
  )
  IsDistinct-perm (Permᴰ.trans d c) h = IsDistinct-perm c (IsDistinct-perm d h)

  strict : (xs : List A) → IsDescending xs → IsDistinct xs → IsStrict xs
  strict [] h k = tt
  strict (x ∷ xs) h k =
      (All-both (λ y le differ. omega (arith, le, differ)) xs h.0 k.0, strict xs h.1 k.1)

  -- what is in one list and in another, less its first row
  in_tail : {c x : A} {xs : List A} → Memᴰ c (x ∷ xs) → key c < key x → Memᴰ c xs
  in_tail (Memᴰ.head e) less = absurd (omega (arith, ap key e, less))
  in_tail (Memᴰ.tail m) less = m

  same_head :
      {x y : A} {xs ys : List A}
      → Memᴰ x (y ∷ ys)
      → Memᴰ y (x ∷ xs)
      → All (λ z. key z < key x) xs
      → All (λ z. key z < key y) ys
      → x ≡ y
  same_head (Memᴰ.head e) n h k = e
  same_head (Memᴰ.tail m) (Memᴰ.head e) h k = sym e
  same_head {x = x} {y = y} (Memᴰ.tail m) (Memᴰ.tail n) h k =
      let above = All-mem (λ z. key z < key y) m k in
      let below = All-mem (λ z. key z < key x) n h in absurd (omega (arith, above, below))

  strict_unique :
      (xs ys : List A)
      → IsStrict xs
      → IsStrict ys
      → ((c : A) → Memᴰ c xs → Memᴰ c ys)
      → ((c : A) → Memᴰ c ys → Memᴰ c xs)
      → xs ≡ ys
  strict_unique [] [] h k to from = refl
  strict_unique [] (y ∷ ys) h k to from = elim (from y (Memᴰ.head refl)) [ ]
  strict_unique (x ∷ xs) [] h k to from = elim (to x (Memᴰ.head refl)) [ ]
  strict_unique (x ∷ xs) (y ∷ ys) h k to from =
      let e = same_head (to x (Memᴰ.head refl)) (from y (Memᴰ.head refl)) h.0 k.0 in
      let q = ap key e in
      let rest =
        strict_unique xs ys h.1 k.1
          (λ c m.
            let less = All-mem (λ z. key z < key x) m h.0 in
            in_tail (to c (Memᴰ.tail m)) (omega (arith, less, q)))
          (λ c m.
            let less = All-mem (λ z. key z < key y) m k.0 in
            in_tail (from c (Memᴰ.tail m)) (omega (arith, less, q))) in
      ap (λ z. z ∷ xs) e ∙ ap (λ l. y ∷ l) rest

  -- two answers with the rows of one table
  pub descending_unique :
      (rows xs ys : List A)
      → IsDistinct rows
      → Permᴰ rows xs
      → Permᴰ rows ys
      → IsDescending xs
      → IsDescending ys
      → xs ≡ ys
  descending_unique rows xs ys distinct px py h k =
      let d : Permᴰ xs ys = Permᴰ.trans (Permᴰ.symm px) py in
      strict_unique xs ys (strict xs h (IsDistinct-perm px distinct))
        (strict ys k (IsDistinct-perm py distinct)) (λ c m. mem-perm d m)
        (λ c m. mem-perm (Permᴰ.symm d) m)
