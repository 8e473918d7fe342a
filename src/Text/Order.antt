-- ===== src/Text/Order.antt =====
-- `array.sort()`: by the text of each element, code unit by code unit.
use ocap_kernel.Prelude.{
  ℕ, ◌≡◌, refl, Bool, true, false, ◌&&◌, ◌||◌, List, [], ◌∷◌, if◌then◌else◌, ltb, nat_beq, arith,
}

-- Whether the first text comes no later than the second.
unfoldable pub lex_leb : List ℕ → List ℕ → Bool
lex_leb [] ys = true
lex_leb (x ∷ xs) [] = false
lex_leb (x ∷ xs) (y ∷ ys) = ltb x y || (nat_beq x y && lex_leb xs ys)

module _ {ℓ} {A : Type ℓ} (text : A → List ℕ) where
  -- An element goes in front of the first that it comes no later than.
  unfoldable pub insert : A → List A → List A
  unfolding lex_leb
  insert a [] = a ∷ []
  insert a (x ∷ xs) =
      let rest = insert a xs in if lex_leb (text a) (text x) then a ∷ x ∷ xs else x ∷ rest

  unfoldable pub sort : List A → List A
  unfolding insert
  sort [] = []
  sort (x ∷ xs) = insert x (sort xs)

  -- Each element comes no later than those after it.
  abbrev pub NoLater : A → List A → Type 0
  NoLater a [] = Unit
  NoLater a (x ∷ xs) = (lex_leb (text a) (text x) ≡ true) × NoLater a xs

  abbrev pub IsSorted : List A → Type 0
  IsSorted [] = Unit
  IsSorted (x ∷ xs) = NoLater x xs × IsSorted xs

pub lex_leb_total : (xs ys : List ℕ) → lex_leb xs ys ≡ false → lex_leb ys xs ≡ true
unfolding lex_leb
lex_leb_total [] ys h = ground arith
lex_leb_total (x ∷ xs) [] h = refl
lex_leb_total (x ∷ xs) (y ∷ ys) h = ground (arith, lex_leb_total xs ys)

pub lex_leb_trans :
    (xs ys zs : List ℕ) → lex_leb xs ys ≡ true → lex_leb ys zs ≡ true → lex_leb xs zs ≡ true
unfolding lex_leb
lex_leb_trans [] ys zs h k = refl
lex_leb_trans (x ∷ xs) [] zs h k = ground arith
lex_leb_trans (x ∷ xs) (y ∷ ys) [] h k = ground arith
lex_leb_trans (x ∷ xs) (y ∷ ys) (z ∷ zs) h k = ground (arith, lex_leb_trans xs ys zs)

module _ {ℓ} {A : Type ℓ} (text : A → List ℕ) where
  NoLater-trans :
      (a b : A) (xs : List A)
      → lex_leb (text a) (text b) ≡ true
      → NoLater text b xs
      → NoLater text a xs
  NoLater-trans a b [] h l = tt
  NoLater-trans a b (x ∷ xs) h l =
      (lex_leb_trans (text a) (text b) (text x) h l.0, NoLater-trans a b xs h l.1)

  NoLater-insert :
      (a b : A) (xs : List A)
      → lex_leb (text a) (text b) ≡ true
      → NoLater text a xs
      → NoLater text a (insert text b xs)
  unfolding insert
  NoLater-insert a b [] h l = (h, tt)
  NoLater-insert a b (x ∷ xs) h l = ground (arith, NoLater-insert a b xs h l.1)

  insert-IsSorted : (a : A) (xs : List A) → IsSorted text xs → IsSorted text (insert text a xs)
  unfolding insert
  insert-IsSorted a [] s = (tt, tt)
  insert-IsSorted a (x ∷ xs) s = ground (
    arith,
    insert-IsSorted a xs s.1,
    NoLater-trans a x xs,
    NoLater-insert x a xs,
    lex_leb_total (text a) (text x),
  )

  pub sort-IsSorted : (xs : List A) → IsSorted text (sort text xs)
  unfolding sort
  sort-IsSorted [] = tt
  sort-IsSorted (x ∷ xs) = insert-IsSorted x (sort text xs) (sort-IsSorted xs)
