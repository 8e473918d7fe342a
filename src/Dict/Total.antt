-- ===== src/Dict/Total.antt =====
-- Sums over the rows of a family, for counting references.
use ocap_kernel.Prelude.{false, ◌==◌, ℕ, ◌+◌, ◌≡◌, refl, Option, none, some, [], ◌∷◌, Eq, arith}
use ocap_kernel.Dict.Laws.{Dict, get, put, delete, get-delete}

module _ {ℓ κ} {K : Type ℓ} {V : Type κ} where
  abbrev pub total : (K → V → ℕ) → Dict K V → ℕ
  total f [] = 0
  total f ((k, v) ∷ m) = f k v + total f m

  -- What the row of a key, if it has one, adds to a sum.
  abbrev pub row : (K → V → ℕ) → K → Option V → ℕ
  row f k none = 0
  row f k (some v) = f k v

module _ {ℓ κ} {K : Type ℓ} {V : Type κ} ⦃e : Eq K⦄ where
  -- No key has two rows.
  abbrev pub IsDict : Dict K V → Type κ
  IsDict [] = Unit
  IsDict ((k, v) ∷ m) = (get k m ≡ none) × IsDict m

  pub delete-IsDict : (k : K) (m : Dict K V) → IsDict m → IsDict (delete k m)
  unfolding delete
  delete-IsDict k [] h = tt
  delete-IsDict k ((j, v) ∷ m) h = ground (arith, delete-IsDict k m h.1, get-delete k j m)

  pub put-IsDict : (k : K) (v : V) (m : Dict K V) → IsDict m → IsDict (put k v m)
  unfolding put
  put-IsDict k v m h = ground (arith, delete-IsDict k m h, get-delete k k m, (e.beq_iff k k).1 refl)

  delete_absent : (k : K) (m : Dict K V) → get k m ≡ none → delete k m ≡ m
  unfolding get delete
  delete_absent k [] h = refl
  delete_absent k ((j, v) ∷ m) h = ground (arith, delete_absent k m)

  pub total-delete :
      (f : K → V → ℕ) (k : K) (m : Dict K V)
      → IsDict m
      → total f (delete k m) + row f k (get k m) ≡ total f m
  unfolding delete get
  total-delete f k [] h = omega arith
  total-delete f k ((j, v) ∷ m) h =
      ground (arith, total-delete f k m h.1, delete_absent k m, e.beq_iff j k)

  pub total-put :
      (f : K → V → ℕ) (k : K) (v : V) (m : Dict K V)
      → IsDict m
      → total f (put k v m) + row f k (get k m) ≡ total f m + f k v
  unfolding put
  total-put f k v m h = omega (arith, total-delete f k m h)

  -- A sum over the rows that a deletion leaves does not depend on the key that was deleted.
  pub total-delete_ext :
      (f g : K → V → ℕ) (k : K) (m : Dict K V)
      → ((i : K) (x : V) → (i == k) ≡ false → f i x ≡ g i x)
      → total f (delete k m) ≡ total g (delete k m)
  unfolding delete
  total-delete_ext f g k [] h = refl
  total-delete_ext f g k ((j, v) ∷ m) h = ground (arith, total-delete_ext f g k m h, h j v)
