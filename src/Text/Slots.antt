-- ===== src/Text/Slots.antt =====
-- Parsing of references (packages/ocap-kernel/src/store/utils/parse-ref.ts, kernel-slots.ts). A string is
-- the list of its code points.
use ocap_kernel.Prelude.{
  inr, inl, Bool-cases, refl, ◌↔◌, false, true, ◌||◌, nat_beq, nat_beq_iff, arith, ◌≢◌, [],
  if◌then◌else◌, none, some, ◌++◌, ◌∷◌, ◌≡◌, ℕ, Bool, List, Option,
}
use ocap_kernel.Refs.{import_, export_, Direction}
use ocap_kernel.Exec.{bad_ref, err, ok, Result}

pub data RefContext : Type 0 where
  kernel_context vat_context remote_context : RefContext

-- `RefParts`
pub record RefParts : Type 0 where
  pub context : RefContext
  pub direction : Option Direction
  pub is_promise : Bool
  pub index : List ℕ

-- The sign, outside the kernel, and what follows it
unfoldable pub parse_direction : RefContext → Bool → List ℕ → Result RefParts
parse_direction kernel_context p rest =
    ok (record { context = kernel_context; direction = none; is_promise = p; index = rest })
parse_direction c p [] = err bad_ref
parse_direction c p (s ∷ rest) =
    if nat_beq s b'+'
    then ok (record { context = c; direction = some export_; is_promise = p; index = rest })
    else if nat_beq s b'-'
    then ok (record { context = c; direction = some import_; is_promise = p; index = rest })
    else err bad_ref

-- The letter of the type
unfoldable pub parse_type : RefContext → List ℕ → Result RefParts
unfolding parse_direction
parse_type c [] = err bad_ref
parse_type c (t ∷ rest) =
    if nat_beq t b'p'
    then parse_direction c true rest
    else if nat_beq t b'o'
    then parse_direction c false rest
    else err bad_ref

-- `parseRef`
unfoldable pub parse_ref : List ℕ → Result RefParts
unfolding parse_type
parse_ref [] = err bad_ref
parse_ref (c ∷ rest) =
    if nat_beq c b'k'
    then parse_type kernel_context rest
    else if nat_beq c b'o' || nat_beq c b'p'
    then parse_type vat_context (c ∷ rest)
    else if nat_beq c b'r'
    then parse_type remote_context rest
    else err bad_ref

-- The text that has these parts
abbrev pub context_text : RefContext → List ℕ
context_text kernel_context = b'k' ∷ []
context_text vat_context = []
context_text remote_context = b'r' ∷ []

abbrev pub direction_text : Option Direction → List ℕ → List ℕ
direction_text none rest = rest
direction_text (some export_) rest = b'+' ∷ rest
direction_text (some import_) rest = b'-' ∷ rest

abbrev pub ref_text : RefParts → List ℕ
ref_text p =
    context_text p.context
    ++ (if p.is_promise then b'p' else b'o') ∷ direction_text p.direction p.index

-- Only a reference outside the kernel has a direction.
abbrev pub IsWhole : RefContext → Option Direction → Type 0
IsWhole kernel_context d = d ≡ none
IsWhole c d = d ≢ none

text-direction :
    (c : RefContext) (p : Bool) (t : List ℕ) (r : RefParts)
    → parse_direction c p t ≡ ok r
    → (r.context ≡ c)
      × ((r.is_promise ≡ p)
          × ((direction_text r.direction r.index ≡ t) × IsWhole r.context r.direction))
unfolding parse_direction
text-direction kernel_context p t r h = ground arith
text-direction vat_context p [] r h = cc
text-direction remote_context p [] r h = cc
text-direction vat_context p (s ∷ rest) r h = ground (arith, nat_beq_iff s b'+', nat_beq_iff s b'-')
text-direction remote_context p (s ∷ rest) r h =
    ground (arith, nat_beq_iff s b'+', nat_beq_iff s b'-')

text-type :
    (c : RefContext) (t : List ℕ) (r : RefParts)
    → parse_type c t ≡ ok r
    → (r.context ≡ c)
      × (((if r.is_promise then b'p' else b'o') ∷ direction_text r.direction r.index ≡ t)
          × IsWhole r.context r.direction)
unfolding parse_type
text-type c [] r h = cc
text-type c (t ∷ rest) r h = ground (
  arith,
  text-direction c true rest r,
  text-direction c false rest r,
  nat_beq_iff t b'p',
  nat_beq_iff t b'o',
)

-- What is parsed, written out again, is the text that was parsed.
text-parse_ref :
    (t : List ℕ) (r : RefParts)
    → parse_ref t ≡ ok r
    → (ref_text r ≡ t) × IsWhole r.context r.direction
unfolding parse_ref
text-parse_ref [] r h = cc
text-parse_ref (c ∷ rest) r h = elim (Bool-cases (nat_beq c b'k')) [
  | inl k ↦ ground (arith, text-type kernel_context rest r, nat_beq_iff c b'k')
  | inr k ↦ elim (Bool-cases (nat_beq c b'o' || nat_beq c b'p')) [
    | inl v ↦ ground (arith, text-type vat_context (c ∷ rest) r)
    | inr v ↦ ground (arith, text-type remote_context rest r, nat_beq_iff c b'r')
  ]
]

-- Parts that are written out parse to the same parts.
parse_ref-parts :
    (c : RefContext) (d : Option Direction) (p : Bool) (i : List ℕ)
    → IsWhole c d
    → parse_ref (ref_text (record { context = c; direction = d; is_promise = p; index = i }))
      ≡ ok (record { context = c; direction = d; is_promise = p; index = i })
unfolding parse_ref parse_type parse_direction
parse_ref-parts kernel_context d true i h = rw (h) refl
parse_ref-parts kernel_context d false i h = rw (h) refl
parse_ref-parts vat_context none p i h = absurd (h refl)
parse_ref-parts remote_context none p i h = absurd (h refl)
parse_ref-parts vat_context (some export_) true i h = refl
parse_ref-parts vat_context (some export_) false i h = refl
parse_ref-parts vat_context (some import_) true i h = refl
parse_ref-parts vat_context (some import_) false i h = refl
parse_ref-parts remote_context (some export_) true i h = refl
parse_ref-parts remote_context (some export_) false i h = refl
parse_ref-parts remote_context (some import_) true i h = refl
parse_ref-parts remote_context (some import_) false i h = refl

-- `parseRef` of a text gives these parts exactly if the text is what they are written as and they have a
-- direction exactly outside the kernel.
pub parse_ref-text :
    (t : List ℕ) (r : RefParts)
    → (parse_ref t ≡ ok r) ↔ ((ref_text r ≡ t) × IsWhole r.context r.direction)
parse_ref-text t r = (there, back)
  where
    there : parse_ref t ≡ ok r → (ref_text r ≡ t) × IsWhole r.context r.direction
    there = text-parse_ref t r

    back : (ref_text r ≡ t) × IsWhole r.context r.direction → parse_ref t ≡ ok r
    back h = rw (← h.0) (parse_ref-parts r.context r.direction r.is_promise r.index h.1)
