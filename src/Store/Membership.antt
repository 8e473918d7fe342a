-- ===== src/Store/Membership.antt =====
-- Every vat that the map places in a subcluster is listed by it.
use ocap_kernel.Prelude.{
  inr, inl, Option-cases, Bool-cases, refl, ◌||◌, nat_eq, [], arith, false, none, ◌&&◌, Bool,
  if◌then◌else◌, some, true, List, Option, ℕ, ◌∷◌, ◌≡◌, ◌==◌, ◌++◌,
}
use ocap_kernel.Store.Collect.{clear_empty_subclusters, non_empty}
use ocap_kernel.Store.Subclusters.{
  belongs_elsewhere, remove_vat_from_subcluster, add_subcluster_vat, delete_found, drop_vat_from,
  remove_from, string_eq, add_subcluster, add_vat_to, delete_subcluster, delete_subcluster_vat,
  set_vat, is_of, unmap_vat, replace_subcluster, without_subcluster, drop_vat, find_subcluster,
  unmap_vats,
}
use ocap_kernel.Dict.{get-put, put, has, get-delete, is_some, Dict, get}
use Prim.Native.String.{String}
use ocap_kernel.Refs.{endpoint_beq_iff, endpoint_eq, EndpointId}
use ocap_kernel.Store.State.{Subcluster, Store}

-- The vat is among those of the subcluster.
abbrev pub has_vat : EndpointId → List (String × EndpointId) → Bool
has_vat v [] = false
has_vat v ((n, w) ∷ rest) = (w == v) || has_vat v rest

abbrev pub lists : EndpointId → Option Subcluster → Bool
lists v none = false
lists v (some c) = has_vat v c.vats

abbrev pub IsPlaced : Store → Type 0
IsPlaced s =
    (v : EndpointId) (id : ℕ)
    → get v s.vat_to_subcluster ≡ some id
    → lists v (find_subcluster id s.subclusters) ≡ true

find-append :
    (id : ℕ) (d : Subcluster) (v : EndpointId) (cs : List Subcluster)
    → lists v (find_subcluster id cs) ≡ true
    → lists v (find_subcluster id (cs ++ (d ∷ []))) ≡ true
unfolding find_subcluster
find-append id d v [] q = absurd (ground (arith, q))
find-append id d v (c ∷ cs) q = ground (arith, q, find-append id d v cs)

find-replace :
    (i j : ℕ) (d : Subcluster) (cs : List Subcluster)
    → d.id ≡ i
    → find_subcluster j (replace_subcluster i d cs) ≡ (
        if j == i
        then (if is_some (find_subcluster i cs) then some d else none)
        else find_subcluster j cs)
unfolding find_subcluster replace_subcluster
find-replace i j d [] q = ground arith
find-replace i j d (c ∷ cs) q = ground (arith, q, find-replace i j d cs q)

find-without :
    (i j : ℕ) (cs : List Subcluster)
    → find_subcluster j (without_subcluster i cs) ≡ (if j == i then none else find_subcluster j cs)
unfolding find_subcluster without_subcluster
find-without i j [] = ground arith
find-without i j (c ∷ cs) = ground (arith, find-without i j cs)

find-id : (i : ℕ) (c : Subcluster) (cs : List Subcluster) → find_subcluster i cs ≡ some c → c.id ≡ i
unfolding find_subcluster
find-id i c [] q = absurd (ground (arith, q))
find-id i c (d ∷ cs) q = ground (arith, q, find-id i c cs)

has_vat-drop_vat :
    (v w : EndpointId) (vs : List (String × EndpointId))
    → (w == v) ≡ false
    → has_vat v (drop_vat w vs) ≡ has_vat v vs
unfolding drop_vat
has_vat-drop_vat v w [] q = refl
has_vat-drop_vat v w ((n, u) ∷ vs) q = ground (arith, q, has_vat-drop_vat v w vs q)

get-unmap_vat :
    (id : ℕ) (w v : EndpointId) (m : Dict EndpointId ℕ)
    → get v (unmap_vat id w m) ≡ (if (w == v) && is_of id (get v m) then none else get v m)
get-unmap_vat id w v m = ground (arith, get-delete w v m, endpoint_beq_iff w v)

get-unmap_vats :
    (id : ℕ) (v : EndpointId) (vs : List (String × EndpointId)) (m : Dict EndpointId ℕ)
    → get v (unmap_vats id vs m) ≡ (if has_vat v vs && is_of id (get v m) then none else get v m)
unfolding unmap_vats
get-unmap_vats id v [] m = ground arith
get-unmap_vats id v ((n, w) ∷ vs) m =
    ground (arith, get-unmap_vat id w v (unmap_vats id vs m), get-unmap_vats id v vs m)

abbrev pub has_name : String → Option Subcluster → Bool
has_name name none = false
has_name name (some c) = has name c.vats

has_vat-set_vat :
    (name : String) (v w : EndpointId) (vs : List (String × EndpointId))
    → has name vs ≡ false
    → has_vat w (set_vat name v vs) ≡ has_vat w vs || (v == w)
unfolding set_vat get
has_vat-set_vat name v w [] q = ground arith
has_vat-set_vat name v w ((n, u) ∷ vs) q = ground (arith, q, has_vat-set_vat name v w vs)

find-non_empty :
    (i : ℕ) (v : EndpointId) (cs : List Subcluster)
    → lists v (find_subcluster i cs) ≡ true
    → lists v (find_subcluster i (non_empty cs)) ≡ true
unfolding find_subcluster non_empty
find-non_empty i v [] q = q
find-non_empty i v (c ∷ cs) q = ground (arith, q, find-non_empty i v cs)

add_subcluster-IsPlaced : (s : Store) → IsPlaced s → IsPlaced (add_subcluster s).1
unfolding add_subcluster
add_subcluster-IsPlaced s p v id q =
    find-append id (record { id = s.next_subcluster_id; vats = [] }) v s.subclusters (p v id q)

-- The store with a vat added to a subcluster
abbrev with_vat : ℕ → String → EndpointId → Subcluster → Store → Store
with_vat id name v c s = record s {
  vat_to_subcluster = put v id s.vat_to_subcluster;
  subclusters = replace_subcluster id (record c { vats = set_vat name v c.vats }) s.subclusters;
}

with_vat-IsPlaced :
    (id : ℕ) (name : String) (v : EndpointId) (c : Subcluster) (s : Store)
    → find_subcluster id s.subclusters ≡ some c
    → has name c.vats ≡ false
    → IsPlaced s
    → IsPlaced (with_vat id name v c s)
with_vat-IsPlaced id name v c s f free p w j q = ground (
  arith,
  p w j,
  q,
  f,
  get-put v w id s.vat_to_subcluster,
  endpoint_beq_iff v w,
  has_vat-set_vat name v w c.vats free,
  find-replace id j (record c { vats = set_vat name v c.vats }) s.subclusters
      (find-id id c s.subclusters f),
)

add_vat_to-IsPlaced :
    (id : ℕ) (name : String) (v : EndpointId) (s : Store) (o : Option Subcluster)
    → find_subcluster id s.subclusters ≡ o
    → has_name name o ≡ false
    → IsPlaced s
    → IsPlaced (add_vat_to id name v o s).1
add_vat_to-IsPlaced id name v s none f free p = p
add_vat_to-IsPlaced id name v s (some c) f free p =
    elim (Bool-cases (belongs_elsewhere id (get v s.vat_to_subcluster))) [
      | inl q ↦ rw q p
      | inr q ↦ rw q (with_vat-IsPlaced id name v c s f free p)
    ]

drop_vat_from-listed :
    (id j : ℕ) (v w : EndpointId) (cs : List Subcluster)
    → ((w == v) && (j == id)) ≡ false
    → lists w (find_subcluster j cs) ≡ true
    → lists w (find_subcluster j (drop_vat_from id v (find_subcluster id cs) cs)) ≡ true
drop_vat_from-listed id j v w cs n q = elim (Option-cases (find_subcluster id cs)) [
  | inl f ↦ rw f q
  | inr (c, f) ↦ rw f (
      ground (
        arith,
        n,
        q,
        f,
        endpoint_beq_iff v w,
        has_vat-drop_vat w v c.vats,
        find-replace id j (record c { vats = drop_vat v c.vats }) cs (find-id id c cs f),
      ))
]

delete_subcluster_vat-IsPlaced :
    (id : ℕ) (v : EndpointId) (s : Store) → IsPlaced s → IsPlaced (delete_subcluster_vat id v s)
unfolding delete_subcluster_vat
delete_subcluster_vat-IsPlaced id v s p w j q =
    drop_vat_from-listed id j v w s.subclusters
      (ground (arith, q, get-unmap_vat id v w s.vat_to_subcluster, endpoint_beq_iff v w))
      (p w j (ground (arith, q, get-unmap_vat id v w s.vat_to_subcluster)))

delete_found-IsPlaced :
    (id : ℕ) (s : Store) (o : Option Subcluster)
    → find_subcluster id s.subclusters ≡ o
    → IsPlaced s
    → IsPlaced (delete_found id o s)
delete_found-IsPlaced id s none f p = p
delete_found-IsPlaced id s (some c) f p = λ w j q. ground (
  arith,
  q,
  f,
  p w j,
  get-unmap_vats id w c.vats s.vat_to_subcluster,
  find-without id j s.subclusters,
)

-- A change of the subclusters. A vat is added under a name that is free in the subcluster.
pub data Change (s : Store) : Store → Type 0 where
  added : Change s (add_subcluster s).1
  joined :
      (id : ℕ) (name : String) (v : EndpointId)
      → has_name name (find_subcluster id s.subclusters) ≡ false
      → Change s (add_subcluster_vat id name v s).1
  left : (id : ℕ) (v : EndpointId) → Change s (delete_subcluster_vat id v s)
  removed : (v : EndpointId) → Change s (remove_vat_from_subcluster v s)
  deleted : (id : ℕ) → Change s (delete_subcluster id s)
  cleared : Change s (clear_empty_subclusters s)

remove_from-IsPlaced :
    (v : EndpointId) (o : Option ℕ) (s : Store) → IsPlaced s → IsPlaced (remove_from v o s)
remove_from-IsPlaced v none s p = p
remove_from-IsPlaced v (some id) s p = delete_subcluster_vat-IsPlaced id v s p

-- Where every vat that the map places in a subcluster is listed by it, every change of the subclusters,
-- refused ones included, keeps this so, as long as a vat that is added takes a name that is free.
pub Change-IsPlaced : (s t : Store) → IsPlaced s → Change s t → IsPlaced t
unfolding add_subcluster_vat remove_vat_from_subcluster delete_subcluster clear_empty_subclusters
Change-IsPlaced s t p added = add_subcluster-IsPlaced s p
Change-IsPlaced s t p (joined id name v free) =
    add_vat_to-IsPlaced id name v s (find_subcluster id s.subclusters) refl free p
Change-IsPlaced s t p (left id v) = delete_subcluster_vat-IsPlaced id v s p
Change-IsPlaced s t p (removed v) = remove_from-IsPlaced v (get v s.vat_to_subcluster) s p
Change-IsPlaced s t p (deleted id) =
    delete_found-IsPlaced id s (find_subcluster id s.subclusters) refl p
Change-IsPlaced s t p cleared = λ v id q. find-non_empty id v s.subclusters (p v id q)
