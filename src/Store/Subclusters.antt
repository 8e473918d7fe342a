-- ===== src/Store/Subclusters.antt =====
-- The subclusters and the vats in them (packages/ocap-kernel/src/store/methods/subclusters.ts). The
-- configuration of a subcluster is only passed on, and the subclusters of the system are left out.
use ocap_kernel.Prelude.{
  nat_eq, ◌==◌, ◌++◌, map, not, false, Bool, if◌then◌else◌, none, some, ◌+◌, List, Option, Eq, ℕ,
  [], ◌∷◌,
}
use ocap_kernel.Dict.{put, delete, get, Dict}
use ocap_kernel.Exec.{in_other_subcluster, pure, no_subcluster, err, ◌>>=◌, ok, required}
use ocap_kernel.Refs.{endpoint_eq, EndpointId}
use ocap_kernel.Store.State.{Store, Subcluster, M}
use Prim.Native.String.{String}
use text.Mathlib.Text
use text.Mathlib.TextEquality.{eq_iff}

instance abbrev pub string_eq : Eq String
string_eq = record { beq = λ s t. Text.◌==◌ s t; beq_iff = eq_iff }

-- `subclusters.find((sc) => sc.id === subclusterId)`
unfoldable pub find_subcluster : ℕ → List Subcluster → Option Subcluster
find_subcluster id [] = none
find_subcluster id (c ∷ cs) =
    let rest = find_subcluster id cs in if c.id == id then some c else rest

-- The list, with the subcluster that `find` finds replaced
unfoldable pub replace_subcluster : ℕ → Subcluster → List Subcluster → List Subcluster
replace_subcluster id d [] = []
replace_subcluster id d (c ∷ cs) =
    let rest = replace_subcluster id d cs in if c.id == id then d ∷ cs else c ∷ rest

-- `subclusters.filter((sc) => sc.id !== subclusterId)`
unfoldable pub without_subcluster : ℕ → List Subcluster → List Subcluster
without_subcluster id [] = []
without_subcluster id (c ∷ cs) =
    let rest = without_subcluster id cs in if c.id == id then rest else c ∷ rest

-- `vats[vatName] = vatId`
unfoldable pub set_vat :
    String → EndpointId → List (String × EndpointId) → List (String × EndpointId)
set_vat name v [] = (name, v) ∷ []
set_vat name v ((n, w) ∷ rest) =
    let kept = set_vat name v rest in if n == name then (name, v) ∷ rest else (n, w) ∷ kept

-- `Object.entries(vats).find(([, id]) => id === vatId)`, deleted
unfoldable pub drop_vat : EndpointId → List (String × EndpointId) → List (String × EndpointId)
drop_vat v [] = []
drop_vat v ((n, w) ∷ rest) = let kept = drop_vat v rest in if w == v then rest else (n, w) ∷ kept

-- `addSubcluster`
unfoldable pub add_subcluster : M ℕ
add_subcluster s = (
  ok s.next_subcluster_id,
  record s {
    next_subcluster_id = s.next_subcluster_id + 1;
    subclusters = s.subclusters ++ (record { id = s.next_subcluster_id; vats = [] } ∷ []);
  },
)

-- `getSubcluster`
unfoldable pub get_subcluster : ℕ → Store → Option Subcluster
unfolding find_subcluster
get_subcluster id s = find_subcluster id s.subclusters

-- `currentMap[vatId] && currentMap[vatId] !== subclusterId`
abbrev pub belongs_elsewhere : ℕ → Option ℕ → Bool
belongs_elsewhere id none = false
belongs_elsewhere id (some j) = not (j == id)

abbrev pub add_vat_to : ℕ → String → EndpointId → Option Subcluster → M (Unit {0})
add_vat_to id name v none s = (err no_subcluster, s)
add_vat_to id name v (some c) s =
    if belongs_elsewhere id (get v s.vat_to_subcluster) then (err in_other_subcluster, s) else (
      ok tt,
      record s {
        vat_to_subcluster = put v id s.vat_to_subcluster;
        subclusters =
            replace_subcluster id (record c { vats = set_vat name v c.vats }) s.subclusters;
      },
    )

-- `addSubclusterVat`
unfoldable pub add_subcluster_vat : ℕ → String → EndpointId → M (Unit {0})
unfolding find_subcluster
add_subcluster_vat id name v s = add_vat_to id name v (find_subcluster id s.subclusters) s

-- `getSubclusterVats`
unfoldable pub get_subcluster_vats : ℕ → M (List EndpointId)
unfolding get_subcluster
get_subcluster_vats id = do
  c ← λ s. required (get_subcluster id s) no_subcluster s
  pure (map (λ x. x.1) c.vats)

abbrev pub drop_vat_from : ℕ → EndpointId → Option Subcluster → List Subcluster → List Subcluster
drop_vat_from id v none cs = cs
drop_vat_from id v (some c) cs = replace_subcluster id (record c { vats = drop_vat v c.vats }) cs

abbrev pub is_of : ℕ → Option ℕ → Bool
is_of id none = false
is_of id (some j) = j == id

-- A vat's entry in the map goes if it is of the subcluster.
abbrev pub unmap_vat : ℕ → EndpointId → Dict EndpointId ℕ → Dict EndpointId ℕ
unmap_vat id v m = if is_of id (get v m) then delete v m else m

-- `deleteSubclusterVat`
unfoldable pub delete_subcluster_vat : ℕ → EndpointId → Store → Store
unfolding find_subcluster drop_vat replace_subcluster
delete_subcluster_vat id v s = record s {
  subclusters = drop_vat_from id v (find_subcluster id s.subclusters) s.subclusters;
  vat_to_subcluster = unmap_vat id v s.vat_to_subcluster;
}

-- The loop of `deleteSubcluster` over the vats of the subcluster
unfoldable pub unmap_vats : ℕ → List (String × EndpointId) → Dict EndpointId ℕ → Dict EndpointId ℕ
unmap_vats id [] m = m
unmap_vats id ((n, v) ∷ rest) m = unmap_vat id v (unmap_vats id rest m)

abbrev pub delete_found : ℕ → Option Subcluster → Store → Store
delete_found id none s = s
delete_found id (some c) s = record s {
  subclusters = without_subcluster id s.subclusters;
  vat_to_subcluster = unmap_vats id c.vats s.vat_to_subcluster;
}

-- `deleteSubcluster`
unfoldable pub delete_subcluster : ℕ → Store → Store
unfolding find_subcluster without_subcluster unmap_vats
delete_subcluster id s = delete_found id (find_subcluster id s.subclusters) s

-- `getVatSubcluster`
unfoldable pub get_vat_subcluster : EndpointId → M ℕ
get_vat_subcluster v s = required (get v s.vat_to_subcluster) no_subcluster s

abbrev pub remove_from : EndpointId → Option ℕ → Store → Store
remove_from v none s = s
remove_from v (some id) s = delete_subcluster_vat id v s

-- `removeVatFromSubcluster`
unfoldable pub remove_vat_from_subcluster : EndpointId → Store → Store
unfolding delete_subcluster_vat
remove_vat_from_subcluster v s = remove_from v (get v s.vat_to_subcluster) s
