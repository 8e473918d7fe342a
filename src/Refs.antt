-- ===== src/Refs.antt =====
-- References and endpoint identifiers (packages/ocap-kernel/src/types.ts): the strings that the
-- program builds from a prefix letter and a counter, as data. A number stands for its decimal
-- spelling.
use ocap_kernel.Prelude.{
  refl, Option, none, some, ℕ, ◌≡◌, ◌↔◌, Bool, true, false, ◌&&◌, arith, Eq, nat_beq,
}

-- `ko12` and `kp3`.
pub data KRef : Type 0 where
  ko : ℕ → KRef
  kp : ℕ → KRef

-- `v1` and `r2`.
pub data EndpointId : Type 0 where
  vat : ℕ → EndpointId
  remote : ℕ → EndpointId

-- The owner of an object and the decider of a promise: an endpoint, or the word `kernel`.
pub data Owner : Type 0 where
  kernel : Owner
  endpoint : EndpointId → Owner

pub data Direction : Type 0 where
  export_ : Direction
  import_ : Direction

-- What follows the sign of an ERef: a number, or the `d10/1` and `v3/4:0` of an object that the vat
-- keeps in its own storage.
pub data Index : Type 0 where
  plain : ℕ → Index
  stored : Bool → ℕ → ℕ → Index
  facet : Bool → ℕ → ℕ → ℕ → Index

-- `o+1`, `p-7`, `ro+1`, `rp-2`: the parts that `parseRef` finds. `in_remote` is `context` being
-- `remote`, the other context of an ERef being `vat`.
pub record ERef : Type 0 where
  pub in_remote : Bool
  pub is_promise : Bool
  pub direction : Direction
  pub index : Index

abbrev pub bool_beq : Bool → Bool → Bool
bool_beq true true = true
bool_beq false false = true
bool_beq _ _ = false

abbrev pub kref_beq : KRef → KRef → Bool
kref_beq (ko a) (ko b) = nat_beq a b
kref_beq (kp a) (kp b) = nat_beq a b
kref_beq _ _ = false

abbrev pub endpoint_beq : EndpointId → EndpointId → Bool
endpoint_beq (vat a) (vat b) = nat_beq a b
endpoint_beq (remote a) (remote b) = nat_beq a b
endpoint_beq _ _ = false

abbrev pub owner_beq : Owner → Owner → Bool
owner_beq kernel kernel = true
owner_beq (endpoint a) (endpoint b) = endpoint_beq a b
owner_beq _ _ = false

abbrev pub option_owner_beq : Option Owner → Option Owner → Bool
option_owner_beq none none = true
option_owner_beq (some a) (some b) = owner_beq a b
option_owner_beq _ _ = false

abbrev pub direction_beq : Direction → Direction → Bool
direction_beq export_ export_ = true
direction_beq import_ import_ = true
direction_beq _ _ = false

abbrev pub index_beq : Index → Index → Bool
index_beq (plain a) (plain b) = nat_beq a b
index_beq (stored d a b) (stored d' a' b') = bool_beq d d' && (nat_beq a a' && nat_beq b b')
index_beq (facet d a b c) (facet d' a' b' c') =
    bool_beq d d' && (nat_beq a a' && (nat_beq b b' && nat_beq c c'))
index_beq _ _ = false

abbrev pub eref_beq : ERef → ERef → Bool
eref_beq a b =
    (bool_beq a.in_remote b.in_remote && bool_beq a.is_promise b.is_promise)
    && (direction_beq a.direction b.direction && index_beq a.index b.index)

pub kref_beq_iff : (a b : KRef) → (kref_beq a b ≡ true) ↔ (a ≡ b)
kref_beq_iff (ko a) (ko b) = ground arith
kref_beq_iff _ _ = ground arith

pub endpoint_beq_iff : (a b : EndpointId) → (endpoint_beq a b ≡ true) ↔ (a ≡ b)
endpoint_beq_iff (vat a) (vat b) = ground arith
endpoint_beq_iff _ _ = ground arith

pub owner_beq_iff : (a b : Owner) → (owner_beq a b ≡ true) ↔ (a ≡ b)
owner_beq_iff (endpoint a) (endpoint b) = ground (arith, endpoint_beq_iff a b)
owner_beq_iff _ _ = ground arith

bool_beq_iff : (a b : Bool) → (bool_beq a b ≡ true) ↔ (a ≡ b)
bool_beq_iff a b = ground arith

index_beq_iff : (a b : Index) → (index_beq a b ≡ true) ↔ (a ≡ b)
index_beq_iff (plain a) (plain b) = ground arith
index_beq_iff _ _ = ground arith

pub eref_beq_iff : (a b : ERef) → (eref_beq a b ≡ true) ↔ (a ≡ b)
eref_beq_iff a b = ground (
  arith,
  bool_beq_iff a.in_remote b.in_remote,
  bool_beq_iff a.is_promise b.is_promise,
  index_beq_iff a.index b.index,
)

pub option_owner_beq_self : (o : Option Owner) → option_owner_beq o o ≡ true
option_owner_beq_self none = refl
option_owner_beq_self (some a) = (owner_beq_iff a a).1 refl

instance abbrev pub kref_eq : Eq KRef
kref_eq = record { beq = kref_beq; beq_iff = kref_beq_iff }

instance abbrev pub endpoint_eq : Eq EndpointId
endpoint_eq = record { beq = endpoint_beq; beq_iff = endpoint_beq_iff }

instance abbrev pub owner_eq : Eq Owner
owner_eq = record { beq = owner_beq; beq_iff = owner_beq_iff }

instance abbrev pub eref_eq : Eq ERef
eref_eq = record { beq = eref_beq; beq_iff = eref_beq_iff }

-- `isPromiseRef`: the second character is `p`.
abbrev pub is_promise_ref : KRef → Bool
is_promise_ref (ko n) = false
is_promise_ref (kp n) = true

abbrev pub is_vat_id : EndpointId → Bool
is_vat_id (vat n) = true
is_vat_id (remote n) = false

abbrev pub is_remote_id : EndpointId → Bool
is_remote_id (vat n) = false
is_remote_id (remote n) = true

abbrev pub is_import : ERef → Bool
is_import e = direction_beq e.direction import_

abbrev pub is_export : ERef → Bool
is_export e = direction_beq e.direction export_
