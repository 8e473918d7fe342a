-- ===== src/Store/Revocation.antt =====
-- Revocation of objects (packages/ocap-kernel/src/store/methods/revocation.ts).
use ocap_kernel.Exec.{promise_ref, raise, modify}
use ocap_kernel.Refs.{is_promise_ref, kref_eq, KRef}
use ocap_kernel.Prelude.{Bool, true, false, if◌then◌else◌}
use ocap_kernel.Dict.{put, delete, has}
use ocap_kernel.Store.State.{Store, M}

-- `setRevoked`
unfoldable pub set_revoked : KRef → Bool → Store → Store
set_revoked k true s = record s { revoked = put k tt s.revoked }
set_revoked k false s = record s { revoked = delete k s.revoked }

-- `revoke`
unfoldable pub revoke : KRef → M (Unit {0})
unfolding set_revoked
revoke k = if is_promise_ref k then raise promise_ref else modify (set_revoked k true)

-- `isRevoked`
unfoldable pub is_revoked : KRef → Store → Bool
is_revoked k s = has k s.revoked
