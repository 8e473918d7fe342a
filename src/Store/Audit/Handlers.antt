-- ===== src/Store/Audit/Handlers.antt =====
-- The garbage collection syscalls under the audit, whatever krefs an endpoint names.
use ocap_kernel.Refs.{kref_eq, endpoint, ERef, Owner, KRef, EndpointId, is_promise_ref, owner_eq}
use ocap_kernel.Prelude.{◌==◌, Bool-cases, inr, inl, Option, Option-cases, Bool, List, not}
use ocap_kernel.Dict.{delete, get}
use ocap_kernel.Store.Audit.Laws.{owner-IsAudited, IsAudited}
use ocap_kernel.Exec.{
  promise_ref, still_reachable, not_owner, not_exported, require, when, gets, ◌>>=◌, ◌>>◌,
}
use ocap_kernel.Store.State.{M, Store, add_maybe_free, set_add}
use ocap_kernel.Store.Object.{get_owner}
use ocap_kernel.Store.Reachable.{get_reachable_flag}
use ocap_kernel.Store.CList.{forget_kref, kref_to_eref}
use ocap_kernel.Store.Gc.{orphan_kernel_object}
use ocap_kernel.Store.GcHandlers.{
  perform_drop_imports, perform_retire_imports, retire_import_of, perform_export_cleanup,
  clean_up_export, may_disown, exports,
}
use ocap_kernel.Store.Audit.Keeps.{
  Keeps, bind-Keeps, for_each-Keeps, require-Keeps, when-Keeps, get_reachable_flag-Keeps,
  clear_reachable_flag-Keeps, forget_kref-Keeps,
}

-- On an audited store, dropping imports keeps every count equal to the references held, whatever krefs are named, and
-- also where one of them makes it throw halfway.
pub perform_drop_imports-IsAudited :
    {hand : List KRef} (ks : List KRef) (e : EndpointId) (s : Store)
    → IsAudited hand s
    → IsAudited hand (perform_drop_imports ks e s).1
unfolding perform_drop_imports
perform_drop_imports-IsAudited ks e = for_each-Keeps _ ks (clear_reachable_flag-Keeps e)

unreached : EndpointId → KRef → M (Unit {0})
unreached e k = get_reachable_flag e k >>= λ flag. require (not flag) still_reachable

unreached-Keeps : {hand : List KRef} (e : EndpointId) (k : KRef) → Keeps hand (unreached e k)
unfolding unreached
unreached-Keeps e k =
    bind-Keeps (get_reachable_flag e k) (λ flag. require (not flag) still_reachable)
      (get_reachable_flag-Keeps e k) (λ flag. require-Keeps (not flag) still_reachable)

retire_import_of-Keeps :
    {hand : List KRef} (e : EndpointId) (k : KRef) → Keeps hand (retire_import_of e k)
unfolding retire_import_of
retire_import_of-Keeps e k =
    bind-Keeps _ _ (require-Keeps (not (is_promise_ref k)) promise_ref) λ _.
      bind-Keeps (get_reachable_flag e k) _ (get_reachable_flag-Keeps e k) λ flag.
        bind-Keeps (require (not flag) still_reachable) _ (require-Keeps (not flag) still_reachable)
          λ _. forget_kref-Keeps e k

-- On an audited store, retiring imports keeps every count equal to the references held, whatever krefs are named, and
-- also where one of them makes it throw halfway.
pub perform_retire_imports-IsAudited :
    {hand : List KRef} (ks : List KRef) (e : EndpointId) (s : Store)
    → IsAudited hand s
    → IsAudited hand (perform_retire_imports ks e s).1
unfolding perform_retire_imports
perform_retire_imports-IsAudited ks e = for_each-Keeps _ ks (retire_import_of-Keeps e)

orphan_kernel_object-Keeps :
    {hand : List KRef} (k : KRef) (e : EndpointId) → Keeps hand (orphan_kernel_object k e)
unfolding get_owner orphan_kernel_object add_maybe_free
orphan_kernel_object-Keeps k e s a = elim (Option-cases (get k s.owner)) [
  | inl h ↦
      rw (h, orphan_kernel_object) (owner-IsAudited s (delete k s.owner) (set_add k s.maybe_free) a)
  | inr (o, h) ↦ elim (Bool-cases (o == endpoint e)) [
    | inl q ↦
        rw (h, orphan_kernel_object)
          (rw (q) (owner-IsAudited s (delete k s.owner) (set_add k s.maybe_free) a))
    | inr q ↦ rw (h, orphan_kernel_object) (rw (q) a)
  ]
]

-- What `clean_up_export` does once it has read the eref, and once it has read the owner.
release_export : Bool → EndpointId → KRef → Option ERef → M (Unit {0})
unfolding unreached
release_export check e k eref = do
  require (exports eref) not_exported
  when check (unreached e k)
  forget_kref e k
  orphan_kernel_object k e

disown_export : Bool → EndpointId → KRef → Option Owner → M (Unit {0})
unfolding release_export
disown_export check e k o = do
  require (may_disown e o) not_owner
  eref ← gets (kref_to_eref e k)
  release_export check e k eref

release_export-Keeps :
    {hand : List KRef} (check : Bool) (e : EndpointId) (k : KRef) (eref : Option ERef)
    → Keeps hand (release_export check e k eref)
unfolding release_export
release_export-Keeps check e k eref =
    bind-Keeps (require (exports eref) not_exported) _ (require-Keeps (exports eref) not_exported)
      λ _.
        bind-Keeps (when check (unreached e k)) _
          (when-Keeps check (unreached e k) (unreached-Keeps e k))
          λ _.
            bind-Keeps (forget_kref e k) (λ _. orphan_kernel_object k e) (forget_kref-Keeps e k)
              λ _. orphan_kernel_object-Keeps k e

disown_export-Keeps :
    {hand : List KRef} (check : Bool) (e : EndpointId) (k : KRef) (o : Option Owner)
    → Keeps hand (disown_export check e k o)
unfolding disown_export
disown_export-Keeps check e k o =
    bind-Keeps (require (may_disown e o) not_owner)
      (λ _. gets (kref_to_eref e k) >>= release_export check e k)
      (require-Keeps (may_disown e o) not_owner)
      (λ _ s a. release_export-Keeps check e k (kref_to_eref e k s) s a)

clean_up_export-Keeps :
    {hand : List KRef} (check : Bool) (e : EndpointId) (k : KRef)
    → Keeps hand (clean_up_export check e k)
unfolding clean_up_export disown_export release_export unreached
clean_up_export-Keeps check e k =
    bind-Keeps (require (not (is_promise_ref k)) promise_ref)
      (λ _. gets (get_owner k) >>= disown_export check e k)
      (require-Keeps (not (is_promise_ref k)) promise_ref)
      (λ _ s a. disown_export-Keeps check e k (get_owner k s) s a)

-- On an audited store, retiring or abandoning exports keeps every count equal to the references held, whatever krefs are
-- named, and also where one of them makes it throw halfway.
pub perform_export_cleanup-IsAudited :
    {hand : List KRef} (ks : List KRef) (check : Bool) (e : EndpointId) (s : Store)
    → IsAudited hand s
    → IsAudited hand (perform_export_cleanup ks check e s).1
unfolding perform_export_cleanup
perform_export_cleanup-IsAudited ks check e = for_each-Keeps _ ks (clean_up_export-Keeps check e)
