-- ===== src/Gateway/Preflight/Organisation.antt =====
-- The sweeps leave the accounts, workspaces and pools alone, and so the checks that read them
-- (src/vgen/gateway/repository.py).
use vgen.Base.{none, some, [], ◌∷◌, inl, inr, refl}
use vgen.Gateway.Preflight.{ℕ, Option, some, PrepareRequest}
use vgen.Gateway.Db.{Db, Attempt}
use vgen.Gateway.Sweep.{
  expire_lease, expire_each, expire_leases, release_expired, expire_reservations,
  finalize_drained_workers, is_lease_expired, is_executing,
}
use vgen.Gateway.Prepare.{check_consumer, prepare_swept}
use vgen.Table.{select_where}
use vgen.Gateway.Access.{require_member, require_service, membership}
use vgen.Base.{Bool-cases, ◌≡◌, ◌∙◌, test, List, ◌∷◌, Option-cases, inl, inr}
use vgen.Gateway.Safety.Sweeps.{enqueue-eq}

-- The parts of the database that the sweeps do not write.
pub record SameOrganisation (db db' : Db) : Type 0 where
  pub memberships_eq : db'.memberships ≡ db.memberships
  pub services_eq : db'.services ≡ db.services
  pub workspaces_eq : db'.workspaces ≡ db.workspaces
  pub pools_eq : db'.pools ≡ db.pools

SameOrganisation-trans :
    {a b c : Db} → SameOrganisation a b → SameOrganisation b c → SameOrganisation a c
SameOrganisation-trans h k = record {
  memberships_eq = k.memberships_eq ∙ h.memberships_eq;
  services_eq = k.services_eq ∙ h.services_eq;
  workspaces_eq = k.workspaces_eq ∙ h.workspaces_eq;
  pools_eq = k.pools_eq ∙ h.pools_eq;
}

expire_lease-SameOrganisation :
    (stamp attempt_id : ℕ) (o : Option Attempt) (db : Db)
    → SameOrganisation db (expire_lease stamp attempt_id o db).0
unfolding expire_lease release_expired
expire_lease-SameOrganisation stamp attempt_id none db = record {
  memberships_eq = refl;
  services_eq = refl;
  workspaces_eq = refl;
  pools_eq = refl;
}
expire_lease-SameOrganisation stamp attempt_id (some a) db =
    elim (Bool-cases (test is_executing (db.tasks.row a.task_id))) [
      | inl moved ↦ rw moved (
          rw (enqueue-eq a.task_id (some attempt_id) "lease_expired" stamp _) (record {
            memberships_eq = refl;
            services_eq = refl;
            workspaces_eq = refl;
            pools_eq = refl;
          }))
      | inr idle ↦ rw idle (record {
        memberships_eq = refl;
        services_eq = refl;
        workspaces_eq = refl;
        pools_eq = refl;
      })
    ]

expire_each-SameOrganisation :
    (stamp : ℕ) (ks : List ℕ) (db : Db) → SameOrganisation db (expire_each stamp ks db).0
unfolding expire_each
expire_each-SameOrganisation stamp [] db = record {
  memberships_eq = refl;
  services_eq = refl;
  workspaces_eq = refl;
  pools_eq = refl;
}
expire_each-SameOrganisation stamp (k ∷ ks) db =
    SameOrganisation-trans (expire_lease-SameOrganisation stamp k (db.attempts.row k) db)
      (expire_each-SameOrganisation stamp ks _)

pub prepare_swept-SameOrganisation :
    (stamp : ℕ) (db : Db) → SameOrganisation db (prepare_swept stamp db)
unfolding expire_leases expire_reservations finalize_drained_workers
prepare_swept-SameOrganisation stamp db =
    let reserved = expire_reservations stamp db in
    let each =
      expire_each-SameOrganisation stamp (select_where (is_lease_expired stamp) reserved.leases)
        reserved in
    record {
      memberships_eq = each.memberships_eq;
      services_eq = each.services_eq;
      workspaces_eq = each.workspaces_eq;
      pools_eq = each.pools_eq;
    }

pub check_consumer-same :
    (q : PrepareRequest) {db db' : Db}
    → SameOrganisation db db'
    → check_consumer q db' ≡ check_consumer q db
unfolding check_consumer require_member require_service membership
check_consumer-same q {db} {db'} h = elim (Option-cases q.principal.user_id) [
  | inl e ↦ rw (e, h.memberships_eq, h.services_eq, h.workspaces_eq, h.pools_eq)
  | inr (u, e) ↦ rw (e, h.memberships_eq, h.services_eq, h.workspaces_eq, h.pools_eq)
]
