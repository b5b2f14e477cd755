-- ===== src/Namespaces/Sound.antt =====
-- When the claims and the grants on them are sound, and what a claim's owner is.
use publaryn.Prelude.{
  ◌≡◌, ◌≢◌, refl, sym, ap, ◌∙◌, true, false, Option, none, some, List, ◌∷◌, Memᴰ, any,
  any-mem_false, arith, ◌==◌, eq_iff, and_intro, Bool-cases, inl, inr, cons-mem_inv,
}
use publaryn.Error.{ok, >>-ok_inv, ensure, ok_injective, forbidden}
use publaryn.Query.Update.{
  update_where, update_where-mem, update_where-mem_inv, delete_where, delete_where-mem,
  delete_where-mem_inv,
}
use publaryn.Query.Unique.{IsKey, cons-IsKey, delete_where-IsKey, update_where-IsKey, updated}
use publaryn.Db.{Db, Uuid, NamespaceClaim, TeamNamespaceAccess}
use publaryn.Access.Requirements.{OrgAccessRequirement}
use publaryn.Access.Org.{ensure_org_access_by_requirement}
use publaryn.Repositories.Owned.{IsOneOwner}
use publaryn.Namespaces.Handlers.{
  claim_owners_for, is_name, is_claim, is_claim_grant, set_claim_owner,
}

abbrev pub SameId : NamespaceClaim → NamespaceClaim → Type 0
SameId a b = a.id ≡ b.id

abbrev pub SameName : NamespaceClaim → NamespaceClaim → Type 0
SameName a b = (a.ecosystem ≡ b.ecosystem) × (a.namespace ≡ b.namespace)

pub record IsSound (claims : List NamespaceClaim) (grants : List TeamNamespaceAccess) : Type 0 where
  pub claim_key : IsKey SameId claims
  pub claim_name : IsKey SameName claims
  pub one_owner : (c : NamespaceClaim) → Memᴰ c claims → IsOneOwner c.owner_user_id c.owner_org_id
  pub granted :
      (g : TeamNamespaceAccess)
      → Memᴰ g grants
      → (c : NamespaceClaim) × Memᴰ c claims × (c.id ≡ g.namespace_claim_id)

pub claim_owners_for-IsOneOwner :
    (db : Db) (actor : Uuid) (user org : Option Uuid) {owners : Option Uuid × Option Uuid}
    → claim_owners_for db actor user org ≡ ok owners
    → IsOneOwner owners.0 owners.1
unfolding claim_owners_for
claim_owners_for-IsOneOwner db actor (some u) none h =
    let (own, done) =
      >>-ok_inv
        (ensure (u == actor)
          (forbidden "You can only create user-owned namespace claims for your own account"))
        _ h in
    let same = ok_injective done in inl (u, sym (ap (λ p. p.0) same), sym (ap (λ p. p.1) same))
claim_owners_for-IsOneOwner db actor none (some o) h =
    let (own, done) =
      >>-ok_inv (ensure_org_access_by_requirement db o actor OrgAccessRequirement.admin) _ h in
    let same = ok_injective done in inr (o, sym (ap (λ p. p.0) same), sym (ap (λ p. p.1) same))
claim_owners_for-IsOneOwner db actor none none h =
    let same = ok_injective h in inl (actor, sym (ap (λ p. p.0) same), sym (ap (λ p. p.1) same))
claim_owners_for-IsOneOwner db actor (some u) (some o) h = absurd (ground arith)

module _ (claims : List NamespaceClaim) (grants : List TeamNamespaceAccess)
    (sound : IsSound claims grants) where
  -- A claim with a fresh id and a name that no other has.
  pub created-IsSound :
      (new : NamespaceClaim)
      → ((x : NamespaceClaim) → Memᴰ x claims → x.id ≢ new.id)
      → any (is_name new.ecosystem new.namespace) claims ≡ false
      → IsOneOwner new.owner_user_id new.owner_org_id
      → IsSound (new ∷ claims) grants
  created-IsSound new fresh free owner = record {
    claim_key =
        cons-IsKey SameId claims new sound.claim_key fresh (λ x m same. fresh x m (sym same));
    claim_name =
        cons-IsKey SameName claims new sound.claim_name (λ x m same. no_other x m same.0 same.1)
          (λ x m same. no_other x m (sym same.0) (sym same.1));
    one_owner = λ c m. elim (cons-mem_inv m) [ inl e ↦ rw e owner | inr n ↦ sound.one_owner c n ];
    granted = λ g m. let (c, n, e) = sound.granted g m in (c, Memᴰ.tail n, e);
  }
    where
      no_other :
          (x : NamespaceClaim)
          → Memᴰ x claims
          → x.ecosystem ≡ new.ecosystem
          → x.namespace ≡ new.namespace
          → ⊥
      no_other x m e n =
          let missed = any-mem_false (is_name new.ecosystem new.namespace) claims free m in
          let hit : is_name new.ecosystem new.namespace x ≡ true =
            and_intro ((eq_iff _ _).1 e) ((eq_iff _ _).1 n) in
          ground arith

  pub deleted-IsSound :
      (id : Uuid)
      → IsSound (delete_where (is_claim id) claims) (delete_where (is_claim_grant id) grants)
  deleted-IsSound id = record {
    claim_key = delete_where-IsKey SameId claims (is_claim id) sound.claim_key;
    claim_name = delete_where-IsKey SameName claims (is_claim id) sound.claim_name;
    one_owner = λ c m. sound.one_owner c (delete_where-mem_inv (is_claim id) claims m).0;
    granted = λ g m.
        let (g_mem, miss) = delete_where-mem_inv (is_claim_grant id) grants m in
        let (c, c_mem, e) = sound.granted g g_mem in
        let kept : is_claim id c ≡ false = rw e miss in
        (c, delete_where-mem (is_claim id) claims c_mem kept, e);
  }

  fields_kept :
      (id org : Uuid) (x : NamespaceClaim)
      → ((updated SameId (is_claim id) (set_claim_owner org) x).id ≡ x.id)
        × ((updated SameId (is_claim id) (set_claim_owner org) x).ecosystem ≡ x.ecosystem)
        × ((updated SameId (is_claim id) (set_claim_owner org) x).namespace ≡ x.namespace)
  fields_kept id org x = elim (Bool-cases (is_claim id x)) [
    | inl hit ↦ rw hit (refl, refl, refl)
    | inr miss ↦ rw miss (refl, refl, refl)
  ]

  pub moved-IsSound :
      (id org : Uuid)
      → IsSound
          (update_where (is_claim id) (set_claim_owner org) claims)
          (delete_where (is_claim_grant id) grants)
  moved-IsSound id org = record {
    claim_key =
        update_where-IsKey SameId (is_claim id) (set_claim_owner org) claims sound.claim_key
          (λ x y same. sym (fields_kept id org x).0 ∙ same ∙ (fields_kept id org y).0);
    claim_name =
        update_where-IsKey SameName (is_claim id) (set_claim_owner org) claims sound.claim_name
          (λ x y same.
            let (_, ex, nx) = fields_kept id org x in
            let (_, ey, ny) = fields_kept id org y in (sym ex ∙ same.0 ∙ ey, sym nx ∙ same.1 ∙ ny));
    one_owner = λ c m.
        let (x, x_mem, how) = update_where-mem_inv (is_claim id) (set_claim_owner org) claims m in
        elim how [
          | inl (hit, e) ↦ rw e (inr (org, refl, refl))
          | inr (miss, e) ↦ rw e (sound.one_owner x x_mem)
        ];
    granted = λ g m.
        let (g_mem, miss) = delete_where-mem_inv (is_claim_grant id) grants m in
        let (c, c_mem, e) = sound.granted g g_mem in
        (
          _,
          update_where-mem (is_claim id) (set_claim_owner org) claims c_mem,
          (fields_kept id org c).0 ∙ e,
        );
  }
