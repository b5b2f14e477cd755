-- ===== src/Jobs/Claimed.antt =====
-- `claim_jobs`: which jobs it returns, in what state, and that no two claims return one job.
use publaryn.Prelude.{
  ℕ, ◌≤◌, ◌≡◌, ◌≢◌, refl, sym, ◌∙◌, ap, String, Bool, true, false, inl, inr, List, Memᴰ, arith, has,
  has-map, has-map_inv, filter, filter-mem, filter-mem_inv, take, take-mem_inv, and_parts,
}
use publaryn.Query.Update.{returning-mem_inv, returning-mem, update_where, update_where-mem_inv}
use publaryn.Domain.Job.{JobStatus, Job}
use publaryn.Jobs.Queue.{order_by_schedule, is_claimable, claimed_ids, claim_jobs, start}
use publaryn.Jobs.Claim.{
  is_pending-inv, IsKeyed, order-mem_inv, order-mem, order-IsOrdered, take-earliest,
}

-- An update that leaves the ids alone keeps them distinct.
pub update-IsKeyed :
    (test : Job → Bool) (set : Job → Job) (jobs : List Job)
    → ((j : Job) → (set j).id ≡ j.id)
    → IsKeyed jobs
    → IsKeyed (update_where test set jobs)
update-IsKeyed test set jobs same keyed a b m n e =
    let (x, x_mem, x_how) = update_where-mem_inv test set jobs m in
    let (y, y_mem, y_how) = update_where-mem_inv test set jobs n in
    elim x_how [
      | inl (x_hit, x_new) ↦ elim y_how [
        | inl (y_hit, y_new) ↦
            let one = keyed x y x_mem y_mem (ground (arith, same x, same y)) in
            x_new ∙ ap set one ∙ sym y_new
        | inr (y_miss, y_old) ↦
            let one = keyed x y x_mem y_mem (ground (arith, same x, same y)) in ground arith
      ]
      | inr (x_miss, x_old) ↦ elim y_how [
        | inl (y_hit, y_new) ↦
            let one = keyed x y x_mem y_mem (ground (arith, same x, same y)) in ground arith
        | inr (y_miss, y_old) ↦
            let one = keyed x y x_mem y_mem (ground (arith, same x, same y)) in
            x_old ∙ one ∙ sym y_old
      ]
    ]

claimed_ids-inv :
    (jobs : List Job) (locked : ℕ → Bool) (now batch_size : ℕ) {k : ℕ}
    → has k (claimed_ids jobs locked now batch_size) ≡ true
    → (j : Job) × Memᴰ j jobs
      × (is_claimable locked now j ≡ true)
      × (j.id ≡ k)
      × Memᴰ j (take batch_size (order_by_schedule (filter (is_claimable locked now) jobs)))
unfolding claimed_ids
claimed_ids-inv jobs locked now batch_size h =
    let (j, m, e) = has-map_inv (λ j. j.id) _ h in
    let (n, ready) =
      filter-mem_inv (is_claimable locked now) jobs
        (order-mem_inv _ (take-mem_inv batch_size _ m)) in
    (j, n, ready, e, m)

module _ (jobs : List Job) (keyed : IsKeyed jobs) (locked : ℕ → Bool) (worker_id : String)
    (batch_size lock_duration_seconds now : ℕ) where
  pub claim_jobs-claimed :
      {y : Job}
      → Memᴰ y (claim_jobs jobs locked worker_id batch_size lock_duration_seconds now).1
      → Memᴰ y (claim_jobs jobs locked worker_id batch_size lock_duration_seconds now).0
        × ((j : Job) × Memᴰ j jobs
            × (j.status ≡ JobStatus.pending)
            × (j.scheduled_at ≤ now)
            × (locked j.id ≡ false)
            × Memᴰ j (take batch_size (order_by_schedule (filter (is_claimable locked now) jobs)))
            × (y ≡ start worker_id now lock_duration_seconds j))
  unfolding claim_jobs
  claim_jobs-claimed m =
      let (x, x_mem, chosen, e) = returning-mem_inv _ _ jobs m in
      let (j, j_mem, ready, same, first) = claimed_ids-inv jobs locked now batch_size chosen in
      let one : j ≡ x = keyed j x j_mem x_mem same in
      let (first_two, free) = and_parts _ _ ready in
      let (waits, due) = and_parts _ _ first_two in
      (
        returning-mem _ _ jobs m,
        (
          j,
          j_mem,
          is_pending-inv j.status waits,
          ground arith,
          ground arith,
          first,
          e ∙ ap (start worker_id now lock_duration_seconds) (sym one),
        ),
      )

  -- A job that is returned was due no later than any job that could have been claimed and is not
  -- returned.
  pub claim_jobs-earliest :
      {y k : Job}
      → Memᴰ y (claim_jobs jobs locked worker_id batch_size lock_duration_seconds now).1
      → Memᴰ k jobs
      → is_claimable locked now k ≡ true
      → has k.id (claimed_ids jobs locked now batch_size) ≡ false
      → y.scheduled_at ≤ k.scheduled_at
  unfolding claimed_ids
  claim_jobs-earliest {y} {k} m k_mem ready out =
      let (_, (j, _, _, _, _, first, e)) = claim_jobs-claimed m in
      let le : j.scheduled_at ≤ k.scheduled_at =
        take-earliest batch_size _ (order-IsOrdered (filter (is_claimable locked now) jobs)) first
          (order-mem _ (filter-mem (is_claimable locked now) jobs k_mem ready))
          (λ n. ground (arith, has-map (λ j. j.id) _ n)) in
      rw e le

  pub claim_jobs-IsKeyed :
      IsKeyed (claim_jobs jobs locked worker_id batch_size lock_duration_seconds now).0
  unfolding claim_jobs
  claim_jobs-IsKeyed = update-IsKeyed _ _ jobs (λ j. refl) keyed

-- Two claims, one after the other, whatever workers make them and whatever the second one finds
-- locked, never return the same job.
pub claim_jobs-disjoint :
    (jobs : List Job)
    → IsKeyed jobs
    → (locked locked' : ℕ → Bool) (worker_id worker_id' : String)
    → (batch_size batch_size' lock_duration_seconds lock_duration_seconds' now now' : ℕ)
    → {a b : Job} → Memᴰ a (claim_jobs jobs locked worker_id batch_size lock_duration_seconds now).1
    → Memᴰ b
        (claim_jobs
          (claim_jobs jobs locked worker_id batch_size lock_duration_seconds now).0
          locked'
          worker_id'
          batch_size'
          lock_duration_seconds'
          now').1
    → a.id ≢ b.id
claim_jobs-disjoint jobs keyed locked locked' w w' n n' d d' now now' {a} {b} m m' same =
    let (a_mem, (_, _, _, _, _, _, a_is)) = claim_jobs-claimed jobs keyed locked w n d now m in
    let keyed' = claim_jobs-IsKeyed jobs keyed locked w n d now in
    let (_, (k, k_mem, waits, _, _, _, b_is)) =
      claim_jobs-claimed _ keyed' locked' w' n' d' now' m' in
    let one : a ≡ k = keyed' a k a_mem k_mem (same ∙ ap (λ j. j.id) b_is) in
    let clash : JobStatus.running ≡ JobStatus.pending =
      sym (ap (λ j. j.status) a_is) ∙ ap (λ j. j.status) one ∙ waits in
    absurd (ground arith)
