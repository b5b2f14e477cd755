-- ===== src/Jobs/Invariant.antt =====
-- Every step of Jobs.Steps keeps the rows of the queue sound.
use mathlib.Core.List.Memᴰ
use publaryn.Prelude.{
  ℕ, ◌+◌, ◌*◌, ◌≤◌, ◌≡◌, refl, sym, ◌∙◌, ap, String, Bool, true, inl, inr, List, ◌∷◌, ◌++◌, Memᴰ,
  arith, cons-mem_inv, Bool-cases, leb, ==_iff, ◌==◌,
}
use publaryn.Query.Update.{update_where, update_where-mem_inv, delete_where-mem_inv}
use publaryn.Domain.Job.{JobKind, Payload, Job}
use publaryn.Jobs.Queue.{
  enqueue_at, claim_jobs, complete_job, fail_job, recover_stale_jobs, cleanup_finished_jobs, start,
  complete, bury, retry, release_lock, backoff_seconds, second,
}
use publaryn.Jobs.Claimed.{update-IsKeyed, claim_jobs-claimed, claim_jobs-IsKeyed}
use publaryn.Jobs.Steps.{
  System, IsFresh, Step, IsReachable, IsFitting, IsCopyOf, IsSound, enqueues, claims, completes,
  fails, crashes, recovers, cleans, initially, then_step,
}

-- An update that keeps ids and limits and loses no attempt keeps the workers' copies true.
update-IsCopyOf :
    (test : Job → Bool) (set : Job → Job) (jobs : List Job) (f : Job)
    → ((j : Job) → (set j).id ≡ j.id)
    → ((j : Job) → (set j).max_attempts ≡ j.max_attempts)
    → ((j : Job) → j.attempts ≤ (set j).attempts)
    → ((j : Job) → Memᴰ j jobs → IsCopyOf f j)
    → (j : Job) → Memᴰ j (update_where test set jobs)
    → IsCopyOf f j
update-IsCopyOf test set jobs f ids limits grows copies j m same =
    let (x, x_mem, how) = update_where-mem_inv test set jobs m in
    elim how [
      | inl (hit, e) ↦
          let (le, limit) = copies x x_mem (same ∙ ap (λ k. k.id) e ∙ ids x) in
          rw e (let g = grows x in ground arith, limit ∙ sym (limits x))
      | inr (miss, e) ↦ rw e (copies x x_mem (same ∙ ap (λ k. k.id) e))
    ]

update-IsFitting :
    (test : Job → Bool) (set : Job → Job) (jobs : List Job)
    → ((j : Job) → Memᴰ j jobs → test j ≡ true → IsFitting (set j))
    → ((j : Job) → Memᴰ j jobs → IsFitting j)
    → (j : Job) → Memᴰ j (update_where test set jobs)
    → IsFitting j
update-IsFitting test set jobs new old j m =
    let (x, x_mem, how) = update_where-mem_inv test set jobs m in
    elim how [ inl (hit, e) ↦ rw e (new x x_mem hit) | inr (miss, e) ↦ rw e (old x x_mem) ]

-- What is left when one claimed job is dropped was there before.
dropped :
    (before after : List Job) (job : Job) {f : Job}
    → Memᴰ f (before ++ after)
    → Memᴰ f (before ++ job ∷ after)
dropped before after job m = elim (Memᴰ.append_cases before m) [
  | inl x ↦ Memᴰ.append_left (job ∷ after) x
  | inr y ↦ Memᴰ.append_right before (Memᴰ.tail y)
]

-- An update in the queue while the claimed jobs become fewer.
update-IsSound :
    (test : Job → Bool) (set : Job → Job) (s : System) (in_flight : List Job)
    → ((f : Job) → Memᴰ f in_flight → Memᴰ f s.in_flight)
    → ((j : Job) → (set j).id ≡ j.id)
    → ((j : Job) → (set j).max_attempts ≡ j.max_attempts)
    → ((j : Job) → j.attempts ≤ (set j).attempts)
    → ((j : Job) → Memᴰ j s.jobs → test j ≡ true → IsFitting (set j))
    → IsSound s
    → IsSound (record { jobs = update_where test set s.jobs; in_flight = in_flight })
update-IsSound test set s in_flight fewer ids limits grows new sound = record {
  keyed = update-IsKeyed test set s.jobs ids sound.keyed;
  fitting = update-IsFitting test set s.jobs new sound.fitting;
  copies = λ f j f_mem j_mem.
      update-IsCopyOf test set s.jobs f ids limits grows
        (λ k k_mem. sound.copies f k (fewer f f_mem) k_mem) j j_mem;
}

finish-IsSound :
    (set : Job → Job) (jobs before after : List Job) (job : Job)
    → ((j : Job) → (set j).id ≡ j.id)
    → ((j : Job) → (set j).max_attempts ≡ j.max_attempts)
    → ((j : Job) → j.attempts ≤ (set j).attempts)
    → ((j : Job) → Memᴰ j jobs → j.id ≡ job.id → IsFitting (set j))
    → IsSound (record { jobs = jobs; in_flight = before ++ job ∷ after })
    → IsSound
        (record { jobs = update_where (λ j. j.id == job.id) set jobs; in_flight = before ++ after })
finish-IsSound set jobs before after job ids limits grows new sound =
    update-IsSound _ set (record { jobs = jobs; in_flight = before ++ job ∷ after })
      (before ++ after) (λ f m. dropped before after job m) ids limits grows
      (λ j m hit. new j m ((==_iff _ _).0 hit)) sound

fails-IsSound :
    (jobs before after : List Job) (job : Job) (error : String) (now : ℕ)
    → IsSound (record { jobs = jobs; in_flight = before ++ job ∷ after })
    → IsSound (record {
      jobs = fail_job jobs job.id error job.attempts job.max_attempts now;
      in_flight = before ++ after;
    })
unfolding fail_job
fails-IsSound jobs before after job error now sound =
    elim (Bool-cases (leb job.max_attempts job.attempts)) [
      | inl spent ↦ rw spent (
          finish-IsSound (bury error now) jobs before after job (λ j. refl) (λ j. refl)
            (λ j. ground arith)
            (λ j m same.
              let (le, limit) =
                sound.copies job j (Memᴰ.append_right before (Memᴰ.head refl)) m (sym same) in
              (refl, refl, refl, ground arith))
            sound)
      | inr left ↦ rw left (
          finish-IsSound (retry error (now + backoff_seconds job.attempts * second)) jobs before
            after job (λ j. refl) (λ j. refl) (λ j. ground arith) (λ j m same. (refl, refl)) sound)
    ]

enqueues-IsSound :
    (s : System) (id : ℕ) (kind : JobKind) (payload : Payload) (scheduled_at now : ℕ)
    → IsFresh id s
    → IsSound s
    → IsSound (record s { jobs = enqueue_at s.jobs id kind payload scheduled_at now })
unfolding enqueue_at
enqueues-IsSound s id kind payload scheduled_at now (new, unclaimed) sound = record {
  keyed = λ a b m n same. elim (cons-mem_inv m) [
    | inl a_new ↦ elim (cons-mem_inv n) [
      | inl b_new ↦ a_new ∙ sym b_new
      | inr b_old ↦ absurd (new b b_old (sym same ∙ ap (λ j. j.id) a_new))
    ]
    | inr a_old ↦ elim (cons-mem_inv n) [
      | inl b_new ↦ absurd (new a a_old (same ∙ ap (λ j. j.id) b_new))
      | inr b_old ↦ sound.keyed a b a_old b_old same
    ]
  ];
  fitting =
      λ j m. elim (cons-mem_inv m) [ inl e ↦ rw e (refl, refl) | inr old ↦ sound.fitting j old ];
  copies = λ f j f_mem m same. elim (cons-mem_inv m) [
    | inl e ↦ absurd (unclaimed f f_mem (same ∙ ap (λ k. k.id) e))
    | inr old ↦ sound.copies f j f_mem old same
  ];
}

claim_jobs-IsFitting :
    (s : System) (locked : ℕ → Bool) (worker_id : String) (batch_size lock_duration_seconds now : ℕ)
    → IsSound s
    → (j : Job) → Memᴰ j (claim_jobs s.jobs locked worker_id batch_size lock_duration_seconds now).0
    → IsFitting j
unfolding claim_jobs
claim_jobs-IsFitting s locked w n d now sound =
    update-IsFitting _ (start w now d) s.jobs (λ j m hit. (refl, refl, ground arith)) sound.fitting

claim_jobs-IsCopyOf :
    (s : System) (locked : ℕ → Bool) (worker_id : String) (batch_size lock_duration_seconds now : ℕ)
    → IsSound s
    → (f j : Job) → Memᴰ f s.in_flight
    → Memᴰ j (claim_jobs s.jobs locked worker_id batch_size lock_duration_seconds now).0
    → IsCopyOf f j
unfolding claim_jobs
claim_jobs-IsCopyOf s locked w n d now sound f j f_mem =
    update-IsCopyOf _ (start w now d) s.jobs f (λ j. refl) (λ j. refl) (λ j. ground arith)
      (λ k m. sound.copies f k f_mem m) j

claims-IsSound :
    (s : System) (locked : ℕ → Bool) (worker_id : String) (batch_size lock_duration_seconds now : ℕ)
    → IsSound s
    → IsSound (record {
      jobs = (claim_jobs s.jobs locked worker_id batch_size lock_duration_seconds now).0;
      in_flight =
          (claim_jobs s.jobs locked worker_id batch_size lock_duration_seconds now).1
          ++ s.in_flight;
    })
claims-IsSound s locked w n d now sound = record {
  keyed = claim_jobs-IsKeyed s.jobs sound.keyed locked w n d now;
  fitting = claim_jobs-IsFitting s locked w n d now sound;
  copies = λ f j f_mem j_mem same. elim (Memᴰ.append_cases _ f_mem) [
    | inl claimed ↦
        let (f_row, _) = claim_jobs-claimed s.jobs sound.keyed locked w n d now claimed in
        let one = claim_jobs-IsKeyed s.jobs sound.keyed locked w n d now f j f_row j_mem same in
        rw one (ground arith, refl)
    | inr earlier ↦ claim_jobs-IsCopyOf s locked w n d now sound f j earlier j_mem same
  ];
}

recovers-IsSound :
    (s : System) (now : ℕ) → IsSound s → IsSound (record s { jobs = recover_stale_jobs s.jobs now })
unfolding recover_stale_jobs
recovers-IsSound s now sound =
    update-IsSound _ (release_lock now) s s.in_flight (λ f m. m) (λ j. refl) (λ j. refl)
      (λ j. ground arith) (λ j m hit. (refl, refl)) sound

cleans-IsSound :
    (s : System) (retention_hours now : ℕ)
    → IsSound s
    → IsSound (record s { jobs = cleanup_finished_jobs s.jobs retention_hours now })
unfolding cleanup_finished_jobs
cleans-IsSound s retention_hours now sound = record {
  keyed = λ a b m n.
      sound.keyed a b (delete_where-mem_inv _ s.jobs m).0 (delete_where-mem_inv _ s.jobs n).0;
  fitting = λ j m. sound.fitting j (delete_where-mem_inv _ s.jobs m).0;
  copies = λ f j f_mem m. sound.copies f j f_mem (delete_where-mem_inv _ s.jobs m).0;
}

Step-IsSound : (s t : System) → Step s t → IsSound s → IsSound t
unfolding complete_job
Step-IsSound s t (enqueues _ id kind payload scheduled_at now fresh) sound =
    enqueues-IsSound s id kind payload scheduled_at now fresh sound
Step-IsSound s t (claims _ locked w n d now) sound = claims-IsSound s locked w n d now sound
Step-IsSound s t (completes jobs before after job now) sound =
    finish-IsSound (complete now) jobs before after job (λ j. refl) (λ j. refl) (λ j. ground arith)
      (λ j m same. (refl, refl, refl)) sound
Step-IsSound s t (fails jobs before after job error now) sound =
    fails-IsSound jobs before after job error now sound
Step-IsSound s t (crashes jobs before after job) sound = record {
  keyed = sound.keyed;
  fitting = sound.fitting;
  copies = λ f j f_mem. sound.copies f j (dropped before after job f_mem);
}
Step-IsSound s t (recovers _ now) sound = recovers-IsSound s now sound
Step-IsSound s t (cleans _ hours now) sound = cleans-IsSound s hours now sound

-- However the workers' operations, crashes and recoveries follow one another, every job in the
-- queue fits its status: a pending job has no lock, a running one has a lock, its holder and at
-- least one attempt, a completed or dead one has a time of completion and no lock, a dead one has
-- used up its attempts, and none is `failed`. No two jobs share an id, and no worker's copy
-- counts more attempts than the row.
pub reachable-IsSound : (s : System) → IsReachable s → IsSound s
reachable-IsSound s initially = record {
  keyed = λ a b m. elim m [ ];
  fitting = λ j m. elim m [ ];
  copies = λ f j m. elim m [ ];
}
reachable-IsSound s (then_step r _ reached step) =
    Step-IsSound r s step (reachable-IsSound r reached)
