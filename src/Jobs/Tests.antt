-- ===== src/Jobs/Tests.antt =====
-- Runs of the job queue.
use publaryn.Prelude.{ℕ, ◌≤◌, ◌≡◌, ◌≢◌, refl, Bool, false, List, [], ◌∷◌, Memᴰ, has, unique_by}
use publaryn.Query.Update.{update_where, returning}
use publaryn.Domain.Job.{JobKind, Payload, Job}
use publaryn.Jobs.Queue.{enqueue_at, claim_jobs, claimed_ids, fail_job, new_job, start}
use publaryn.Prelude.{none, some}
use publaryn.Db.{Db}
use publaryn.Samples.{registry}
use publaryn.Jobs.Worker.{Handler, Handlers}
use publaryn.Jobs.Claim.{IsKeyed}
use publaryn.Jobs.Claimed.{claim_jobs-earliest, claim_jobs-disjoint}
use publaryn.Jobs.Steps.{
  System, nothing_yet, IsReachable, IsSound, enqueues, claims, fails, initially, then_step,
}
use publaryn.Jobs.Invariant.{reachable-IsSound}

abbrev nobody : ℕ → Bool
nobody id = false

abbrev late : Job
late = new_job 1 JobKind.reindex_search (Payload.reindex 40) 7 5

abbrev soon : Job
soon = new_job 2 JobKind.reindex_search (Payload.reindex 41) 6 5

abbrev two : List Job
two = late ∷ soon ∷ []

two-IsKeyed : IsKeyed two
two-IsKeyed = unique_by (λ j. j.id) _ refl

soon_first :
    claim_jobs two nobody "w1" 1 300 9
    ≡ (late ∷ start "w1" 9 300 soon ∷ [], start "w1" 9 300 soon ∷ [])
unfolding claim_jobs update_where returning
soon_first = refl

soon_returned : Memᴰ (start "w1" 9 300 soon) (claim_jobs two nobody "w1" 1 300 9).1
soon_returned = rw soon_first (Memᴰ.head refl)

late_returned :
    Memᴰ
      (start "w2" 9 300 late)
      (claim_jobs (claim_jobs two nobody "w1" 1 300 9).0 nobody "w2" 1 300 9).1
unfolding claim_jobs update_where returning
late_returned = Memᴰ.head refl

late_left : has late.id (claimed_ids two nobody 9 1) ≡ false
unfolding claimed_ids
late_left = refl

claim_jobs-earliest_example : (start "w1" 9 300 soon).scheduled_at ≤ late.scheduled_at
claim_jobs-earliest_example =
    claim_jobs-earliest two two-IsKeyed nobody "w1" 1 300 9 soon_returned (Memᴰ.head refl) refl
      late_left

claim_jobs-disjoint_example : (start "w1" 9 300 soon).id ≢ (start "w2" 9 300 late).id
claim_jobs-disjoint_example =
    claim_jobs-disjoint two two-IsKeyed nobody nobody "w1" "w2" 1 1 300 300 9 9 soon_returned
      late_returned

enqueued : System
enqueued = record {
  jobs = enqueue_at [] 1 JobKind.reindex_search (Payload.reindex 40) 7 5;
  in_flight = [];
}

claimed : System
claimed = record { jobs = start "w1" 9 300 late ∷ []; in_flight = start "w1" 9 300 late ∷ [] }

failed_once : System
failed_once = record {
  jobs = fail_job (start "w1" 9 300 late ∷ []) 1 "no index" 1 5 10;
  in_flight = [];
}

enqueued-IsReachable : IsReachable enqueued
unfolding enqueued
enqueued-IsReachable = then_step nothing_yet enqueued initially (
    enqueues nothing_yet 1 JobKind.reindex_search (Payload.reindex 40) 7 5
      ((λ j m. elim m [ ]), (λ j m. elim m [ ])))

claimed-IsReachable : IsReachable claimed
unfolding claimed enqueued enqueue_at claim_jobs update_where returning
claimed-IsReachable =
    then_step enqueued claimed enqueued-IsReachable (claims enqueued nobody "w1" 1 300 9)

failed-IsReachable : IsReachable failed_once
unfolding failed_once claimed
failed-IsReachable =
    then_step claimed failed_once claimed-IsReachable
      (fails (start "w1" 9 300 late ∷ []) [] [] (start "w1" 9 300 late) "no index" 10)

reachable-IsSound_example : IsSound failed_once
reachable-IsSound_example = reachable-IsSound failed_once failed-IsReachable

-- One kind has a handler, which does nothing and succeeds.
does_nothing : Handler
does_nothing payload db = (none, db)

abbrev only_reindex : Handlers
only_reindex JobKind.reindex_search = some does_nothing
only_reindex kind = none

abbrev queue_of_two : Db
queue_of_two = record registry { background_jobs = two }
