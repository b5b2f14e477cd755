-- ===== src/Jobs/Claim.antt =====
-- What `claim_jobs` takes from the queue.
use publaryn.Prelude.{
  ℕ, zero, suc, ◌≤◌, ◌≡◌, true, ◌⊎◌, inl, inr, List, [], ◌∷◌, Memᴰ, arith, take, Bool-cases,
  cons-mem_inv, leb,
}
use publaryn.Domain.Job.{JobStatus, Job, is_pending}
use publaryn.Jobs.Queue.{insert_by_schedule, order_by_schedule}

-- No two rows share an id: PRIMARY KEY (id).
abbrev pub IsKeyed : List Job → Type 0
IsKeyed jobs = (a b : Job) → Memᴰ a jobs → Memᴰ b jobs → a.id ≡ b.id → a ≡ b

insert-mem_inv :
    (j : Job) (ks : List Job) {x : Job} → Memᴰ x (insert_by_schedule j ks) → (x ≡ j) ⊎ Memᴰ x ks
unfolding insert_by_schedule
insert-mem_inv j [] m = cons-mem_inv m
insert-mem_inv j (k ∷ ks) m = elim (Bool-cases (leb j.scheduled_at k.scheduled_at)) [
  | inl early ↦ cons-mem_inv (rw early at m)
  | inr late ↦ elim (cons-mem_inv (rw late at m)) [
    | inl e ↦ inr (Memᴰ.head e)
    | inr n ↦ elim (insert-mem_inv j ks n) [ inl e ↦ inl e | inr o ↦ inr (Memᴰ.tail o) ]
  ]
]

insert-mem :
    (j : Job) (ks : List Job) {x : Job} → (x ≡ j) ⊎ Memᴰ x ks → Memᴰ x (insert_by_schedule j ks)
unfolding insert_by_schedule
insert-mem j [] (inl e) = Memᴰ.head e
insert-mem j [] (inr m) = elim m [ ]
insert-mem j (k ∷ ks) how = elim (Bool-cases (leb j.scheduled_at k.scheduled_at)) [
  | inl early ↦ elim how [ inl e ↦ rw early (Memᴰ.head e) | inr m ↦ rw early (Memᴰ.tail m) ]
  | inr late ↦ elim how [
    | inl e ↦ rw late (Memᴰ.tail (insert-mem j ks (inl e)))
    | inr m ↦ elim (cons-mem_inv m) [
      | inl e ↦ rw late (Memᴰ.head e)
      | inr n ↦ rw late (Memᴰ.tail (insert-mem j ks (inr n)))
    ]
  ]
]

pub order-mem_inv : (js : List Job) {x : Job} → Memᴰ x (order_by_schedule js) → Memᴰ x js
unfolding order_by_schedule
order-mem_inv [] m = elim m [ ]
order-mem_inv (j ∷ js) m = elim (insert-mem_inv j (order_by_schedule js) m) [
  | inl e ↦ Memᴰ.head e
  | inr n ↦ Memᴰ.tail (order-mem_inv js n)
]

pub order-mem : (js : List Job) {x : Job} → Memᴰ x js → Memᴰ x (order_by_schedule js)
unfolding order_by_schedule
order-mem [] m = elim m [ ]
order-mem (j ∷ js) m = elim (cons-mem_inv m) [
  | inl e ↦ insert-mem j (order_by_schedule js) (inl e)
  | inr n ↦ insert-mem j (order_by_schedule js) (inr (order-mem js n))
]

-- Each row is due no later than those behind it.
unfoldable pub IsOrdered : List Job → Type 0
IsOrdered [] = Unit
IsOrdered (j ∷ js) = ((k : Job) → Memᴰ k js → j.scheduled_at ≤ k.scheduled_at) × IsOrdered js

insert-IsOrdered : (j : Job) (ks : List Job) → IsOrdered ks → IsOrdered (insert_by_schedule j ks)
unfolding IsOrdered insert_by_schedule
insert-IsOrdered j [] o = ((λ k m. elim m [ ]), tt)
insert-IsOrdered j (k ∷ ks) (first, o) = elim (Bool-cases (leb j.scheduled_at k.scheduled_at)) [
  | inl early ↦ rw early (
    (λ x m. elim (cons-mem_inv m) [
      | inl e ↦ rw e (ground arith)
      | inr n ↦ let le = first x n in ground arith
    ]),
    (first, o),
  )
  | inr late ↦ rw late (
    (λ x m. elim (insert-mem_inv j ks m) [ inl e ↦ rw e (ground arith) | inr n ↦ first x n ]),
    insert-IsOrdered j ks o,
  )
]

pub order-IsOrdered : (js : List Job) → IsOrdered (order_by_schedule js)
unfolding IsOrdered order_by_schedule
order-IsOrdered [] = tt
order-IsOrdered (j ∷ js) = insert-IsOrdered j (order_by_schedule js) (order-IsOrdered js)

-- Of an ordered list, what stands among the first `n` is due no later than what does not.
pub take-earliest :
    (n : ℕ) (js : List Job) {a b : Job}
    → IsOrdered js
    → Memᴰ a (take n js)
    → Memᴰ b js
    → ¬ Memᴰ b (take n js)
    → a.scheduled_at ≤ b.scheduled_at
unfolding IsOrdered
take-earliest zero js o m n out = elim m [ ]
take-earliest (suc k) [] o m n out = elim m [ ]
take-earliest (suc k) (j ∷ js) (first, o) m n out = elim (cons-mem_inv n) [
  | inl e ↦ absurd (out (Memᴰ.head e))
  | inr later ↦ elim (cons-mem_inv m) [
    | inl e ↦ rw e (first _ later)
    | inr sooner ↦ take-earliest k js o sooner later (λ x. out (Memᴰ.tail x))
  ]
]

pub is_pending-inv : (s : JobStatus) → is_pending s ≡ true → s ≡ JobStatus.pending
is_pending-inv s h = ground arith
