-- ===== src/Releases/Consistent.antt =====
-- A release's status and its flags: what every statement on `releases` must keep.
use publaryn.Prelude.{
  ◌≡◌, ◌≢◌, sym, ◌∙◌, ap, Bool, true, false, inl, inr, List, ◌∷◌, Memᴰ, arith, cons-mem_inv, ◌==◌,
  ==_iff,
}
use publaryn.Query.Update.{update_where, update_where-mem_inv}
use publaryn.Domain.Release.{
  ReleaseStatus, quarantine, scanning, published, deprecated, yanked, deleted,
}
use publaryn.Db.{Release}

-- A release that is not out yet, or out and untouched, has neither flag; the statuses `yanked` and
-- `deprecated` have their flag.
abbrev pub FitsFlags : ReleaseStatus → Release → Type 0
FitsFlags quarantine r = (r.is_yanked ≡ false) × (r.is_deprecated ≡ false)
FitsFlags scanning r = (r.is_yanked ≡ false) × (r.is_deprecated ≡ false)
FitsFlags published r = (r.is_yanked ≡ false) × (r.is_deprecated ≡ false)
FitsFlags deprecated r = r.is_deprecated ≡ true
FitsFlags yanked r = r.is_yanked ≡ true
FitsFlags deleted r = Unit

abbrev pub IsConsistent : Release → Type 0
IsConsistent r = FitsFlags r.status r

-- The rows of `releases`: distinct ids, and each row consistent.
pub record IsSound (releases : List Release) : Type 0 where
  pub release_key : (a b : Release) → Memᴰ a releases → Memᴰ b releases → a.id ≡ b.id → a ≡ b
  pub consistent : (r : Release) → Memᴰ r releases → IsConsistent r

module _ (releases : List Release) (sound : IsSound releases) where
  pub update-IsSound :
      (test : Release → Bool) (set : Release → Release)
      → ((r : Release) → (set r).id ≡ r.id)
      → ((r : Release) → Memᴰ r releases → test r ≡ true → IsConsistent (set r))
      → IsSound (update_where test set releases)
  update-IsSound test set ids new = record {
    release_key = λ a b m n same.
        let (x, x_mem, x_how) = update_where-mem_inv test set releases m in
        let (y, y_mem, y_how) = update_where-mem_inv test set releases n in
        elim x_how [
          | inl (x_hit, x_new) ↦ elim y_how [
            | inl (y_hit, y_new) ↦
                let one = sound.release_key x y x_mem y_mem (ground (arith, ids x, ids y)) in
                x_new ∙ ap set one ∙ sym y_new
            | inr (y_miss, y_old) ↦
                let one = sound.release_key x y x_mem y_mem (ground (arith, ids x, ids y)) in
                ground arith
          ]
          | inr (x_miss, x_old) ↦ elim y_how [
            | inl (y_hit, y_new) ↦
                let one = sound.release_key x y x_mem y_mem (ground (arith, ids x, ids y)) in
                ground arith
            | inr (y_miss, y_old) ↦
                let one = sound.release_key x y x_mem y_mem (ground (arith, ids x, ids y)) in
                x_old ∙ one ∙ sym y_old
          ]
        ];
    consistent = λ r m.
        let (x, x_mem, how) = update_where-mem_inv test set releases m in
        elim how [
          | inl (hit, e) ↦ rw e (new x x_mem hit)
          | inr (miss, e) ↦ rw e (sound.consistent x x_mem)
        ];
  }

  -- An update of the one row that has the id of `found`.
  pub update_one-IsSound :
      (found : Release) (set : Release → Release)
      → Memᴰ found releases
      → ((r : Release) → (set r).id ≡ r.id)
      → IsConsistent (set found)
      → IsSound (update_where (λ r. r.id == found.id) set releases)
  update_one-IsSound found set found_mem ids new =
      update-IsSound (λ r. r.id == found.id) set ids
        (λ r m hit. rw (sound.release_key r found m found_mem ((==_iff _ _).0 hit)) new)

  pub insert-IsSound :
      (r : Release)
      → ((k : Release) → Memᴰ k releases → k.id ≢ r.id)
      → IsConsistent r
      → IsSound (r ∷ releases)
  insert-IsSound r fresh new = record {
    release_key = λ a b m n same. elim (cons-mem_inv m) [
      | inl a_new ↦ elim (cons-mem_inv n) [
        | inl b_new ↦ a_new ∙ sym b_new
        | inr b_old ↦ absurd (fresh b b_old (sym same ∙ ap (λ k. k.id) a_new))
      ]
      | inr a_old ↦ elim (cons-mem_inv n) [
        | inl b_new ↦ absurd (fresh a a_old (same ∙ ap (λ k. k.id) b_new))
        | inr b_old ↦ sound.release_key a b a_old b_old same
      ]
    ];
    consistent =
        λ k m. elim (cons-mem_inv m) [ inl e ↦ rw e new | inr old ↦ sound.consistent k old ];
  }
