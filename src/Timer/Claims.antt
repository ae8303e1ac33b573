-- ===== src/Timer/Claims.antt =====
-- `claim_due_jobs` of repository.py: a claimed job is not claimed again while its claim is fresh.
use fairy_claw.Base.{
  ℕ, zero, suc, ◌+◌, ◌<◌, max, String, ◌≡◌, refl, Bool, true, false, ◌||◌, Option, none, some, List,
  [], ◌∷◌, inl, inr, arith, ap, sym, ◌∙◌, Bool-cases, Option-cases, ◌==◌, str_eq, eq_iff, mem_text,
  keep, take, is_some,
}
use fairy_claw.Base.Dict.{Dict, get, put, keys, get-put}
use fairy_claw.Timer.{
  TimerJobModel, is_claimable, is_due, insert_by_fire, order_by_fire, claim_row, claim_rows,
  claim_due_jobs,
}

-- Every id of a list passes a test.
abbrev Every : (String → Bool) → List String → Type 0
Every p ids = (id : String) → mem_text id ids ≡ true → p id ≡ true

keep-Every : (p : String → Bool) (ids : List String) → Every p (keep p ids)
keep-Every p [] id h = cc
keep-Every p (x ∷ ids) id h = elim (Bool-cases (p x)) [
  | inl e ↦ elim (Bool-cases (str_eq x id)) [
    | inl q ↦ let q' : x ≡ id = (eq_iff x id).0 q in rw (← q') e
    | inr q ↦ keep-Every p ids id (rw (e, q) at h)
  ]
  | inr e ↦ keep-Every p ids id (rw e at h)
]

mem-insert_by_fire :
    (d : Dict TimerJobModel) (x id : String) (ids : List String)
    → mem_text id (insert_by_fire d x ids) ≡ (str_eq x id || mem_text id ids)
unfolding insert_by_fire
mem-insert_by_fire d x id [] = refl
mem-insert_by_fire d x id (y ∷ ids) = ground (arith, mem-insert_by_fire d x id ids)

mem-order_by_fire :
    (d : Dict TimerJobModel) (id : String) (ids : List String)
    → mem_text id (order_by_fire d ids) ≡ mem_text id ids
unfolding order_by_fire
mem-order_by_fire d id [] = refl
mem-order_by_fire d id (x ∷ ids) =
    mem-insert_by_fire d x id (order_by_fire d ids) ∙ rw (mem-order_by_fire d id ids) refl

mem-take :
    (n : ℕ) (id : String) (ids : List String)
    → mem_text id (take n ids) ≡ true
    → mem_text id ids ≡ true
mem-take zero id ids h = cc
mem-take (suc n) id [] h = cc
mem-take (suc n) id (x ∷ ids) h = ground (arith, mem-take n id ids)

-- Whether the row of an id carries a claim of this time.
claimed_then : Dict TimerJobModel → ℕ → String → Bool
claimed_then d now id = elim (get d id) [
  | none ↦ false
  | some m ↦ elim m.claimed_at [ none ↦ false | some t ↦ t == now ]
]

claim_rows-keeps :
    (d : Dict TimerJobModel) (now : ℕ) (worker id : String) (ids : List String)
    → claimed_then d now id ≡ true
    → claimed_then (claim_rows d now worker ids) now id ≡ true
unfolding claimed_then claim_rows claim_row
claim_rows-keeps d now worker id [] h = h
claim_rows-keeps d now worker id (x ∷ ids) h = elim (Option-cases (get d x)) [
  | inl e ↦ rw (e, claim_rows) (claim_rows-keeps d now worker id ids h)
  | inr (m, e) ↦
      rw (e, claim_rows)
        (claim_rows-keeps (put d x (claim_row now worker m)) now worker id ids
          (ground (arith, get-put d x id (claim_row now worker m), h)))
]

claim_rows-claims :
    (d : Dict TimerJobModel) (now : ℕ) (worker id : String) (ids : List String)
    → is_some (get d id) ≡ true
    → mem_text id ids ≡ true
    → claimed_then (claim_rows d now worker ids) now id ≡ true
unfolding claimed_then claim_rows claim_row
claim_rows-claims d now worker id [] s h = cc
claim_rows-claims d now worker id (x ∷ ids) s h = elim (Option-cases (get d x)) [
  | inl e ↦
      rw (e, claim_rows)
        (claim_rows-claims d now worker id ids s (ground (arith, eq_iff x id, ap (get d))))
  | inr (m, e) ↦ elim (Bool-cases (str_eq x id)) [
    | inl q ↦
        rw (e, claim_rows)
          (claim_rows-keeps (put d x (claim_row now worker m)) now worker id ids
            (ground (arith, get-put d x id (claim_row now worker m), q)))
    | inr q ↦
        rw (e, claim_rows)
          (claim_rows-claims (put d x (claim_row now worker m)) now worker id ids
            (ground (arith, get-put d x id (claim_row now worker m), s)) (rw q at h))
  ]
]

claim_due_jobs-due :
    (d : Dict TimerJobModel) (now : ℕ) (worker id : String) (limit stale : ℕ)
    → mem_text id (claim_due_jobs d now worker limit stale).1 ≡ true
    → is_due d now (max 1 stale) id ≡ true
unfolding claim_due_jobs
claim_due_jobs-due d now worker id limit stale h =
    let due = keep (is_due d now (max 1 stale)) (keys d) in
    keep-Every (is_due d now (max 1 stale)) (keys d) id
      (sym (mem-order_by_fire d id due) ∙ mem-take (max 1 limit) id (order_by_fire d due) h)

claimable_late :
    (claim : Option ℕ) (now now' stale : ℕ)
    → (elim claim [ none ↦ false | some t ↦ t == now ]) ≡ true
    → now' < now + stale
    → is_claimable claim now' stale ≡ false
claimable_late none now now' stale h lt = cc
claimable_late (some t) now now' stale h lt = ground arith

not_due :
    (d : Dict TimerJobModel) (now now' stale : ℕ) (id : String)
    → claimed_then d now id ≡ true
    → now' < now + stale
    → is_due d now' stale id ≡ false
unfolding claimed_then is_due
not_due d now now' stale id h lt = elim (Option-cases (get d id)) [
  | inl e ↦ rw (e, is_due) refl
  | inr (m, e) ↦
      rw (e, is_due)
        (ground (arith, claimable_late m.claimed_at now now' stale (rw (e, claimed_then) at h) lt))
]

claim_due_jobs-claims :
    (d : Dict TimerJobModel) (now : ℕ) (worker id : String) (limit stale : ℕ)
    → mem_text id (claim_due_jobs d now worker limit stale).1 ≡ true
    → is_due d now (max 1 stale) id ≡ true
    → claimed_then (claim_due_jobs d now worker limit stale).0 now id ≡ true
unfolding claim_due_jobs is_due
claim_due_jobs-claims d now worker id limit stale h due =
    claim_rows-claims d now worker id _ (ground arith) h

-- No job is handed out twice while its claim is fresh: a job that one call claims was due, and no
-- call by any worker less than the staleness limit later claims it from the table as it was left.
pub claim_due_jobs_exclusive :
    (d : Dict TimerJobModel) (now now' : ℕ) (worker worker' id : String) (limit limit' stale : ℕ)
    → mem_text id (claim_due_jobs d now worker limit stale).1 ≡ true
    → now' < now + max 1 stale
    → (is_due d now (max 1 stale) id ≡ true)
      × (mem_text id
            (claim_due_jobs (claim_due_jobs d now worker limit stale).0 now' worker' limit' stale).1
          ≡ false)
claim_due_jobs_exclusive d now now' worker worker' id limit limit' stale h lt =
    let due = claim_due_jobs-due d now worker id limit stale h in
    let d' = (claim_due_jobs d now worker limit stale).0 in
    let late =
      not_due d' now now' (max 1 stale) id (claim_due_jobs-claims d now worker id limit stale h due)
        lt in
    (
      due,
      elim (Bool-cases (mem_text id (claim_due_jobs d' now' worker' limit' stale).1)) [
        | inl again ↦ absurd (cc (late, claim_due_jobs-due d' now' worker' id limit' stale again))
        | inr new ↦ new
      ],
    )
