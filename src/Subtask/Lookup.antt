-- ===== src/Subtask/Lookup.antt =====
-- `resolve_task_id` of global_state.py: the ids that it gives.
use fairy_claw.Base.{
  ◌≡◌, refl, String, Bool, true, false, some, List, [], ◌∷◌, inl, inr, arith, Bool-cases, is_some,
  keep, mem_text, str_eq, eq_iff, starts_with, nonempty,
}
use fairy_claw.Base.Dict.{Dict, get, keys}
use fairy_claw.Subtask.{
  SubTaskRecord, SessionSubTaskState, find_matching_task_ids, only, resolve_task_id,
}

get-keys : (d : Dict SubTaskRecord) (k : String) → is_some (get d k) ≡ mem_text k (keys d)
unfolding get
get-keys [] k = refl
get-keys ((j, r) ∷ d) k = ground (arith, get-keys d k)

keep-none :
    (p : String → Bool) (ks : List String) (j : String)
    → keep p ks ≡ []
    → mem_text j ks ≡ true
    → p j ≡ false
keep-none p [] j h m = cc
keep-none p (k ∷ ks) j h m = elim (Bool-cases (p k)) [
  | inl e ↦ absurd (cc (rw e at h))
  | inr e ↦ elim (Bool-cases (str_eq k j)) [
    | inl q ↦ let q' : k ≡ j = (eq_iff k j).0 q in rw (← q') e
    | inr q ↦ keep-none p ks j (rw e at h) (rw q at m)
  ]
]

-- The one element that a list keeps stands in it and passes, and no other element passes.
keep-one :
    (p : String → Bool) (ks : List String) (id : String)
    → keep p ks ≡ id ∷ []
    → (mem_text id ks ≡ true)
      × (p id ≡ true)
      × ((j : String) → mem_text j ks ≡ true → p j ≡ true → j ≡ id)
keep-one p [] id h = cc
keep-one p (k ∷ ks) id h = elim (Bool-cases (p k)) [
  | inl e ↦
      let h' : k ∷ keep p ks ≡ id ∷ [] = rw e at h in
      let q : k ≡ id = cc h' in
      let n : keep p ks ≡ [] = cc h' in
      (
        ground (arith, (eq_iff k id).1 q),
        rw (← q) e,
        λ j m t. elim (Bool-cases (str_eq k j)) [
          | inl s ↦ cc (q, (eq_iff k j).0 s)
          | inr s ↦ absurd (cc (t, keep-none p ks j n (rw s at m)))
        ],
      )
  | inr e ↦
      let (m, t, u) = keep-one p ks id (rw e at h) in
      (
        ground (arith, m),
        t,
        λ j n s. elim (Bool-cases (str_eq k j)) [
          | inl q ↦ absurd (cc (e, s, (eq_iff k j).0 q))
          | inr q ↦ u j (rw q at n) s
        ],
      )
]

only-one : (ks : List String) (id : String) → only ks ≡ some id → ks ≡ id ∷ []
only-one [] id h = cc
only-one (k ∷ []) id h = cc
only-one (k ∷ j ∷ ks) id h = cc

-- What `resolve_task_id` gives is the id of a known task: the given text itself if that is an id, and
-- otherwise the only id that begins with it.
pub resolve_task_id_unique :
    (s : SessionSubTaskState) (k id : String)
    → resolve_task_id s k ≡ some id
    → (mem_text id (keys s.records) ≡ true)
      × (mem_text k (keys s.records) ≡ true → id ≡ k)
      × (mem_text k (keys s.records) ≡ false
          → (starts_with id k ≡ true)
            × ((j : String) → mem_text j (keys s.records) ≡ true → starts_with j k ≡ true → j ≡ id))
unfolding resolve_task_id find_matching_task_ids
resolve_task_id_unique s k id h = elim (Bool-cases (is_some (get s.records k))) [
  | inl e ↦
      let q : k ≡ id = cc (rw (e, resolve_task_id) at h) in
      let m = get-keys s.records k in (cc (q, m, e), λ n. cc q, λ n. absurd (cc (m, n, e)))
  | inr e ↦ elim (Bool-cases (nonempty k)) [
    | inr n ↦ absurd (cc (rw (e, resolve_task_id, n, find_matching_task_ids) at h))
    | inl n ↦
        let o = only-one (find_matching_task_ids s k) id (rw (e, resolve_task_id) at h) in
        let (m, t, u) =
          keep-one (λ j. starts_with j k) (keys s.records) id
            (rw (n, find_matching_task_ids) at o) in
        (m, λ a. absurd (cc (get-keys s.records k, a, e)), λ a. (t, u))
  ]
]
