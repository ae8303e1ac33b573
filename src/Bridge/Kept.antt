-- ===== src/Bridge/Kept.antt =====
-- Which ids the set of recent frames of fairyclaw/bridge/user_gateway.py still holds.
use mathlib.Core.List.{reverse, reverse-cons}
use fairy_claw.Base.{
  ℕ, zero, suc, ◌<◌, max, ◌≡◌, refl, ◌∙◌, ap, sym, String, true, false, ◌||◌, List, [], ◌∷◌, ◌++◌,
  inl, inr, arith, Bool-cases, str_eq, str_eq_refl, eq_iff, mem_text, take, length,
}
use fairy_claw.Bridge.Recent.{has, added, distinct, without, added-distinct}

pub mem_text-append :
    (id : String) (xs ys : List String)
    → mem_text id (xs ++ ys) ≡ (mem_text id xs || mem_text id ys)
mem_text-append id [] ys = refl
mem_text-append id (x ∷ xs) ys = ground (arith, mem_text-append id xs ys)

mem_text-reverse : (id : String) (xs : List String) → mem_text id (reverse xs) ≡ mem_text id xs
mem_text-reverse id [] = refl
mem_text-reverse id (x ∷ xs) =
    ap (mem_text id) (reverse-cons x xs)
    ∙ mem_text-append id (reverse xs) (x ∷ [])
    ∙ ground (arith, mem_text-reverse id xs)

mem_text-take_more :
    (n : ℕ) (id : String) (xs : List String)
    → mem_text id (take n xs) ≡ true
    → mem_text id (take (suc n) xs) ≡ true
mem_text-take_more zero id xs h = absurd cc
mem_text-take_more (suc n) id [] h = absurd cc
mem_text-take_more (suc n) id (x ∷ xs) h = elim (Bool-cases (str_eq x id)) [
  | inl r ↦ rw r refl
  | inr r ↦ rw r (mem_text-take_more n id xs (rw r at h))
]

-- Another id that goes does not push an id out.
mem_text-take-without :
    (n : ℕ) (id j : String) (xs : List String)
    → str_eq j id ≡ false
    → mem_text id (take n xs) ≡ true
    → mem_text id (take n (without j xs)) ≡ true
mem_text-take-without zero id j xs e h = absurd cc
mem_text-take-without (suc n) id j [] e h = absurd cc
mem_text-take-without (suc n) id j (x ∷ xs) e h = elim (Bool-cases (str_eq x j)) [
  | inl q ↦
      let other : str_eq x id ≡ false = ap (λ y. str_eq y id) ((eq_iff x j).0 q) ∙ e in
      rw q (mem_text-take-without (suc n) id j xs e (mem_text-take_more n id xs (rw other at h)))
  | inr q ↦ elim (Bool-cases (str_eq x id)) [
    | inl r ↦ rw (q, r) refl
    | inr r ↦ rw (q, r) (mem_text-take-without n id j xs e (rw r at h))
  ]
]

-- An id is among the last ones as long as fewer than the limit were added after it.
mem_text-distinct :
    (n : ℕ) (id : String) (js ids : List String)
    → length js < n
    → mem_text id (take n (distinct (js ++ id ∷ ids))) ≡ true
mem_text-distinct zero id js ids h = absurd (omega arith)
mem_text-distinct (suc n) id [] ids h = rw (str_eq_refl id) refl
mem_text-distinct (suc n) id (j ∷ js) ids h = elim (Bool-cases (str_eq j id)) [
  | inl e ↦ rw e refl
  | inr e ↦ rw e (
      mem_text-take-without n id j (distinct (js ++ id ∷ ids)) e
        (mem_text-distinct n id js ids (omega arith)))
]

pub has-added :
    (limit : ℕ) (id : String) (js ids : List String)
    → length js < max 1 limit
    → has (added limit (js ++ id ∷ ids)) id ≡ true
has-added limit id js ids h =
    sym (mem_text-reverse id (added limit (js ++ id ∷ ids)).ids)
    ∙ ap (mem_text id) (added-distinct limit (js ++ id ∷ ids))
    ∙ mem_text-distinct (max 1 limit) id js ids h
