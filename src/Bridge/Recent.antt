-- ===== src/Bridge/Recent.antt =====
-- `_RecentFrameSet` of fairyclaw/bridge/user_gateway.py: the ids of the frames handled last.
use mathlib.Core.List.{reverse, reverse-cons, reverse-append, append-nil}
use fairy_claw.Base.{
  ℕ, zero, suc, ◌-◌, ◌≤◌, max, ◌≡◌, refl, ◌∙◌, ap, sym, String, Bool, false, not, List, [], ◌∷◌,
  ◌++◌, inl, inr, arith, Bool-cases, str_eq, eq_iff, leb, mem_text, take, drop, keep, keep-append,
  length, length-append,
}

-- The ids, from the one added first on.
pub record RecentFrameSet : Type 0 where
  pub limit : ℕ
  pub ids : List String

unfoldable pub empty : ℕ → RecentFrameSet
empty limit = record { limit = max 1 limit; ids = [] }

-- `self._data.pop(frame_id, None)`
abbrev pub without : String → List String → List String
without id ids = keep (λ other. not (str_eq other id)) ids

-- The `while` loop: the oldest ids go until no more than the limit are left.
unfoldable pub trim : ℕ → List String → List String
trim limit ids = drop (length ids - limit) ids

unfoldable pub add : RecentFrameSet → String → RecentFrameSet
add s id = record s { ids = trim s.limit (without id s.ids ++ id ∷ []) }

abbrev pub has : RecentFrameSet → String → Bool
has s id = mem_text id s.ids

-- What is left of an empty set after ids were added, the last one first in the list.
unfoldable pub added : ℕ → List String → RecentFrameSet
added limit [] = empty limit
added limit (id ∷ ids) = add (added limit ids) id

-- The different ids of a list, each where it comes first.
abbrev pub distinct : List String → List String
distinct [] = []
distinct (id ∷ ids) = id ∷ without id (distinct ids)

length-reverse : (xs : List String) → length (reverse xs) ≡ length xs
length-reverse [] = refl
length-reverse (x ∷ xs) =
    ap length (reverse-cons x xs)
    ∙ length-append (reverse xs) (x ∷ [])
    ∙ omega (arith, length-reverse xs)

take-all : (n : ℕ) (xs : List String) → length xs ≤ n → take n xs ≡ xs
take-all zero [] h = refl
take-all zero (x ∷ xs) h = absurd (omega arith)
take-all (suc n) [] h = refl
take-all (suc n) (x ∷ xs) h = ap (λ ys. x ∷ ys) (take-all n xs (omega arith))

take-append_left : (n : ℕ) (xs ys : List String) → n ≤ length xs → take n (xs ++ ys) ≡ take n xs
take-append_left zero xs ys h = refl
take-append_left (suc n) [] ys h = absurd (omega arith)
take-append_left (suc n) (x ∷ xs) ys h = ap (λ zs. x ∷ zs) (take-append_left n xs ys (omega arith))

-- The loop leaves the last ids.
reverse-trim : (n : ℕ) (xs : List String) → reverse (trim n xs) ≡ take n (reverse xs)
unfolding trim
reverse-trim n [] =
    let none_over : 0 - n ≡ 0 = omega arith in rw none_over (sym (take-all n [] (omega arith)))
reverse-trim n (x ∷ xs) = elim (Bool-cases (leb n (length xs))) [
  | inl e ↦
      let over : suc (length xs) - n ≡ suc (length xs - n) = ground arith in
      ap (λ k. reverse (drop k (x ∷ xs))) over
      ∙ reverse-trim n xs
      ∙ sym (take-append_left n (reverse xs) (x ∷ []) (ground (arith, length-reverse xs)))
      ∙ ap (take n) (sym (reverse-cons x xs))
  | inr e ↦
      let none_over : suc (length xs) - n ≡ 0 = ground arith in
      ap (λ k. reverse (drop k (x ∷ xs))) none_over
      ∙ sym (take-all n (reverse (x ∷ xs)) (ground (arith, length-reverse (x ∷ xs))))
]

reverse-without :
    (id : String) (xs : List String) → reverse (without id xs) ≡ without id (reverse xs)
reverse-without id [] = refl
reverse-without id (x ∷ xs) = elim (Bool-cases (str_eq x id)) [
  | inl e ↦
      let gone : without id (x ∷ []) ≡ [] = rw e refl in
      let shorter : without id (x ∷ xs) ≡ without id xs = rw e refl in
      ap reverse shorter
      ∙ reverse-without id xs
      ∙ sym (append-nil (without id (reverse xs)))
      ∙ ap (λ ys. without id (reverse xs) ++ ys) (sym gone)
      ∙ tail_of x xs
  | inr e ↦
      let stays : without id (x ∷ []) ≡ x ∷ [] = rw e refl in
      let same : without id (x ∷ xs) ≡ x ∷ without id xs = rw e refl in
      ap reverse same
      ∙ reverse-cons x (without id xs)
      ∙ ap (λ ys. ys ++ x ∷ []) (reverse-without id xs)
      ∙ ap (λ ys. without id (reverse xs) ++ ys) (sym stays)
      ∙ tail_of x xs
]
  where
    tail_of :
        (y : String) (ys : List String)
        → without id (reverse ys) ++ without id (y ∷ []) ≡ without id (reverse (y ∷ ys))
    tail_of y ys =
        sym (keep-append (λ other. not (str_eq other id)) (reverse ys) (y ∷ []))
        ∙ ap (without id) (sym (reverse-cons y ys))

-- No id twice.
abbrev IsDistinct : List String → Type 0
IsDistinct [] = Unit
IsDistinct (x ∷ xs) = mem_text x xs ≡ false × IsDistinct xs

without-missing : (id : String) (xs : List String) → mem_text id xs ≡ false → without id xs ≡ xs
without-missing id [] h = refl
without-missing id (x ∷ xs) h = ground (arith, without-missing id xs)

mem_text-without_self : (id : String) (xs : List String) → mem_text id (without id xs) ≡ false
mem_text-without_self id [] = refl
mem_text-without_self id (x ∷ xs) = ground (arith, mem_text-without_self id xs)

mem_text-without :
    (id y : String) (xs : List String) → mem_text y xs ≡ false → mem_text y (without id xs) ≡ false
mem_text-without id y [] h = refl
mem_text-without id y (x ∷ xs) h = ground (arith, mem_text-without id y xs)

mem_text-take :
    (n : ℕ) (y : String) (xs : List String) → mem_text y xs ≡ false → mem_text y (take n xs) ≡ false
mem_text-take zero y xs h = refl
mem_text-take (suc n) y [] h = refl
mem_text-take (suc n) y (x ∷ xs) h = ground (arith, mem_text-take n y xs)

without-IsDistinct : (id : String) (xs : List String) → IsDistinct xs → IsDistinct (without id xs)
without-IsDistinct id [] d = d
without-IsDistinct id (x ∷ xs) d = elim (Bool-cases (str_eq x id)) [
  | inl e ↦ rw e (without-IsDistinct id xs d.1)
  | inr e ↦ rw e (mem_text-without id x xs d.0, without-IsDistinct id xs d.1)
]

distinct-IsDistinct : (xs : List String) → IsDistinct (distinct xs)
distinct-IsDistinct [] = tt
distinct-IsDistinct (x ∷ xs) = (
  mem_text-without_self x (distinct xs),
  without-IsDistinct x (distinct xs) (distinct-IsDistinct xs),
)

length-take-le : (n : ℕ) (xs : List String) → length (take n xs) ≤ n
length-take-le zero xs = omega arith
length-take-le (suc n) [] = omega arith
length-take-le (suc n) (x ∷ xs) = omega (arith, length-take-le n xs)

take-without :
    (m : ℕ) (id : String) (xs : List String)
    → IsDistinct xs
    → take m (without id (take (suc m) xs)) ≡ take m (without id xs)
take-without m id [] d = refl
take-without m id (x ∷ xs) d = elim (Bool-cases (str_eq x id)) [
  | inl e ↦
      let missing : mem_text id xs ≡ false =
        ap (λ y. mem_text y xs) (sym ((eq_iff x id).0 e)) ∙ d.0 in
      rw e (
        ap (take m) (without-missing id (take m xs) (mem_text-take m id xs missing))
        ∙ take-all m (take m xs) (length-take-le m xs)
        ∙ ap (take m) (sym (without-missing id xs missing)))
  | inr e ↦ rw e (behind m (λ k. take-without k id xs d.1))
]
  where
    behind :
        (k : ℕ)
        → ((j : ℕ) → take j (without id (take (suc j) xs)) ≡ take j (without id xs))
        → take k (x ∷ without id (take k xs)) ≡ take k (x ∷ without id xs)
    behind zero same = refl
    behind (suc k) same = ap (λ ys. x ∷ ys) (same k)

limit-added : (limit : ℕ) (ids : List String) → (added limit ids).limit ≡ max 1 limit
unfolding added add empty
limit-added limit [] = refl
limit-added limit (id ∷ ids) = limit-added limit ids

-- One id more, on lists: `ids` are those of the set, `ds` the different ones.
reverse-trim_next :
    (m : ℕ) (id : String) (ids ds : List String)
    → IsDistinct ds
    → reverse ids ≡ take (suc m) ds
    → reverse (trim (suc m) (without id ids ++ id ∷ [])) ≡ take (suc m) (id ∷ without id ds)
reverse-trim_next m id ids ds d h =
    reverse-trim (suc m) (without id ids ++ id ∷ [])
    ∙ ap (take (suc m)) (reverse-append (without id ids) (id ∷ []))
    ∙ ap (λ ys. id ∷ take m ys) (reverse-without id ids ∙ ap (without id) h)
    ∙ ap (λ ys. id ∷ ys) (take-without m id ds d)

-- A set to which ids were added holds the last of the different ids, as many as its limit: these
-- are its ids from the latest on.
pub added-distinct :
    (limit : ℕ) (ids : List String)
    → reverse (added limit ids).ids ≡ take (max 1 limit) (distinct ids)
unfolding added add empty
added-distinct limit [] = sym (take-all (max 1 limit) [] (omega arith))
added-distinct limit (id ∷ ids) =
    let m = max 1 limit - 1 in
    let some_limit : max 1 limit ≡ suc m = omega arith in
    let same : (added limit ids).limit ≡ suc m = limit-added limit ids ∙ some_limit in
    ap (λ k. reverse (trim k (without id (added limit ids).ids ++ id ∷ []))) same
    ∙ reverse-trim_next m id (added limit ids).ids (distinct ids) (distinct-IsDistinct ids)
        (added-distinct limit ids ∙ ap (λ k. take k (distinct ids)) some_limit)
    ∙ ap (λ k. take k (id ∷ without id (distinct ids))) (sym some_limit)
