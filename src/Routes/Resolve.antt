-- ===== src/Routes/Resolve.antt =====
-- `resolve` finds the nearest session with an adapter, whatever the parents are.
use mathlib.Core.Path.{subst}
use fairy_claw.Base.{
  ℕ, zero, suc, ◌≤◌, ◌<◌, ◌≡◌, refl, ◌∙◌, ap, sym, String, Bool, true, false, not, ◌||◌, Option,
  none, some, List, [], ◌∷◌, inl, inr, arith, ◌↔◌, Bool-cases, Option-cases, str_eq, str_eq_refl,
  eq_iff, mem_text, nonempty, length, keep, All, length-keep-le,
}
use fairy_claw.History.{has_text, text_or_empty}
use fairy_claw.Routes.{Route, get, resolve_from, resolve}

-- A session answers to the route of the session some parents up, the nearest that has an adapter.
pub data Serves (routes : List Route) : ℕ → String → Route → Type 0 where
  here :
      {s : String} {r : Route}
      → nonempty s ≡ true
      → get routes s ≡ some r
      → has_text r.adapter_key ≡ true
      → Serves routes 0 s r
  up :
      {n : ℕ} {s : String} {r : Route} (m : Route)
      → nonempty s ≡ true
      → get routes s ≡ some m
      → has_text m.adapter_key ≡ false
      → Serves routes n (text_or_empty m.parent_session_id) r
      → Serves routes (suc n) s r

-- The rows that the loop has not visited.
abbrev unseen : List String → List Route → ℕ
unseen visited routes = length (keep (λ r. not (mem_text r.session_id visited)) routes)

unseen-le :
    (s : String) (visited : List String) (routes : List Route)
    → unseen (s ∷ visited) routes ≤ unseen visited routes
unseen-le s visited [] = omega arith
unseen-le s visited (r ∷ routes) = ground (arith, unseen-le s visited routes)

unseen-lt :
    (s : String) (visited : List String) (routes : List Route) (r : Route)
    → get routes s ≡ some r
    → mem_text s visited ≡ false
    → unseen (s ∷ visited) routes < unseen visited routes
unfolding get
unseen-lt s visited [] r g h = absurd cc
unseen-lt s visited (q ∷ routes) r g h = elim (Bool-cases (str_eq q.session_id s)) [
  | inl e ↦
      let same = (eq_iff q.session_id s).0 e in
      let now : str_eq s q.session_id ≡ true = ap (str_eq s) same ∙ str_eq_refl s in
      let before : mem_text q.session_id visited ≡ false = ap (λ y. mem_text y visited) same ∙ h in
      rw (now, before) (omega (arith, unseen-le s visited routes))
  | inr e ↦ let fewer = unseen-lt s visited routes r (rw (e, get) at g) h in ground (arith, fewer)
]

abbrev has_key : Option Route → Bool
has_key none = false
has_key (some r) = has_text r.adapter_key

abbrev parent_of : Option Route → String
parent_of none = ""
parent_of (some r) = text_or_empty r.parent_session_id

module _ (routes : List Route) where
  -- How many parents up is determined.
  same_height :
      (n m : ℕ) (s : String) (r q : Route) → Serves routes n s r → Serves routes m s q → n ≡ m
  same_height n m s r q (here a b c) (here a' b' c') = refl
  same_height n m s r q (here a b c) (up t a' b' c' u) =
      let both : true ≡ false = sym c ∙ ap has_key (sym b ∙ b') ∙ c' in absurd cc
  same_height n m s r q (up t a b c u) (here a' b' c') =
      let both : true ≡ false = sym c' ∙ ap has_key (sym b' ∙ b) ∙ c in absurd cc
  same_height n m s r q (up {n = j} t a b c u) (up {n = k} t' a' b' c' u') =
      ap suc
        (same_height j k _ r q u (subst (λ p. Serves routes k p q) (ap parent_of (sym b' ∙ b)) u'))

  -- A session that was visited is further down than the one at hand.
  abbrev IsBelow : ℕ → String → Type 0
  IsBelow n v = (m : ℕ) × (q : Route) × n < m × Serves routes m v q

  not_visited :
      (n : ℕ) (s : String) (r : Route) (visited : List String)
      → Serves routes n s r
      → All (IsBelow n) visited
      → mem_text s visited ≡ false
  not_visited n s r [] u h = refl
  not_visited n s r (v ∷ visited) u ((m, q, lt, w), h) = elim (Bool-cases (str_eq v s)) [
    | inl e ↦ absurd (
        omega
          (arith, same_height n m s r q u (subst (λ z. Serves routes m z q) ((eq_iff v s).0 e) w)))
    | inr e ↦ rw e (not_visited n s r visited u h)
  ]

  All-IsBelow :
      (n : ℕ) (visited : List String) → All (IsBelow (suc n)) visited → All (IsBelow n) visited
  All-IsBelow n [] h = h
  All-IsBelow n (v ∷ visited) ((m, q, lt, w), h) = ((m, q, omega arith, w), All-IsBelow n visited h)

  resolve_from-Serves :
      (n : ℕ) (s : String) (r : Route) (fuel : ℕ) (visited : List String)
      → Serves routes n s r
      → All (IsBelow n) visited
      → unseen visited routes < fuel
      → resolve_from fuel routes visited s ≡ some r
  unfolding resolve_from
  resolve_from-Serves n s r zero visited u h lt = absurd (omega arith)
  resolve_from-Serves n s r (suc fuel) visited (here a b c) h lt =
      let fresh = not_visited _ s r visited (here a b c) h in rw (a, fresh, b, c) refl
  resolve_from-Serves n s r (suc fuel) visited (up {n = k} m a b c u) h lt =
      let fresh = not_visited (suc k) s r visited (up m a b c u) h in
      rw (a, fresh, b, c)
        (resolve_from-Serves k (text_or_empty m.parent_session_id) r fuel (s ∷ visited) u
          ((suc k, r, omega arith, up m a b c u), All-IsBelow k visited h)
          (omega (arith, unseen-lt s visited routes m b fresh)))

resolve_from_sound :
    (fuel : ℕ) (routes : List Route) (visited : List String) (s : String) (r : Route)
    → resolve_from fuel routes visited s ≡ some r
    → (n : ℕ) × Serves routes n s r
unfolding resolve_from
resolve_from_sound zero routes visited s r h = absurd cc
resolve_from_sound (suc fuel) routes visited s r h =
    elim (Bool-cases (not (nonempty s) || mem_text s visited)) [
      | inl e ↦ absurd (cc (rw (e, resolve_from) at h))
      | inr e ↦ elim (Option-cases (get routes s)) [
        | inl g ↦ absurd (cc (rw (e, g, resolve_from) at h))
        | inr (m, g) ↦ elim (Bool-cases (has_text m.adapter_key)) [
          | inl k ↦
              let same : some m ≡ some r = rw (e, g, k, resolve_from) at h in
              (0, here (ground (arith, e)) (g ∙ same) (ap has_key (sym same) ∙ k))
          | inr k ↦
              let (n, u) =
                resolve_from_sound fuel routes (s ∷ visited) (text_or_empty m.parent_session_id) r
                  (rw (e, g, k, resolve_from) at h) in
              (suc n, up m (ground (arith, e)) g k u)
        ]
      ]
    ]

-- Resolving a session finds a route exactly where one of its own or of its parents' has an adapter, and
-- finds the nearest: the loop ends with it whatever the rows are, also where parents form a circle.
pub resolve-Serves :
    (routes : List Route) (s : String) (r : Route)
    → resolve routes s ≡ some r ↔ ((n : ℕ) × Serves routes n s r)
unfolding resolve
resolve-Serves routes s r = (
  λ h. resolve_from_sound (suc (length routes)) routes [] s r h,
  λ u.
      resolve_from-Serves routes u.0 s r (suc (length routes)) [] u.1 tt
        (omega (arith, length-keep-le (λ q. not (mem_text q.session_id [])) routes)),
)
