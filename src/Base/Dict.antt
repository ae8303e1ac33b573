-- ===== src/Base/Dict.antt =====
-- Python's `dict` with text keys, in insertion order, and its `set` of texts.
use Prim.Native.String.{String}
use mathlib.Core.Path.{◌≡◌, refl, subst₂}
use mathlib.Core.Logic.{inl, inr}
use mathlib.Core.Bool.{false, ◌||◌}
use mathlib.Core.Option.{Option, none, some, some-injective}
use mathlib.Core.List.{List, [], ◌∷◌}
use native.Mathlib.Omega.{arith}
use text.Mathlib.Text.{◌==◌ as str_eq}
use text.Mathlib.TextEquality.{eq_iff}
use fairy_claw.Base.Tests.{if◌then◌else◌, Bool-cases}
use fairy_claw.Base.Text.{mem_text, str_eq_refl}

abbrev pub Dict {ℓ} : Type ℓ → Type ℓ
Dict V = List (String × V)

module _ {ℓ} {V : Type ℓ} where
  -- `d.get(k)`
  unfoldable pub get : Dict V → String → Option V
  get [] k = none
  get ((j, v) ∷ d) k = if str_eq j k then some v else get d k

  -- `d[k] = v`: a key that is there keeps its place.
  unfoldable pub put : Dict V → String → V → Dict V
  put [] k v = (k, v) ∷ []
  put ((j, w) ∷ d) k v = if str_eq j k then (j, v) ∷ d else (j, w) ∷ put d k v

  -- `d.pop(k, None)`
  unfoldable pub remove : Dict V → String → Dict V
  remove [] k = []
  remove ((j, w) ∷ d) k = let rest = remove d k in if str_eq j k then rest else (j, w) ∷ rest

  -- `d.keys()` and `d.values()`
  abbrev pub keys : Dict V → List String
  keys [] = []
  keys ((j, w) ∷ d) = j ∷ keys d

  abbrev pub values : Dict V → List V
  values [] = []
  values ((j, w) ∷ d) = w ∷ values d

  -- A predicate on every entry, with its key.
  abbrev pub Entries {κ} : (String → V → Type κ) → Dict V → Type κ
  Entries P [] = Unit
  Entries P ((j, w) ∷ d) = P j w × Entries P d

module _ {ℓ} {V : Type ℓ} where
  pub get-put :
      (d : Dict V) (k j : String) (v : V)
      → get (put d k v) j ≡ (if str_eq k j then some v else get d j)
  unfolding get put
  get-put [] k j v = refl
  get-put ((i, w) ∷ d) k j v = ground (arith, eq_iff k j, eq_iff i k, eq_iff i j, get-put d k j v)

  pub get-put_self : (d : Dict V) (k : String) (v : V) → get (put d k v) k ≡ some v
  get-put_self d k v = rw (get-put d k k v, str_eq_refl k)

  pub put-put : (d : Dict V) (k : String) (v w : V) → put (put d k v) k w ≡ put d k w
  unfolding put
  put-put [] k v w = rw (str_eq_refl k)
  put-put ((i, u) ∷ d) k v w = elim (Bool-cases (str_eq i k)) [
    | inl e ↦ rw (e, e)
    | inr e ↦ rw (e, e, put-put d k v w)
  ]

  pub get-remove :
      (d : Dict V) (k j : String) → get (remove d k) j ≡ (if str_eq k j then none else get d j)
  unfolding get remove
  get-remove [] k j = ground arith
  get-remove ((i, w) ∷ d) k j = ground (arith, eq_iff k j, eq_iff i k, eq_iff i j, get-remove d k j)

  pub Entries-put {κ} :
      (P : String → V → Type κ) (d : Dict V) (k : String) (v : V)
      → Entries P d
      → P k v
      → Entries P (put d k v)
  unfolding put
  Entries-put P [] k v h p = (p, tt)
  Entries-put P ((j, w) ∷ d) k v h p = elim (Bool-cases (str_eq j k)) [
    | inl e ↦ rw e (let q : j ≡ k = (eq_iff j k).0 e in rw q (p, h.1))
    | inr e ↦ rw e (h.0, Entries-put P d k v h.1 p)
  ]

  pub Entries-remove {κ} :
      (P : String → V → Type κ) (d : Dict V) (k : String) → Entries P d → Entries P (remove d k)
  unfolding remove
  Entries-remove P [] k h = h
  Entries-remove P ((j, w) ∷ d) k h = elim (Bool-cases (str_eq j k)) [
    | inl e ↦ rw e (Entries-remove P d k h.1)
    | inr e ↦ rw e (h.0, Entries-remove P d k h.1)
  ]

  pub Entries-map {κ} :
      (P Q : String → V → Type κ) (d : Dict V)
      → ((k : String) (v : V) → P k v → Q k v)
      → Entries P d
      → Entries Q d
  Entries-map P Q [] f h = h
  Entries-map P Q ((j, w) ∷ d) f h = (f j w h.0, Entries-map P Q d f h.1)

  -- What holds of every entry holds of the one that is looked up.
  pub get-Entries {κ} :
      (P : String → V → Type κ) (d : Dict V) (k : String) {v : V}
      → Entries P d
      → get d k ≡ some v
      → P k v
  unfolding get
  get-Entries P [] k h e = cc
  get-Entries P ((j, w) ∷ d) k {v} h e = elim (Bool-cases (str_eq j k)) [
    | inl t ↦
        let p : some w ≡ some v = rw t at e in
        subst₂ P ((eq_iff j k).0 t) (some-injective _ _ p) h.0
    | inr t ↦ get-Entries P d k h.1 (rw t at e)
  ]

-- A set of texts as a list; only membership is observed.
abbrev pub TextSet : Type 0
TextSet = List String

unfoldable pub add : TextSet → String → TextSet
add s k = if mem_text k s then s else k ∷ s

unfoldable pub discard : TextSet → String → TextSet
discard [] k = []
discard (j ∷ s) k = let rest = discard s k in if str_eq j k then rest else j ∷ rest

pub mem-add : (s : TextSet) (k j : String) → mem_text j (add s k) ≡ (str_eq k j || mem_text j s)
unfolding add
mem-add s k j = elim (Bool-cases (mem_text k s)) [
  | inl e ↦ ground (arith, eq_iff k j)
  | inr e ↦ rw e
]

pub mem-discard :
    (s : TextSet) (k j : String)
    → mem_text j (discard s k) ≡ (if str_eq k j then false else mem_text j s)
unfolding discard
mem-discard [] k j = ground arith
mem-discard (i ∷ s) k j = ground (arith, eq_iff k j, eq_iff i k, eq_iff i j, mem-discard s k j)
