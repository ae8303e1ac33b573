-- ===== src/Bridge/Last.antt =====
-- The last elements of a list of frames, as the backlog of user_gateway.py keeps them.
use fairy_claw.Base.{
  ℕ, zero, suc, ◌+◌, ◌-◌, ◌≤◌, ◌≡◌, refl, ◌∙◌, ap, sym, List, [], ◌∷◌, ◌++◌, arith, drop, length,
  length-append, length-drop,
}
use fairy_claw.Bridge.Gateway.{BridgeFrame}

-- The last elements of a list.
abbrev pub last : ℕ → List BridgeFrame → List BridgeFrame
last n frames = drop (length frames - n) frames

drop-more : (k : ℕ) (xs ys : List BridgeFrame) → k ≤ length xs → drop k (xs ++ ys) ≡ drop k xs ++ ys
drop-more zero xs ys h = refl
drop-more (suc k) [] ys h = absurd (omega arith)
drop-more (suc k) (x ∷ xs) ys h = drop-more k xs ys (omega arith)

pub drop-nil : (k : ℕ) → drop {A = BridgeFrame} k [] ≡ []
drop-nil zero = refl
drop-nil (suc k) = refl

drop-drop : (j k : ℕ) (xs : List BridgeFrame) → drop j (drop k xs) ≡ drop (k + j) xs
drop-drop j zero xs = let same : 0 + j ≡ j = omega arith in ap (λ k. drop k xs) (sym same)
drop-drop j (suc k) [] = drop-nil j ∙ sym (drop-nil (suc k + j))
drop-drop j (suc k) (x ∷ xs) =
    let same : suc k + j ≡ suc (k + j) = omega arith in
    drop-drop j k xs ∙ ap (λ i. drop i (x ∷ xs)) (sym same)

-- Leaving the last elements before more come makes no difference.
pub last-last : (n : ℕ) (xs ys : List BridgeFrame) → last n (last n xs ++ ys) ≡ last n (xs ++ ys)
last-last n xs ys =
    let over = length xs - n in
    let front : drop over xs ++ ys ≡ drop over (xs ++ ys) =
      sym (drop-more over xs ys (omega arith)) in
    let rest = length (drop over (xs ++ ys)) - n in
    let same : over + rest ≡ length (xs ++ ys) - n =
      omega (arith, length-drop over (xs ++ ys), length-append xs ys) in
    ap (last n) front ∙ drop-drop rest over (xs ++ ys) ∙ ap (λ k. drop k (xs ++ ys)) same
