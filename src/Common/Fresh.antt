-- ===== src/Common/Fresh.antt =====
-- A loop that keeps the set of the keys seen so far, and refuses a key that it has seen.
use mathlib.Core.Path.{◌≡◌, refl}
use mathlib.Core.Logic.{◌≢◌, ◌↔◌}
use mathlib.Core.Bool.{Bool, true, false}
use mathlib.Core.List.{List, [], ◌∷◌}
use native.Mathlib.Omega.{arith}
use ai_knowledge_system.Common.Lists.{All, any}

module _ {A B : Type 0} (beq : B → B → Bool) (beq_iff : (a b : B) → (beq a b ≡ true) ↔ (a ≡ b))
    (key : A → B) where
  -- No element's key is among those seen.
  abbrev pub IsFreshFor : List B → List A → Type 0
  IsFreshFor seen xs = All (λ x. any (λ s. beq s (key x)) seen ≡ false) xs

  -- No key occurs twice.
  abbrev pub HasDistinct : List A → Type 0
  HasDistinct [] = Unit
  HasDistinct (x ∷ rest) = All (λ later. key later ≢ key x) rest × HasDistinct rest

  pub fresh-cons_iff :
      (k : B) (seen : List B) (xs : List A)
      → IsFreshFor (k ∷ seen) xs ↔ (All (λ x. key x ≢ k) xs × IsFreshFor seen xs)
  fresh-cons_iff k seen [] = (λ h. (tt, tt), λ h. tt)
  fresh-cons_iff k seen (x ∷ rest) =
      let (to, from) = fresh-cons_iff k seen rest in
      (
        λ (f, all).
            let (l, r) = to all in ((λ e. ground (arith, beq_iff k (key x)), l), (ground arith, r)),
        λ ((ne, l), (f, r)). (ground (arith, beq_iff k (key x)), from (l, r)),
      )

  pub all_fresh : (xs : List A) → IsFreshFor [] xs
  all_fresh [] = tt
  all_fresh (x ∷ rest) = (refl, all_fresh rest)
