-- ===== src/Common/Blank.antt =====
-- `trim`: what is left is empty exactly when the text is all white space.
use Prim.Native.Nat.{ℕ}
use Prim.Native.String.{String}
use mathlib.Core.Path.{◌≡◌, refl, sym, ap, ◌∙◌}
use mathlib.Core.Logic.{◌↔◌, inl, inr}
use mathlib.Core.Bool.{true}
use mathlib.Core.List.{List, [], ◌∷◌, reverse, reverse-append, reverse-reverse}
use native.Mathlib.Omega.{arith}
use ai_knowledge_system.Common.Tests.{Bool-cases}
use ai_knowledge_system.Common.Lists.{All, All-append, is_empty}
use ai_knowledge_system.Common.Text.{codes, is_space, drop_space, trim, is_text}

-- Every character is white space.
abbrev pub IsBlank : List ℕ → Type 0
IsBlank = All (λ c. is_space c ≡ true)

IsBlank-reverse : (s : List ℕ) → IsBlank s → IsBlank (reverse s)
IsBlank-reverse [] h = tt
IsBlank-reverse (c ∷ s) (p, h) =
    rw (reverse-append (c ∷ []) s)
      (All-append (λ c. is_space c ≡ true) (reverse s) (c ∷ []) (IsBlank-reverse s h) (p, tt))

IsBlank-of_reverse : (s : List ℕ) → IsBlank (reverse s) → IsBlank s
IsBlank-of_reverse s h = rw (reverse-reverse s) at (IsBlank-reverse (reverse s) h)

drop_space-of_IsBlank : (s : List ℕ) → IsBlank s → drop_space s ≡ []
unfolding drop_space
drop_space-of_IsBlank [] h = refl
drop_space-of_IsBlank (c ∷ s) (p, h) = rw p (drop_space-of_IsBlank s h)

IsBlank-of_drop_space : (s : List ℕ) → IsBlank (drop_space s) → IsBlank s
unfolding drop_space
IsBlank-of_drop_space [] h = tt
IsBlank-of_drop_space (c ∷ s) h = elim (Bool-cases (is_space c)) [
  | inl p ↦ (p, IsBlank-of_drop_space s (rw p at h))
  | inr p ↦ rw p at h
]

IsBlank-of_drop_space-nil : (s : List ℕ) → drop_space s ≡ [] → IsBlank s
IsBlank-of_drop_space-nil s e = IsBlank-of_drop_space s (rw e tt)

reverse-nil : (s : List ℕ) → reverse s ≡ [] → s ≡ []
reverse-nil s e = sym (reverse-reverse s) ∙ ap reverse e

pub trim-nil_iff : (s : List ℕ) → (trim s ≡ []) ↔ IsBlank s
unfolding trim
trim-nil_iff s = (
  λ e. IsBlank-of_drop_space s (
      IsBlank-of_reverse (drop_space s)
        (IsBlank-of_drop_space-nil (reverse (drop_space s)) (reverse-nil _ e))),
  λ h. rw (drop_space-of_IsBlank s h),
)

is_empty_iff : (s : List ℕ) → (is_empty s ≡ true) ↔ (s ≡ [])
is_empty_iff s = ground arith

-- A text with a character that is no white space, and only such a one, passes the test.
pub is_text_iff : (s : String) → (is_text s ≡ true) ↔ ¬ IsBlank (codes s)
unfolding is_text
is_text_iff s = ground (arith, trim-nil_iff (codes s))
