-- ===== src/Durable/Identity.antt =====
-- shared/execution-history.ts: `identityKey` joins three ids with NUL, so it tells identities apart
-- whose execution and scope have no NUL in them.
use Prim.Native.Char.{code}
use Prim.Native.String
use Prim.Native.String.append
use text.Mathlib.TextLemmas.{append-nil}
use Prim.Native.String.{String}
use ai_knowledge_system.Common.{true, ◌≡◌, ◌≢◌, ◌↔◌, refl, ap, sym, ◌∙◌, eq_iff, concat}
use ai_knowledge_system.Durable.Types.{ExecutionHistoryIdentity}
use ai_knowledge_system.Durable.Contract.{identity_key, same_execution_history_identity}

abbrev pub IsNulFree : String → Type 0
IsNulFree String.[] = Unit
IsNulFree (String.◌∷◌ c s) = (code c ≢ 0) × IsNulFree s

-- NUL before a text is its first character.
nul-append : (s : String) → String.◌++◌ "\0" s ≡ String.◌∷◌ "\0" s
nul-append s = append.cons "\0" "" s ∙ ap (λ t. String.◌∷◌ "\0" t) (append.nil s)

-- A text, then NUL, then another: split at the first NUL.
split_at_nul :
    (a b s t : String)
    → IsNulFree a
    → IsNulFree b
    → String.◌++◌ a (String.◌∷◌ "\0" s) ≡ String.◌++◌ b (String.◌∷◌ "\0" t)
    → (a ≡ b) × (s ≡ t)
split_at_nul String.[] String.[] s t h k e =
    let same = sym (append.nil (String.◌∷◌ "\0" s)) ∙ e ∙ append.nil (String.◌∷◌ "\0" t) in
    (refl, cc)
split_at_nul String.[] (String.◌∷◌ d b) s t h (p, k) e =
    let same = sym (append.nil (String.◌∷◌ "\0" s)) ∙ e ∙ append.cons d b (String.◌∷◌ "\0" t) in
    let nul : code "\0" ≡ code d = cc in absurd (p (sym nul))
split_at_nul (String.◌∷◌ c a) String.[] s t (p, h) k e =
    let same = sym (append.cons c a (String.◌∷◌ "\0" s)) ∙ e ∙ append.nil (String.◌∷◌ "\0" t) in
    let nul : code c ≡ code "\0" = cc in absurd (p nul)
split_at_nul (String.◌∷◌ c a) (String.◌∷◌ d b) s t (p, h) (q, k) e =
    let same =
      sym (append.cons c a (String.◌∷◌ "\0" s)) ∙ e ∙ append.cons d b (String.◌∷◌ "\0" t) in
    let (l, r) = split_at_nul a b s t h k cc in let first : c ≡ d = cc in (cc, r)

identity_key_lem :
    (identity : ExecutionHistoryIdentity)
    → identity_key identity
      ≡ String.◌++◌ identity.execution_id (
          String.◌∷◌ "\0" (String.◌++◌ identity.scope_key (String.◌∷◌ "\0" identity.capability_id)))
unfolding identity_key concat
identity_key_lem identity =
    rw
      (
        append-nil identity.capability_id,
        nul-append identity.capability_id,
        nul-append (String.◌++◌ identity.scope_key (String.◌∷◌ "\0" identity.capability_id)),
      )
      refl

-- Two identities whose execution ids and scope keys contain no NUL have the same key exactly when
-- they are equal.
pub same_execution_history_identity_iff :
    (left right : ExecutionHistoryIdentity)
    → IsNulFree left.execution_id
    → IsNulFree right.execution_id
    → IsNulFree left.scope_key
    → IsNulFree right.scope_key
    → (same_execution_history_identity left right ≡ true) ↔ (left ≡ right)
unfolding same_execution_history_identity
same_execution_history_identity_iff left right a b c d =
    let (to, from) = eq_iff (identity_key left) (identity_key right) in
    (
      λ h.
          let e = sym (identity_key_lem left) ∙ to h ∙ identity_key_lem right in
          let (x, rest) = split_at_nul left.execution_id right.execution_id _ _ a b e in
          let (y, z) = split_at_nul left.scope_key right.scope_key _ _ c d rest in cc,
      λ h. from (ap identity_key h),
    )
