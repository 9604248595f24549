-- ===== src/Sequences/Texts.antt =====
-- Texts by their characters.
use Prim.Native.String.{String, [], ◌∷◌}
use Prim.Native.String
use Prim.Native.String.append
use listmonk_ops.Prelude.{suc, ◌≡◌, refl, ap, sym, ◌∙◌}
use listmonk_ops.Sequences.Values.{text_count, text_drop, text_take}

pub text_drop-append : (s t : String) → text_drop (text_count s) (String.◌++◌ s t) ≡ t
text_drop-append [] t = λ i. append.nil t i
text_drop-append (c ∷ s) t =
    ap (text_drop (suc (text_count s))) (λ i. append.cons c s t i) ∙ text_drop-append s t

pub append_cancel : (s t u : String) → String.◌++◌ s t ≡ String.◌++◌ s u → t ≡ u
append_cancel s t u e =
    sym (text_drop-append s t) ∙ ap (text_drop (text_count s)) e ∙ text_drop-append s u

pub text_take-append : (s t : String) → text_take (text_count s) (String.◌++◌ s t) ≡ s
text_take-append [] t = refl
text_take-append (c ∷ s) t =
    ap (text_take (suc (text_count s))) (λ i. append.cons c s t i)
    ∙ ap (◌∷◌ c) (text_take-append s t)

-- Texts that begin with parts of one length have the same parts.
pub append_split :
    (s s' t t' : String)
    → text_count s ≡ text_count s'
    → String.◌++◌ s t ≡ String.◌++◌ s' t'
    → (s ≡ s') × (t ≡ t')
append_split s s' t t' n e = (
  sym (text_take-append s t)
      ∙ ap (text_take (text_count s)) e
      ∙ ap (λ k. text_take k (String.◌++◌ s' t')) n
      ∙ text_take-append s' t',
  sym (text_drop-append s t)
      ∙ ap (text_drop (text_count s)) e
      ∙ ap (λ k. text_drop k (String.◌++◌ s' t')) n
      ∙ text_drop-append s' t',
)
