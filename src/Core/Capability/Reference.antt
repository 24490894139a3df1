-- ===== src/Core/Capability/Reference.antt =====
-- `parse` and `as_key` of a model reference.
use pi_rs.Prelude.{ℕ, ◌≡◌, ◌≢◌, [], ◌∷◌, ◌++◌, some, arith, ne_nil→is_empty}
use pi_rs.Prelude.Text.{Text, Lacks, trim, split_once}
use pi_rs.Core.Capability.{ModelRef, parse, as_key}

split_once-append : (d : ℕ) (a b : Text) → Lacks d a → split_once d (a ++ (d ∷ b)) ≡ some (a, b)
unfolding split_once
split_once-append d [] b h = ground arith
split_once-append d (c ∷ a) b h = ground (arith, split_once-append d a b)

-- A reference in the form that `parse` gives: trimmed halves that are not empty.
pub record IsNormal (r : ModelRef) : Type 0 where
  pub provider_slash : Lacks b'/' r.provider
  pub provider_trim : trim r.provider ≡ r.provider
  pub provider_ne : r.provider ≢ []
  pub model_trim : trim r.model ≡ r.model
  pub model_ne : r.model ≢ []

-- A normal reference is read back from its key, also where the model's name holds a slash.
pub parse-as_key : (r : ModelRef) → IsNormal r → parse (as_key r) ≡ some r
unfolding parse as_key
parse-as_key r n = rw (split_once-append b'/' r.provider r.model n.provider_slash) (
    simp (
      n.provider_trim,
      n.model_trim,
      ne_nil→is_empty r.provider n.provider_ne,
      ne_nil→is_empty r.model n.model_ne,
    ))
