-- ===== src/Core/Failure/Replay.antt =====
-- Failures as they are built, and what that says of their replay.
use pi_rs.Prelude.{◌≡◌, true, ◌&&◌, List, [], ◌∷◌, arith}
use pi_rs.Prelude.Text.{Text}
use pi_rs.Core.Failure.{
  ModelFailureKind, FailurePhase, ModelFailure, Builder, new, build, safe_to_retry, is_retryable,
  is_safe, committed_output,
}

abbrev pub build_all : ModelFailure → List Builder → ModelFailure
build_all f [] = f
build_all f (b ∷ bs) = build_all (build f b) bs

-- Output that was emitted is on record as committed.
abbrev pub IsHonest : ModelFailure → Type 0
IsHonest f = f.partial_output_emitted ≡ true → f.replay_safety ≡ committed_output

build-IsHonest : (f : ModelFailure) (b : Builder) → IsHonest f → IsHonest (build f b)
unfolding build
build-IsHonest f (Builder.with_status _) h = h
build-IsHonest f b h = λ e. ground arith

build_all-IsHonest : (f : ModelFailure) (bs : List Builder) → IsHonest f → IsHonest (build_all f bs)
build_all-IsHonest f [] h = h
build_all-IsHonest f (b ∷ bs) h = build_all-IsHonest (build f b) bs (build-IsHonest f b h)

-- Of a failure made by `new` and any sequence of builder calls, in any order, the replay record
-- alone says whether output was committed: the third test of `safe_to_retry` never decides.
pub safe_to_retry_built :
    (kind : ModelFailureKind) (phase : FailurePhase) (message : Text) (bs : List Builder)
    → let f = build_all (new kind phase message) bs in
      safe_to_retry f ≡ (is_retryable f.kind && is_safe f.replay_safety)
unfolding safe_to_retry is_retryable is_safe
safe_to_retry_built kind phase message bs =
    let f = build_all (new kind phase message) bs in
    let honest : IsHonest f =
      build_all-IsHonest (new kind phase message) bs (unfold new in λ e. cc) in
    ground arith
