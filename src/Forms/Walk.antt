-- ===== src/Forms/Walk.antt =====
-- Handing a form on from stage to stage, app/services/form_stages.py.
use avora_be.Prelude.{ℕ, zero, suc, ◌≡◌, Option, none, some, List, [], ◌∷◌, arith}
use avora_be.Forms.{FormField, Stage, stages_used, first_stage, next_stage}

-- The stages that a form goes through, for so many moves at most.
unfoldable pub walk : ℕ → List FormField → Option Stage → List Stage
walk zero fs s = []
walk (suc n) fs none = []
walk (suc n) fs (some s) = s ∷ walk n fs (next_stage fs (some s))

-- From its first stage a form goes through the stages that have something to answer, each once and
-- in filling order, and is then finished: a third move does not happen.
pub walk-stages_used : (fs : List FormField) → walk 3 fs (first_stage fs) ≡ stages_used fs
unfolding walk stages_used next_stage
walk-stages_used fs = ground arith
