-- ===== src/Model/Tests.antt =====
-- The texts of two identifiers.
use antwatcher.Prelude.{ℕ, ◌≡◌, refl, List, [], ◌∷◌, arith}
use antwatcher.Model.Ids.{job_space}
use antwatcher.Model.Ids.Texts.{hashed_text_inj}

hashed_text_inj_example : (job_space ≡ job_space) × (◌≡◌ {A = List ℕ} (12 ∷ []) (12 ∷ []))
hashed_text_inj_example =
    hashed_text_inj job_space job_space 12 [] 12 [] (omega arith, tt) (omega arith, tt) refl
