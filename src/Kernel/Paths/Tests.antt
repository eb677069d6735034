-- ===== src/Kernel/Paths/Tests.antt =====
-- The path "/a//b".
use operating_systems_soluti.Base.{ℕ, ◌≡◌, refl, List, [], ◌∷◌}
use operating_systems_soluti.Kernel.Paths.{skipelem}
use operating_systems_soluti.Kernel.Paths.Elements.{Skipped, skipelem-Skipped, parts, elements}

abbrev two_deep : List ℕ
two_deep = 47 ∷ 97 ∷ 47 ∷ 47 ∷ 98 ∷ []

a_and_b : elements two_deep ≡ (97 ∷ []) ∷ (98 ∷ []) ∷ []
unfolding elements parts
a_and_b = refl

skipelem-Skipped_example : Skipped two_deep (λ k. 0) (skipelem two_deep (λ k. 0))
skipelem-Skipped_example = skipelem-Skipped two_deep (λ k. 0)
