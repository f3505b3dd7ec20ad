-- ===== src/Prelude/Substring.antt =====
-- `needle in hay` on texts.
use mathlib.Core.Bool.{Bool, ◌||◌}
use mathlib.Core.List.{[], ◌∷◌}
use llmops_platform.Prelude.Text.{Str, starts_with, is_empty}

unfoldable pub is_within : Str → Str → Bool
unfolding starts_with
is_within needle [] = is_empty needle
is_within needle (c ∷ hay) = starts_with (c ∷ hay) needle || is_within needle hay
