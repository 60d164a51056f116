-- ===== src/Prelude/Floats.antt =====
-- Python's `float`, taken as a type with its operations and comparisons. What a theorem needs of
-- them it states as a hypothesis.
use mathlib.Core.Bool.{Bool}

pub record Floats : Type 1 where
  pub Float : Type 0
  pub zero : Float
  pub add : Float → Float → Float
  pub sub : Float → Float → Float
  pub mul : Float → Float → Float
  pub div : Float → Float → Float
  pub neg : Float → Float
  pub lt : Float → Float → Bool
  pub le : Float → Float → Bool
  pub is_finite : Float → Bool
