-- ===== src/Surface.antt =====
-- The surfaces of a request (crates/zlauder-engine/src/surface.rs): which text is masked on its
-- way to the model, and which is unmasked on its way back.
use zlau_de_r.Prelude.{ℕ, Bool, false, List, [], ◌∷◌, ◌||◌, ◌==◌}

pub data Surface : Type 0 where
  user_message system_prompt tool_result assistant_text tool_use_input : Surface

pub data Direction : Type 0 where
  mask unmask : Direction

unfoldable pub direction : Surface → Direction
direction Surface.user_message = Direction.mask
direction Surface.system_prompt = Direction.mask
direction Surface.tool_result = Direction.mask
direction Surface.assistant_text = Direction.unmask
direction Surface.tool_use_input = Direction.unmask

-- `surface_tag` of secrets.rs: the byte by which a surface enters a fingerprint.
abbrev pub surface_tag : Surface → ℕ
surface_tag Surface.user_message = 0
surface_tag Surface.system_prompt = 1
surface_tag Surface.tool_result = 2
surface_tag Surface.assistant_text = 3
surface_tag Surface.tool_use_input = 4

-- The derived `PartialEq`.
abbrev pub surface_eq : Surface → Surface → Bool
surface_eq a b = surface_tag a == surface_tag b

abbrev pub contains_surface : List Surface → Surface → Bool
contains_surface [] s = false
contains_surface (x ∷ xs) s = surface_eq x s || contains_surface xs s
