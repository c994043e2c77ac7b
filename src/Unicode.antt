-- ===== src/Unicode.antt =====
-- The character tables of the Python runtime that regular expressions and str.lower consult.
use jibit_ir_sdk.Prelude.{ℕ, Bool, List}

pub record Unicode : Type 0 where
  -- the class \d
  pub is_digit : ℕ → Bool
  -- c.isalnum()
  pub is_alnum : ℕ → Bool
  -- c.isdigit(), which holds of more than \d
  pub is_digit_sign : ℕ → Bool
  -- the class \w
  pub is_word : ℕ → Bool
  -- c.lower(), for a character beyond ASCII
  pub lower_beyond : ℕ → List ℕ
