-- ===== src/External/Text.antt =====
-- What the validation calls of net/mail, unicode and fmt.
use kratos_layout_monolith.Prelude.{ℕ, String}

-- An address, as the field Address of the result, or the text of the error.
pub data Parsed : Type 0 where
  address : String → Parsed
  refused : String → Parsed

pub record Texts : Type 0 where
  -- mail.ParseAddress
  pub parse_address : String → Parsed
  -- unicode.ToLower, on code points
  pub to_lower : ℕ → ℕ
  -- fmt's %q of the text with one character
  pub quote : ℕ → String
