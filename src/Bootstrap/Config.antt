-- ===== src/Bootstrap/Config.antt =====
-- `Config::from_env` of src/bin/bootstrap.rs. The environment is a function from names to texts;
-- `none` as the result is the panic of `unwrap`.
pub mod Names
use digital_garden_visitor_c.Common.{
  ℕ, true, false, List, [], ◌∷◌, ◌++◌, Option, none, some, Text, codes, ◌==◌, ◌>>=◌,
}
use digital_garden_visitor_c.Decimal.{parse_u64}

pub record Config : Type 0 where
  pub table_name : Text
  pub min_width : ℕ
  pub allowed_names : List Text

-- The standard library's `split` at a character, with the part that is being read.
unfoldable pub split_from : ℕ → Text → Text → List Text
split_from sep part [] = part ∷ []
split_from sep part (c ∷ s) = elim (c == sep) [
  | true ↦ part ∷ split_from sep [] s
  | false ↦ split_from sep (part ++ c ∷ []) s
]

unfoldable pub split : ℕ → Text → List Text
unfolding split_from
split sep s = split_from sep [] s

unfoldable pub parse_min_width : Option Text → Option ℕ
parse_min_width none = some 5
parse_min_width (some text) = parse_u64 text

abbrev pub table_name_from : Option Text → Text
table_name_from none = codes "garden-hit-counter"
table_name_from (some text) = text

unfoldable pub allowed_names_from : Option Text → List Text
unfolding split
allowed_names_from none = codes "default" ∷ []
allowed_names_from (some text) = split b',' text

unfoldable pub from_env : (Text → Option Text) → Option Config
unfolding parse_min_width allowed_names_from
from_env var = do
  min_width ← parse_min_width (var (codes "DGVC_MIN_WIDTH"))
  some (record {
    table_name = table_name_from (var (codes "DGVC_TABLE_NAME"));
    min_width = min_width;
    allowed_names = allowed_names_from (var (codes "DGVC_ALLOWED_NAMES"));
  })
