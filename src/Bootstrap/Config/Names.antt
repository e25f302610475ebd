-- ===== src/Bootstrap/Config/Names.antt =====
-- The allowed names that `Config::from_env` of src/bin/bootstrap.rs reads from the environment.
use digital_garden_visitor_c.Common.{
  ℕ, ◌≡◌, ◌≢◌, refl, ◌∙◌, sym, arith, List, [], ◌∷◌, ◌++◌, append_assoc, append-nil, true, false,
  Option, some, Text, codes, ◌==◌, All, All-append, Bool-cases, inl, inr,
}
use digital_garden_visitor_c.Bootstrap.Config.{
  Config, split_from, table_name_from, allowed_names_from, parse_min_width, from_env,
}

-- The parts with the separator between them.
abbrev pub join : ℕ → List Text → Text
join sep [] = []
join sep (part ∷ []) = part
join sep (part ∷ next ∷ parts) = part ++ sep ∷ join sep (next ∷ parts)

abbrev pub Without : ℕ → Text → Type 0
Without sep part = All (λ c. c ≢ sep) part

split_from_at :
    (sep : ℕ) (part : Text) (c : ℕ) (s : Text)
    → c == sep ≡ true
    → split_from sep part (c ∷ s) ≡ part ∷ split_from sep [] s
unfolding split_from
split_from_at sep part c s e = rw (e, split_from)

split_from_past :
    (sep : ℕ) (part : Text) (c : ℕ) (s : Text)
    → c == sep ≡ false
    → split_from sep part (c ∷ s) ≡ split_from sep (part ++ c ∷ []) s
unfolding split_from
split_from_past sep part c s e = rw (e, split_from)

split_from-cons :
    (sep : ℕ) (part s : Text)
    → (first : Text) × (rest : List Text) × (split_from sep part s ≡ first ∷ rest)
unfolding split_from
split_from-cons sep part [] = (part, [], refl)
split_from-cons sep part (c ∷ s) = elim (Bool-cases (c == sep)) [
  | inl e ↦ (part, split_from sep [] s, split_from_at sep part c s e)
  | inr e ↦
      let (first, rest, f) = split_from-cons sep (part ++ c ∷ []) s in
      (first, rest, split_from_past sep part c s e ∙ f)
]

join-cons :
    (sep : ℕ) (part : Text) (s : Text)
    → join sep (part ∷ split_from sep [] s) ≡ part ++ sep ∷ join sep (split_from sep [] s)
join-cons sep part s = let (first, rest, e) = split_from-cons sep [] s in rw e refl

join-split_from : (sep : ℕ) (part s : Text) → join sep (split_from sep part s) ≡ part ++ s
unfolding split_from
join-split_from sep part [] = sym (append-nil part)
join-split_from sep part (c ∷ s) = elim (Bool-cases (c == sep)) [
  | inl e ↦
      let same : c ≡ sep = ground arith in
      rw (split_from_at sep part c s e, join-cons sep part s, join-split_from sep [] s, same) refl
  | inr e ↦
      rw (split_from_past sep part c s e)
        (join-split_from sep (part ++ c ∷ []) s ∙ append_assoc part (c ∷ []) s)
]

split_from-Without :
    (sep : ℕ) (part s : Text) → Without sep part → All (Without sep) (split_from sep part s)
unfolding split_from
split_from-Without sep part [] h = (h, tt)
split_from-Without sep part (c ∷ s) h = elim (Bool-cases (c == sep)) [
  | inl e ↦ rw (split_from_at sep part c s e) (h, split_from-Without sep [] s tt)
  | inr e ↦
      let other : c ≢ sep = ground arith in
      rw (split_from_past sep part c s e) (
        split_from-Without sep (part ++ c ∷ []) s
          (All-append (λ d. d ≢ sep) part (c ∷ []) h (other, tt)))
]

from_env_read :
    (var : Text → Option Text) (min_width : ℕ)
    → parse_min_width (var (codes "DGVC_MIN_WIDTH")) ≡ some min_width
    → from_env var
      ≡ some (record {
        table_name = table_name_from (var (codes "DGVC_TABLE_NAME"));
        min_width = min_width;
        allowed_names = allowed_names_from (var (codes "DGVC_ALLOWED_NAMES"));
      })
unfolding from_env
from_env_read var min_width e = rw e refl

allowed_names_from-join : (text : Text) → join b',' (allowed_names_from (some text)) ≡ text
unfolding allowed_names_from
allowed_names_from-join text = join-split_from b',' [] text

allowed_names_from-Without : (text : Text) → All (Without b',') (allowed_names_from (some text))
unfolding allowed_names_from
allowed_names_from-Without text = split_from-Without b',' [] text tt

-- If `DGVC_MIN_WIDTH` is unset or a number and `DGVC_ALLOWED_NAMES` is set, the configuration is
-- read without a panic, and the allowed names are the parts of the text between commas: none has a
-- comma, and with commas between them they give the text.
pub from_env-allowed_names :
    (var : Text → Option Text) (text : Text) (min_width : ℕ)
    → var (codes "DGVC_ALLOWED_NAMES") ≡ some text
    → parse_min_width (var (codes "DGVC_MIN_WIDTH")) ≡ some min_width
    → (config : Config) × (from_env var ≡ some config)
      × (config.min_width ≡ min_width)
      × (join b',' config.allowed_names ≡ text)
      × All (Without b',') config.allowed_names
from_env-allowed_names var text min_width names width = (
  _,
  from_env_read var min_width width,
  refl,
  rw names (allowed_names_from-join text),
  rw names (allowed_names_from-Without text),
)
