-- ===== src/Format/Text.antt =====
-- The text codec of a format reads back what it writes.
use text.Mathlib.TextEquality.{eq_iff}
use ipfs_content.Prelude.{
  String, ◌≡◌, ◌⊎◌, inl, inr, refl, sym, ◌∙◌, List, [], ◌∷◌, string_eq, none, some, arith,
  Bool-cases, ◌==◌, if◌then◌else◌,
}
use ipfs_content.Format.{
  Format, unknown, car, zip, file, rar, tar, tar_gz, tar_bz2, seven_z, other, to_string,
  parse_format, marshal_text, unmarshal_text, unknown_format, fail_unknown,
}

-- A format that has a name of its own: one of the constants but `FormatUnknown`.
abbrev pub IsNamed : Format → Type 0
IsNamed unknown = ⊥
IsNamed (other n) = ⊥
IsNamed _ = Unit

-- Writing a named format and reading the text back gives the format and no error.
pub unmarshal_text-marshal_text :
    (f : Format) → IsNamed f → unmarshal_text (marshal_text f) ≡ (f, none)
unfolding unmarshal_text marshal_text
unmarshal_text-marshal_text unknown h = absurd h
unmarshal_text-marshal_text (other n) h = absurd h
unmarshal_text-marshal_text _ h = refl

-- A list of texts with the format that each names.
abbrev names : List (String × Format)
names =
    ("car", car)
    ∷ ("file", file)
    ∷ ("zip", zip)
    ∷ ("rar", rar)
    ∷ ("tar", tar)
    ∷ ("tar.gz", tar_gz)
    ∷ ("tar.bz2", tar_bz2)
    ∷ ("7z", seven_z)
    ∷ []

abbrev search_names : List (String × Format) → String → Format
search_names [] text = unknown
search_names ((name, f) ∷ rest) text = if text == name then f else search_names rest text

abbrev AreNamed : List (String × Format) → Type 0
AreNamed [] = Unit
AreNamed ((name, f) ∷ rest) = IsNamed f × (to_string f ≡ name) × AreNamed rest

search_names_cases :
    (l : List (String × Format)) (text : String)
    → AreNamed l
    → (search_names l text ≡ unknown)
      ⊎ (IsNamed (search_names l text) × (to_string (search_names l text) ≡ text))
search_names_cases [] text h = inl refl
search_names_cases ((name, f) ∷ rest) text h = elim (Bool-cases (text == name)) [
  | inl hit ↦ inr (rw hit h.0, rw hit (h.1 ∙ sym ((eq_iff text name).0 hit)))
  | inr miss ↦ rw miss (search_names_cases rest text h.2)
]

parse_format-eq-search_names : (text : String) → parse_format text ≡ search_names names text
unfolding parse_format
parse_format-eq-search_names text = refl

names-AreNamed : AreNamed names
unfolding to_string
names-AreNamed = ground arith

fail_unknown-IsNamed : (f : Format) (text : String) → IsNamed f → fail_unknown f text ≡ none
unfolding fail_unknown
fail_unknown-IsNamed unknown text h = absurd h
fail_unknown-IsNamed _ text h = refl

parse_format_cases :
    (text : String)
    → (parse_format text ≡ unknown)
      ⊎ (IsNamed (parse_format text) × (to_string (parse_format text) ≡ text))
parse_format_cases text =
    rw parse_format-eq-search_names (search_names_cases names text names-AreNamed)

-- Reading any text either fails with `unknown format` and leaves `FormatUnknown`, or gives the
-- named format whose text is exactly the input.
pub marshal_text-unmarshal_text :
    (text : String)
    → (unmarshal_text text ≡ (unknown, some (unknown_format text)))
      ⊎ (IsNamed (unmarshal_text text).0
          × (marshal_text (unmarshal_text text).0 ≡ text)
          × ((unmarshal_text text).1 ≡ none))
unfolding unmarshal_text marshal_text
marshal_text-unmarshal_text text = elim (parse_format_cases text) [
  | inl missing ↦ inl (rw missing)
  | inr found ↦ inr (found.0, found.1, fail_unknown-IsNamed _ text found.0)
]
