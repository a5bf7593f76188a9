-- ===== src/Config/Laws.antt =====
-- What a configuration that Read of conf/reader.go returns can be relied on for.
use jec.Prelude.{
  ◌≡◌, ◌≢◌, ◌⊎◌, inl, inr, refl, sym, ap, ◌∙◌, String, false, [], ◌∷◌, Option, none, some, Result,
  ok, err, lookup, str_eq, arith, Bool-cases, Option-cases,
}
use text.Mathlib.TextEquality.{eq_iff}
use jec.Config.Types.{MappedAction, ActionMappings, Configuration}
use jec.Config.Reader.{Os, read_file_from_source}
use jec.Config.Validate.{
  is_empty, check_action, check_actions, validate, validate_mappings, default_base_url, set_level,
  override_key, add_home_dir_prefix_to_action_mappings, read, complete, complete_source,
}

-- A source type that the message handler knows.
abbrev pub IsSourced : MappedAction → Type 0
IsSourced a = (a.source_type ≡ "local") ⊎ (a.source_type ≡ "git")

check-IsSourced : (name : String) (a : MappedAction) → check_action name a ≡ none → IsSourced a
unfolding check_action
check-IsSourced name a e = ground (arith, eq_iff a.source_type "local", eq_iff a.source_type "git")

check_given :
    (name : String) (a : MappedAction)
    → check_action name a ≡ none
    → (a.source_type ≢ "git") ⊎ (is_empty a.git_options ≡ false)
unfolding check_action
check_given name a e = ground (arith, eq_iff a.source_type "git")

pub lookup-IsChecked :
    (name : String) (m : ActionMappings) (a : MappedAction)
    → check_actions m ≡ none
    → lookup name m ≡ some a
    → IsSourced a × ((a.source_type ≢ "git") ⊎ (is_empty a.git_options ≡ false))
unfolding check_actions lookup
lookup-IsChecked name [] a e found = ground arith
lookup-IsChecked name ((n, b) ∷ m) a e found = elim (Option-cases (check_action n b)) [
  | inl fine ↦
      ground (arith, check-IsSourced n b fine, check_given n b fine, lookup-IsChecked name m a)
  | inr (x, bad) ↦ ground arith
]

lookup-prefix :
    (os : Os) (name : String) (m : ActionMappings) (a : MappedAction)
    → lookup name (add_home_dir_prefix_to_action_mappings os m) ≡ some a
    → (b : MappedAction) × (lookup name m ≡ some b) × (a.source_type ≡ b.source_type)
unfolding lookup add_home_dir_prefix_to_action_mappings
lookup-prefix os name [] a found = ground arith
lookup-prefix os name ((n, b) ∷ m) a found = elim (Bool-cases (str_eq n name)) [
  | inl this ↦ (b, ground arith, ground arith)
  | inr other ↦ let (x, e, s) = lookup-prefix os name m a (ground arith) in (x, ground arith, s)
]

abbrev SameActions : Configuration → Configuration → Type 0
SameActions c d =
    (c.action_specifications.action_mappings ≡ d.action_specifications.action_mappings)
    × (c.api_key ≡ d.api_key)
    × (c.base_url ≡ d.base_url)

set_level_lem : (os : Os) (c : Configuration) → SameActions (set_level os c) c
unfolding set_level
set_level_lem os c = elim (Option-cases (os.parse_level c.log_level)) [
  | inl unknown ↦ rw (unknown, set_level) (refl, refl, refl)
  | inr (level, known) ↦ rw (known, set_level) (refl, refl, refl)
]

validate_mappings_lem :
    (os : Os) (c : Configuration)
    → (validate_mappings os c).1 ≡ none
    → (check_actions c.action_specifications.action_mappings ≡ none)
      × SameActions (validate_mappings os c).0 c
unfolding validate_mappings
validate_mappings_lem os c e = ground (arith, set_level_lem os c)

default_base_url_lem :
    (c : Configuration)
    → (str_eq (default_base_url c).base_url "" ≡ false) × ((default_base_url c).api_key ≡ c.api_key)
unfolding default_base_url
default_base_url_lem c = elim (Bool-cases (str_eq c.base_url "")) [
  | inl empty ↦ rw (empty, default_base_url) (refl, refl)
  | inr given ↦ rw (given, default_base_url) (given, refl)
]

validate_given :
    (os : Os) (c : Configuration)
    → str_eq c.api_key "" ≡ false
    → validate os c ≡ validate_mappings os (default_base_url c)
unfolding validate
validate_given os c given = rw (given, validate)

-- What validate has seen to when it returns no error.
validate_lem :
    (os : Os) (c : Configuration)
    → (validate os c).1 ≡ none
    → (check_actions (validate os c).0.action_specifications.action_mappings ≡ none)
      × (str_eq (validate os c).0.api_key "" ≡ false)
      × (str_eq (validate os c).0.base_url "" ≡ false)
unfolding validate
validate_lem os c e = elim (Bool-cases (str_eq c.api_key "")) [
  | inl empty ↦ ground arith
  | inr given ↦
      let d = default_base_url c in
      let same = validate_given os c given in
      let (valid, (kept, key, base)) =
        validate_mappings_lem os d
          (sym (ap (λ (p : Configuration × Option String). p.1) same) ∙ e) in
      rw same (
        ap check_actions kept ∙ valid,
        ap (λ k. str_eq k "") (key ∙ (default_base_url_lem c).1) ∙ given,
        ap (λ k. str_eq k "") base ∙ (default_base_url_lem c).0,
      )
]

complete_lem :
    (os : Os) (p : Configuration × Option String) {c : Configuration}
    → complete os p ≡ ok c
    → (p.1 ≡ none)
      × (c.action_specifications.action_mappings
          ≡ add_home_dir_prefix_to_action_mappings os p.0.action_specifications.action_mappings)
      × (c.api_key ≡ p.0.api_key)
      × (c.base_url ≡ p.0.base_url)
unfolding complete
complete_lem os (c, none) e = ground arith
complete_lem os (c, some x) e = ground arith

sourced :
    (os : Os) (r : Result Configuration) (name : String) (c : Configuration) (a : MappedAction)
    → complete_source os r ≡ ok c
    → lookup name c.action_specifications.action_mappings ≡ some a
    → (c.api_key ≢ "") × (c.base_url ≢ "") × IsSourced a
unfolding complete_source
sourced os (err x) name c a e found = ground arith
sourced os (ok d) name c a e found =
    let (fine, kept, key, base) = complete_lem os (validate os (override_key os d)) e in
    let (valid, keyed, based) = validate_lem os (override_key os d) fine in
    let m = (validate os (override_key os d)).0.action_specifications.action_mappings in
    let (b, there, source) = lookup-prefix os name m a (sym (ap (lookup name) kept) ∙ found) in
    let known = (lookup-IsChecked name m b valid there).0 in
    (
      ground (arith, eq_iff c.api_key "", key, keyed),
      ground (arith, eq_iff c.base_url "", base, based),
      ground (arith, source, known),
    )

-- A configuration that Read returns has a key and a base url, and every action that it maps has one
-- of the two source types that the message handler knows.
pub read-IsSourced :
    (os : Os) (name : String) (c : Configuration) (a : MappedAction)
    → read os ≡ ok c
    → lookup name c.action_specifications.action_mappings ≡ some a
    → (c.api_key ≢ "") × (c.base_url ≢ "") × IsSourced a
unfolding read
read-IsSourced os name c a e found =
    sourced os (read_file_from_source os (os.to_lower (os.getenv "JEC_CONF_SOURCE_TYPE"))) name c a
      e found
