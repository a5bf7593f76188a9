-- ===== src/Config/Http/Laws.antt =====
-- Which flags a decoded http action of conf/configuration.go has.
use jec.Prelude.{
  ◌≡◌, ◌≢◌, ◌⊎◌, ◌∙◌, sym, refl, inl, inr, String, true, false, [], ◌∷◌, Option, none, some, Result,
  ok, err, if◌then◌else◌, lookup, lookup-insert, str_eq, arith, Bool-cases, Option-cases,
}
use text.Mathlib.TextEquality.{eq_iff}
use jec.Config.Types.{Flags, MappedAction}
use jec.Config.Http.{
  HttpFields, Decoder, is_method, validate_http_fields, set_flag, put, set_map, set_params,
  with_flags, http_flags, append_http_fields, unmarshal_http, unmarshal_type, unmarshal,
}

-- A text, if it is not empty.
abbrev pub given : String → Option String
given s = if str_eq s "" then none else some s

lookup-set_flag :
    (u name value : String) (f : Flags)
    → lookup u (set_flag name value f)
      ≡ (if str_eq value "" then lookup u f else if str_eq name u then some value else lookup u f)
unfolding set_flag
lookup-set_flag u name value f = ground (arith, lookup-insert name u value f)

lookup-empty : (u : String) → lookup {A = String} u [] ≡ none
unfolding lookup
lookup-empty u = refl

lookup-put :
    (u name : String) (f g : Flags) (r : Result String)
    → put name f r ≡ ok g
    → str_eq name u ≡ false
    → lookup u g ≡ lookup u f
unfolding put
lookup-put u name f g (err x) e other = ground arith
lookup-put u name f g (ok s) e other = ground (arith, lookup-insert name u s f)

lookup-set_map :
    (d : Decoder) (u name : String) (x f g : Flags)
    → set_map d name x f ≡ ok g
    → str_eq name u ≡ false
    → lookup u g ≡ lookup u f
unfolding set_map
lookup-set_map d u name [] f g e other = ground arith
lookup-set_map d u name (x ∷ xs) f g e other = lookup-put u name f g (d.marshal (x ∷ xs)) e other

lookup-set_params :
    (d : Decoder) (u : String) (x : HttpFields) (r : Result Flags) (g : Flags)
    → set_params d x r ≡ ok g
    → str_eq "params" u ≡ false
    → (f : Flags) × (r ≡ ok f) × (lookup u g ≡ lookup u f)
unfolding set_params
lookup-set_params d u x (err y) g e other = ground arith
lookup-set_params d u x (ok f) g e other =
    (f, refl, lookup-set_map d u "params" x.params f g e other)

lookup-http_flags :
    (d : Decoder) (u : String) (x : HttpFields) (g : Flags)
    → http_flags d x ≡ ok g
    → str_eq "params" u ≡ false
    → str_eq "headers" u ≡ false
    → lookup u g ≡ lookup u (set_flag "method" x.method (set_flag "url" x.url []))
unfolding http_flags
lookup-http_flags d u x g e params headers =
    let f0 = set_flag "method" x.method (set_flag "url" x.url []) in
    let (f, made, same) = lookup-set_params d u x (set_map d "headers" x.headers f0) g e params in
    same ∙ lookup-set_map d u "headers" x.headers f0 f made headers

with_flags_lem : (a b : MappedAction) (r : Result Flags) → with_flags a r ≡ ok b → r ≡ ok b.flags
unfolding with_flags
with_flags_lem a b (err x) e = ground arith
with_flags_lem a b (ok f) e = ground arith

unmarshal_http_lem :
    (d : Decoder) (a b : MappedAction) (x : HttpFields)
    → unmarshal_http d a (ok x) ≡ ok b
    → (http_flags d x ≡ ok b.flags) × (validate_http_fields d x ≡ none)
unfolding unmarshal_http append_http_fields
unmarshal_http_lem d a b x e = elim (Option-cases (validate_http_fields d x)) [
  | inl fine ↦ (with_flags_lem a b (http_flags d x) (ground arith), fine)
  | inr (y, bad) ↦ ground arith
]

method_lem :
    (d : Decoder) (x : HttpFields)
    → validate_http_fields d x ≡ none
    → (x.method ≡ "") ⊎ (is_method (d.to_upper x.method) ≡ true)
unfolding validate_http_fields
method_lem d x e = elim (Bool-cases (is_method (d.to_upper x.method))) [
  | inl known ↦ inr known
  | inr unknown ↦ inl (ground (arith, eq_iff x.method ""))
]

unmarshal_lem :
    (d : Decoder) (b : String) (raw a : MappedAction) (x : HttpFields)
    → d.action b ≡ ok raw
    → raw.type ≡ "http"
    → d.fields b ≡ ok x
    → unmarshal d b ≡ unmarshal_http d raw (ok x)
unfolding unmarshal unmarshal_type
unmarshal_lem d b raw a x decoded http fields = ground (arith, eq_iff raw.type "http")

-- A mapped action of type http that is decoded has no flag of its own left: its flags besides headers
-- and params are the url and the method of its http fields, where these are not empty, and the
-- method, if there is one, is among the nine that are known.
pub unmarshal_flags :
    (d : Decoder) (b : String) (raw a : MappedAction) (x : HttpFields) (u : String)
    → d.action b ≡ ok raw
    → raw.type ≡ "http"
    → d.fields b ≡ ok x
    → unmarshal d b ≡ ok a
    → u ≢ "params"
    → u ≢ "headers"
    → (lookup u a.flags ≡ (
        if str_eq "url" u then given x.url else if str_eq "method" u then given x.method else none))
      × ((x.method ≡ "") ⊎ (is_method (d.to_upper x.method) ≡ true))
unmarshal_flags d b raw a x u decoded http fields done params headers =
    let (made, fine) =
      unmarshal_http_lem d raw a x (sym (unmarshal_lem d b raw a x decoded http fields) ∙ done) in
    (
      lookup-http_flags d u x a.flags made (ground (arith, eq_iff "params" u))
            (ground (arith, eq_iff "headers" u))
          ∙ (lookup-set_flag u "method" x.method (set_flag "url" x.url [])
              ∙ ground (
                arith,
                lookup-set_flag u "url" x.url [],
                lookup-empty u,
                eq_iff "url" u,
                eq_iff "method" u,
                eq_iff "url" "method",
              )),
      method_lem d x fine,
    )
