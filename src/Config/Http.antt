-- ===== src/Config/Http.antt =====
-- How conf/configuration.go decodes a mapped action: UnmarshalJSON and UnmarshalYAML, which differ in
-- the decoder alone, with appendHttpFields and validateHttpFields. The decoder, json.Marshal of a
-- map, url.Parse and strings.ToUpper stand outside, and are the record Decoder.
pub mod Laws
use jec.Prelude.{
  String, Bool, true, false, not, ◌&&◌, List, [], ◌∷◌, Option, none, some, if◌then◌else◌, Result,
  ok, err, insert, cat, str_eq,
}
use jec.Config.Types.{Flags, MappedAction}

pub record HttpFields : Type 0 where
  pub url : String
  pub headers : Flags
  pub params : Flags
  pub method : String

pub record Decoder : Type 0 where
  pub action : String → Result MappedAction
  pub fields : String → Result HttpFields
  pub marshal : Flags → Result String
  -- the error of url.Parse
  pub parse_url : String → Option String
  pub to_upper : String → String

abbrev is_one_of : String → List String → Bool
is_one_of s [] = false
is_one_of s (t ∷ ts) = if str_eq t s then true else is_one_of s ts

abbrev pub is_method : String → Bool
is_method s =
    is_one_of s
      ("GET" ∷ "HEAD" ∷ "POST" ∷ "PUT" ∷ "PATCH" ∷ "DELETE" ∷ "CONNECT" ∷ "OPTIONS" ∷ "TRACE" ∷ [])

unfoldable pub validate_http_fields : Decoder → HttpFields → Option String
validate_http_fields d x =
    if not (str_eq x.method "") && not (is_method (d.to_upper x.method))
    then some (cat (cat "Http method is not valid: [" x.method) "].")
    else d.parse_url x.url

unfoldable pub set_flag : String → String → Flags → Flags
set_flag name value f = if str_eq value "" then f else insert name value f

unfoldable pub put : String → Flags → Result String → Result Flags
put name f (err e) = err e
put name f (ok s) = ok (insert name s f)

-- A map that is not empty becomes one flag, as a text.
unfoldable pub set_map : Decoder → String → Flags → Flags → Result Flags
unfolding put
set_map d name [] f = ok f
set_map d name (x ∷ xs) f = put name f (d.marshal (x ∷ xs))

unfoldable pub set_params : Decoder → HttpFields → Result Flags → Result Flags
unfolding set_map
set_params d x (err e) = err e
set_params d x (ok f) = set_map d "params" x.params f

unfoldable pub with_flags : MappedAction → Result Flags → Result MappedAction
with_flags a (err e) = err e
with_flags a (ok f) = ok (record a { flags = f })

unfoldable pub http_flags : Decoder → HttpFields → Result Flags
unfolding set_params set_map set_flag
http_flags d x =
    set_params d x
      (set_map d "headers" x.headers (set_flag "method" x.method (set_flag "url" x.url [])))

unfoldable pub append_http_fields : Decoder → MappedAction → HttpFields → Result MappedAction
unfolding with_flags http_flags
append_http_fields d a x = with_flags a (http_flags d x)

unfoldable pub unmarshal_http : Decoder → MappedAction → Result HttpFields → Result MappedAction
unfolding validate_http_fields append_http_fields
unmarshal_http d a (err e) = err e
unmarshal_http d a (ok x) = elim (validate_http_fields d x) [
  | some e ↦ err e
  | none ↦ append_http_fields d a x
]

unfoldable pub unmarshal_type : Decoder → String → Result MappedAction → Result MappedAction
unfolding unmarshal_http
unmarshal_type d b (err e) = err e
unmarshal_type d b (ok a) =
    if str_eq a.type "http"
    then unmarshal_http d a (d.fields b)
    else if str_eq a.type ""
    then ok (record a { type = "custom" })
    else ok a

unfoldable pub unmarshal : Decoder → String → Result MappedAction
unfolding unmarshal_type
unmarshal d b = unmarshal_type d b (d.action b)
