-- ===== src/Parser/Arguments/Valid.antt =====
-- The arguments that parseArguments gives are JSON.
use vllm_chill.Prelude.{
  Bytes, codes, same, Assoc, insert, Bool, true, false, ◌||◌, none, some, List, [], ◌∷◌, foldl, any,
  arith, ◌≡◌, refl, inl, inr, ◌⊎◌, Option-cases,
}
use vllm_chill.Parser.Text.{trim_space}
use vllm_chill.Parser.Call.{Packages, Tag, Value, float}
use vllm_chill.Parser.Arguments.{
  typed_value, put_tag, marshalled, nested_tag, parse_nested_xml_arguments, parse_other_arguments,
  parse_trimmed_arguments, parse_arguments,
}

abbrev is_float : Value → Bool
is_float (float bits) = true
is_float _ = false

abbrev pub has_float : Assoc Value → Bool
has_float [] = false
has_float ((k, v) ∷ m) = is_float v || has_float m

abbrev pub has_float_tag : List Tag → Bool
has_float_tag = any (λ tag. same tag.kind (codes "float"))

-- What package json documents of Marshal and Unmarshal: what the one returns the other accepts, and
-- the values that the parser makes have a JSON form, floats that are not finite excepted.
abbrev pub IsJsonPackage : Packages → Type 0
IsJsonPackage packages =
    (packages.is_json (codes "{}") ≡ true)
    × ((m : Assoc Value) (s : Bytes)
        → packages.marshal_values m ≡ some s
        → packages.is_json s ≡ true)
    × ((m : Assoc Value) → packages.marshal_values m ≡ none → has_float m ≡ true)

has_float-insert :
    (k : Bytes) (v : Value) (m : Assoc Value)
    → has_float (insert k v m) ≡ true
    → (is_float v ≡ true) ⊎ (has_float m ≡ true)
unfolding insert
has_float-insert k v [] h = ground (arith, h)
has_float-insert k v ((j, w) ∷ m) h = ground (arith, h, has_float-insert k v m)

is_float-typed_value :
    (packages : Packages) (kind value : Bytes)
    → is_float (typed_value packages kind value) ≡ true
    → same kind (codes "float") ≡ true
unfolding typed_value
is_float-typed_value packages kind value h =
    ground (arith, h, Option-cases (packages.scan_int value))

put_tag-has_float :
    (packages : Packages) (result : Assoc Value) (tag : Tag)
    → has_float (put_tag packages result tag) ≡ true
    → (has_float result ≡ true) ⊎ (same tag.kind (codes "float") ≡ true)
unfolding put_tag
put_tag-has_float packages result tag h =
    let value = trim_space tag.content in
    ground (
      arith,
      h,
      is_float-typed_value packages tag.kind value,
      has_float-insert tag.name (typed_value packages tag.kind value) result,
    )

foldl-has_float :
    (packages : Packages) (tags : List Tag) (result : Assoc Value)
    → has_float (foldl (put_tag packages) result tags) ≡ true
    → (has_float result ≡ true) ⊎ (has_float_tag tags ≡ true)
foldl-has_float packages [] result h = inl h
foldl-has_float packages (tag ∷ tags) result h = ground (
  arith,
  foldl-has_float packages tags (put_tag packages result tag) h,
  put_tag-has_float packages result tag,
)

-- What the arguments come to: JSON, or nothing at all, which takes a tag of type float.
abbrev pub IsArguments : Packages → Bytes → Bytes → Type 0
IsArguments packages content result =
    (packages.is_json result ≡ true)
    ⊎ ((result ≡ []) × (has_float_tag (packages.find_tags nested_tag content) ≡ true))

module _ (packages : Packages) (json : IsJsonPackage packages) where
  marshalled-json :
      (m : Assoc Value)
      → (packages.is_json (marshalled packages m) ≡ true)
        ⊎ ((marshalled packages m ≡ []) × (has_float m ≡ true))
  unfolding marshalled
  marshalled-json [] = inl json.0
  marshalled-json (a ∷ m) = elim (Option-cases (packages.marshal_values (a ∷ m))) [
    | inl e ↦ inr (rw e refl, json.2 (a ∷ m) e)
    | inr (s, e) ↦ inl (rw e (json.1 (a ∷ m) s e))
  ]

  parse_nested_xml_arguments-IsArguments :
      (content : Bytes) → IsArguments packages content (parse_nested_xml_arguments packages content)
  unfolding parse_nested_xml_arguments
  parse_nested_xml_arguments-IsArguments content =
      let tags = packages.find_tags nested_tag content in
      elim (marshalled-json (foldl (put_tag packages) [] tags)) [
        | inl h ↦ inl h
        | inr (h, f) ↦ inr (h, ground (arith, foldl-has_float packages tags [] f))
      ]

  parse_trimmed_arguments-IsArguments :
      (content : Bytes) → IsArguments packages content (parse_trimmed_arguments packages content)
  unfolding parse_trimmed_arguments parse_other_arguments
  parse_trimmed_arguments-IsArguments [] = inl json.0
  parse_trimmed_arguments-IsArguments (c ∷ s) =
      let plain = json.0 in ground (arith, plain, parse_nested_xml_arguments-IsArguments (c ∷ s))

-- The arguments of a call are always JSON, except where a nested tag has the type float: then they may
-- be the empty string, since json.Marshal's error is ignored. Marshal and Unmarshal are taken to
-- behave as documented.
pub parse_arguments-IsArguments :
    (packages : Packages) (content : Bytes)
    → IsJsonPackage packages
    → IsArguments packages (trim_space content) (parse_arguments packages content)
unfolding parse_arguments
parse_arguments-IsArguments packages content json =
    parse_trimmed_arguments-IsArguments packages json (trim_space content)
