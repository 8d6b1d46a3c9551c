-- ===== src/Parser/Call.antt =====
-- The tool calls that pkg/parser returns, and what it uses of the packages regexp, html, json and fmt.
use vllm_chill.Prelude.{ℕ, ℤ, Bytes, Assoc, Bool, Option, List}

-- ToolCall, and its ToolCallFunction.
pub record ToolCall : Type 0 where
  pub id : Bytes
  pub kind : Bytes
  pub name : Bytes
  pub arguments : Bytes

-- s[first:last]
pub record Span : Type 0 where
  pub first : ℕ
  pub last : ℕ

-- The place of a match, and of its first group.
pub record Match : Type 0 where
  pub whole : Span
  pub group : Span

-- The three groups of a match of a tag in the arguments.
pub record Tag : Type 0 where
  pub name : Bytes
  pub kind : Bytes
  pub content : Bytes

-- An argument of a tool call. A float64 is kept as its bits.
pub data Value : Type 0 where
  int : ℤ → Value
  bool : Bool → Value
  float : ℕ → Value
  text : Bytes → Value

-- The packages' functions. The first argument of those of regexp is the expression, compiled by
-- MustCompile; every expression of the parser compiles.
pub record Packages : Type 0 where
  -- MatchString
  pub matches : Bytes → Bytes → Bool
  -- FindStringIndex
  pub find : Bytes → Bytes → Option Span
  -- FindStringSubmatch of an expression with one group: that group's text
  pub find_group : Bytes → Bytes → Option Bytes
  -- FindAllStringSubmatchIndex of an expression with one group
  pub find_all : Bytes → Bytes → List Match
  -- FindAllStringSubmatch of an expression with three groups: their texts
  pub find_tags : Bytes → Bytes → List Tag
  -- ReplaceAllString, with the replacement last
  pub replace_matches : Bytes → Bytes → Bytes → Bytes
  -- html.UnescapeString
  pub unescape : Bytes → Bytes
  -- json.Unmarshal into an interface returns no error
  pub is_json : Bytes → Bool
  -- json.Marshal of a map[string]string
  pub marshal_texts : Assoc Bytes → Option Bytes
  -- json.Marshal of a map[string]interface{}, `none` for an error
  pub marshal_values : Assoc Value → Option Bytes
  -- fmt.Sscanf with %d
  pub scan_int : Bytes → Option ℤ
  -- fmt.Sscanf with %f
  pub scan_float : Bytes → Option ℕ
