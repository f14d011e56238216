-- ===== src/Config/Loader.antt =====
-- config.go: `加载配置` and `递归填充`; sys_params.go: the tags of `系统配置`. The lines are what the scanner
-- makes of the file, and `strings.TrimSpace` strips their ASCII blanks. A structure is its fields in order, with the structures among them as groups.
pub mod Quotes
pub mod Layout
pub mod Typed
pub mod Filled
use dst_nucleus.Prelude.{
  List, [], ◌∷◌, ◌++◌, ℕ, Bool, true, false, Option, none, some, Bytes, codes, if◌then◌else◌, ◌==◌,
  ◌||◌, ltb, equal, length, has_prefix, not,
}
use dst_nucleus.Prelude.Decimal.{ℤ, pos, parse_uint, parse_int}
use dst_nucleus.Updates.Search.{trim_space, is_blank}
use dst_nucleus.Mods.Digits.{u64_mod}

abbrev pub size_limit : ℕ
size_limit = 65536

-- `strings.SplitN(行, ":", 2)`, where there are two parts.
unfoldable pub cut_colon : Bytes → Option (Bytes × Bytes)
cut_colon [] = none
cut_colon (c ∷ cs) =
    if c == b':'
    then some ([], cs)
    else elim (cut_colon cs) [ none ↦ none | some (key, rest) ↦ some (c ∷ key, rest) ]

abbrev pub is_quote : ℕ → Bool
is_quote c = c == b'"' || c == b'\'' || c == b'`'

unfoldable pub quotes_left : Bytes → Bytes
quotes_left [] = []
quotes_left (c ∷ cs) = if is_quote c then quotes_left cs else c ∷ cs

unfoldable pub quotes_right : Bytes → Bytes
quotes_right [] = []
quotes_right (c ∷ cs) = elim (quotes_right cs) [
  | [] ↦ if is_quote c then [] else c ∷ []
  | d ∷ ds ↦ c ∷ d ∷ ds
]

-- ``strings.Trim(值, "\"'`")``.
unfoldable pub trim_quotes : Bytes → Bytes
unfolding quotes_left quotes_right
trim_quotes s = quotes_right (quotes_left s)

-- The key and the value of a line that sets one.
unfoldable pub setting_parts : Bytes → Bytes → Option (Bytes × Bytes)
unfolding trim_space trim_quotes
setting_parts key text = elim (trim_quotes (trim_space text)) [
  | [] ↦ none
  | c ∷ cs ↦ some (trim_space key, c ∷ cs)
]

unfoldable pub config_line : Bytes → Option (Bytes × Bytes)
unfolding cut_colon setting_parts
config_line line =
    if length line == 0 || has_prefix line (codes "#")
    then none
    else elim (cut_colon line) [ none ↦ none | some (key, text) ↦ setting_parts key text ]

-- `配置图`, as its stores, the latest first.
abbrev pub ConfigMap : Type 0
ConfigMap = List (Bytes × Bytes)

unfoldable pub value_of : Bytes → ConfigMap → Option Bytes
value_of tag [] = none
value_of tag ((key, value) ∷ map') = if equal key tag then some value else value_of tag map'

unfoldable pub read_config : List Bytes → ConfigMap → ConfigMap
unfolding config_line trim_space
read_config [] map' = map'
read_config (line ∷ lines) map' = elim (config_line (trim_space line)) [
  | none ↦ read_config lines map'
  | some setting ↦ read_config lines (setting ∷ map')
]

-- What a field holds, by its type.
pub data FieldValue : Type 0 where
  flag : Bool → FieldValue
  word32 word64 : ℕ → FieldValue
  int64 : ℤ → FieldValue
  text : Bytes → FieldValue

-- The fields of a structure from one on; an untagged one is passed over.
pub data Fields : Type 0 where
  end : Fields
  untagged : Fields → Fields
  leaf : Bytes → FieldValue → Fields → Fields
  group : Fields → Fields → Fields

-- `值[0]|32 == 't'`.
unfoldable pub says_true : Bytes → Bool
says_true [] = false
says_true (c ∷ cs) = c == b't' || c == b'T'

-- A number that cannot be read leaves the field as it was.
unfoldable pub store_value : Bytes → FieldValue → FieldValue
unfolding says_true
store_value value (flag b) = flag (says_true value)
store_value value (word32 n) = elim (parse_uint 4294967296 value) [
  | none ↦ word32 n
  | some m ↦ word32 m
]
store_value value (word64 n) = elim (parse_uint u64_mod value) [
  | none ↦ word64 n
  | some m ↦ word64 m
]
store_value value (int64 z) = elim (parse_int 9223372036854775808 value) [
  | none ↦ int64 z
  | some m ↦ int64 m
]
store_value value (text s) = text value

unfoldable pub fill : ConfigMap → Fields → Fields
unfolding value_of store_value
fill map' end = end
fill map' (untagged fs) = untagged (fill map' fs)
fill map' (leaf tag v fs) =
    leaf tag (elim (value_of tag map') [ none ↦ v | some value ↦ store_value value v ])
      (fill map' fs)
fill map' (group gs fs) = group (fill map' gs) (fill map' fs)

-- The code and the structure; `size` is `none` where `Stat` fails.
unfoldable pub load_config : Option ℕ → Bool → List Bytes → Fields → ℕ × Fields
unfolding read_config fill
load_config none opened lines fs = (128, fs)
load_config (some size) opened lines fs =
    if ltb size_limit size
    then (129, fs)
    else if not opened
    then (130, fs)
    else (0, fill (read_config lines []) fs)
