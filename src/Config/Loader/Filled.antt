-- ===== src/Config/Loader/Filled.antt =====
-- The structure that a configuration file fills.
use dst_nucleus.Prelude.{List, [], ◌∷◌, ◌++◌, Option, none, some, Bytes, if◌then◌else◌, equal}
use dst_nucleus.Config.Loader.Typed.{reads_as}
use dst_nucleus.Config.Loader.{FieldValue, Fields, end, untagged, leaf, group}
use dst_nucleus.Config.Loader.Layout.{Blanks, Setting, IsSetting, setting_line}

pub data Line : Type 0 where
  sets : Setting → Line
  comment : Bytes → Bytes → Line  -- the blanks in front, and what is behind the mark
  blank : Bytes → Line

abbrev pub IsLine : Line → Type 0
IsLine (sets s) = IsSetting s
IsLine (comment left note) = Blanks left
IsLine (blank bs) = Blanks bs

abbrev pub line_text : Line → Bytes
line_text (sets s) = setting_line s
line_text (comment left note) = left ++ b'#' ∷ note
line_text (blank bs) = bs

-- The value that the last setting of a key gives it.
abbrev pub last_value : Bytes → List Line → Option Bytes
last_value key [] = none
last_value key (sets s ∷ ls) = elim (last_value key ls) [
  | some v ↦ some v
  | none ↦ if equal s.key key then some s.value else none
]
last_value key (comment left note ∷ ls) = last_value key ls
last_value key (blank bs ∷ ls) = last_value key ls

abbrev pub or_else : Option Bytes → Option Bytes → Option Bytes
or_else (some v) before = some v
or_else none before = before

-- The tagged fields, those of a structure inside in its place.
abbrev pub leaves : Fields → List (Bytes × FieldValue)
leaves end = []
leaves (untagged fs) = leaves fs
leaves (leaf tag v fs) = (tag, v) ∷ leaves fs
leaves (group gs fs) = leaves gs ++ leaves fs

-- A field after the file's lines.
abbrev pub set_by : List Line → Bytes × FieldValue → Bytes × FieldValue
set_by ls (tag, v) = (tag, elim (last_value tag ls) [ none ↦ v | some value ↦ reads_as value v ])
