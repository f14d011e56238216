-- ===== src/Translator.antt =====
-- translator.go: the dictionary of the identifiers, and the renaming in both directions.
mod First
mod Second
mod Third
mod Fourth
mod Fifth
pub mod RoundTrip
use dst_nucleus.Prelude.{
  List, [], ◌∷◌, ◌++◌, map, Bytes, String, codes, Bool, true, false, Option, none, some, equal,
  if◌then◌else◌, ◌||◌, ◌&&◌, not, has_prefix, drop,
}
use dst_nucleus.Translator.First.{first_entries}
use dst_nucleus.Translator.Second.{second_entries}
use dst_nucleus.Translator.Third.{third_entries}
use dst_nucleus.Translator.Fourth.{fourth_entries}
use dst_nucleus.Translator.Fifth.{fifth_entries}

-- A Chinese name and its English one.
abbrev pub Entry : Type 0
Entry = Bytes × Bytes

abbrev entry_of : String × String → Entry
entry_of (zh, en) = (codes zh, codes en)

unfoldable pub dict : List Entry
dict =
    map entry_of
      (first_entries ++ (second_entries ++ (third_entries ++ (fourth_entries ++ fifth_entries))))

-- The Go map that `m[k] = v` builds in a loop over entries: the latest store first.
unfoldable pub store_all : List Entry → List Entry → List Entry
store_all stored [] = stored
store_all stored (e ∷ es) = store_all (e ∷ stored) es

unfoldable pub look_up : Bytes → List Entry → Option Bytes
look_up word [] = none
look_up word ((key, value) ∷ stored) = if equal key word then some value else look_up word stored

abbrev pub swapped : Entry → Entry
swapped (zh, en) = (en, zh)

pub data Language : Type 0 where
  english chinese : Language

-- `translateMap`, for the order in which `range` visits the dictionary.
unfoldable pub translate_map : Language → List Entry → List Entry
unfolding store_all
translate_map english order = store_all [] order
translate_map chinese order = store_all [] (map swapped order)

-- What the inspection makes of an identifier.
unfoldable pub rename_with : List Entry → Bytes → Bytes
unfolding look_up
rename_with stored word = elim (look_up word stored) [ none ↦ word | some value ↦ value ]

unfoldable pub rename : Language → List Entry → Bytes → Bytes
unfolding translate_map rename_with
rename lang order word = rename_with (translate_map lang order) word
