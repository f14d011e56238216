-- ===== src/Tests/Texts.antt =====
use dst_nucleus.Mods.Version.{parse_version_number, quoted_version, quoted_digits, skip_tabs}
use dst_nucleus.Mods.Overrides.Bounds.{overrides_loop_enough}
use dst_nucleus.Mods.Setup.Patch.{setup_loop_enough, parse_setup-swallows}
use dst_nucleus.Mods.Digits.{bytes_to_uint64, span_digits, bytes_to_uint64_from}
use dst_nucleus.Prelude.{Bytes, none, [], codes, ◌∷◌, ◌≡◌, ◌++◌, true, arith, ◌↔◌, refl}
use dst_nucleus.Config.Pristine.{is_factory_default, strip_newlines, is_factory_default_iff}
use dst_nucleus.Mods.Overrides.{overrides_loop, State, start}
use dst_nucleus.Mods.Setup.{mem, Scan, setup_loop, parse_setup, setup_step, add_id, patch_line}

-- The parsers of the mod files, and the check on the configuration file.
abbrev line_1 : Bytes
line_1 = codes "ServerModSetup(\"350811795\")\n"

abbrev enables : Bytes
enables = codes "return {[\"workshop-378160973\"]={enabled=true}}"

abbrev nothing : Scan
nothing = record { result = []; seen = []; setup_only = [] }

line_1-parsed : (parse_setup line_1 nothing).setup_only ≡ 350811795 ∷ []
unfolding parse_setup setup_loop setup_step add_id span_digits bytes_to_uint64 bytes_to_uint64_from
    mem
line_1-parsed = refl

parse_setup-swallows_example :
    parse_setup ((b'-' ∷ b'-' ∷ codes " mods") ++ patch_line 350811795) nothing ≡ nothing
parse_setup-swallows_example = parse_setup-swallows (codes " mods") 350811795 nothing (ground arith)

abbrev opening : State
opening = start [] []

setup_loop_enough_example : setup_loop 40 nothing line_1 ≡ setup_loop 100 nothing line_1
setup_loop_enough_example = setup_loop_enough 40 100 nothing line_1 (omega arith) (omega arith)

overrides_loop_enough_example :
    overrides_loop 50 opening none enables ≡ overrides_loop 100 opening none enables
overrides_loop_enough_example =
    overrides_loop_enough 50 100 opening none enables (record { ids = tt; curr = omega arith })
      (omega arith) (omega arith)

is_factory_default_iff_example :
    (is_factory_default (codes "a=1\r\nb=2\r\n") (codes "a=1\nb=2") ≡ true)
    ↔ (strip_newlines (codes "a=1\r\nb=2\r\n") ≡ strip_newlines (codes "a=1\nb=2"))
is_factory_default_iff_example = is_factory_default_iff (codes "a=1\r\nb=2\r\n") (codes "a=1\nb=2")

abbrev build : Bytes
build = codes "\t\t\"18212226\"\n"

build-parsed : parse_version_number build ≡ codes "18212226"
unfolding parse_version_number quoted_version quoted_digits skip_tabs span_digits
build-parsed = refl
