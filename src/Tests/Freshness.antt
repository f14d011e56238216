-- ===== src/Tests/Freshness.antt =====
-- The updates of the game and the mods.
use dst_nucleus.Updates.Search.{trim_space}
use dst_nucleus.Prelude.{
  joined, All, List, Bytes, [], ◌∷◌, some, true, false, not, ◌≡◌, ◌&&◌, ◌||◌, refl, codes, arith,
  ◌++◌, ℕ,
}
use dst_nucleus.Prelude.Decimal.{pos, append_uint}
use dst_nucleus.Mods.Digits.{span_digits}
use dst_nucleus.Mods.Setup.{mem}
use dst_nucleus.Updates.Epochs.{Table, fetch_local_mod_epochs, quoted_id, fetch_remote_mod_epochs}
use dst_nucleus.Updates.Epochs.Blocks.{Block, IsBlock, IsHead, lines_of}
use dst_nucleus.Updates.Version.{
  Reply, fire_request, fire_racing_request, success, fetch_remote_ver_http,
}
use dst_nucleus.Updates.Mods.{target_mods, is_outdated, probe_mod_update, exec_mod_update}
use dst_nucleus.Updates.Search.{index_of}
use dst_nucleus.Updates.Epochs.Remote.{Entry, IsEntry, IsTail, answer_text}
use dst_nucleus.Files.Snapshot.{same_stat}
use dst_nucleus.Updates.LocalVersion.{Attempt, read_local_ver}
use dst_nucleus.Updates.LocalVersion.Manifest.{IsManifest, Settles, read_local_ver-IsManifest}
use dst_nucleus.Updates.Freshness.{probe_mod_update-any_newer}
use dst_nucleus.Updates.Download.{exec_mod_update-probe_mod_update}

abbrev item : Block
item = record {
  id = 378160973;
  epoch = 1700000000;
  id_line = codes "\t\t\"378160973\"";
  between = codes "\t\t{" ∷ codes "\t\t\t\"size\"\t\t\"65\"" ∷ [];
  tabs = codes "\t\t";
  time_row = codes "\t\t\t\"timeupdated\"\t\t\"1700000000\"";
  behind = codes "\t\t}" ∷ [];
}

item-IsBlock : IsBlock item
unfolding trim_space append_uint quoted_id
item-IsBlock = record {
  positive = omega arith;
  id_word = omega arith;
  epoch_word = omega arith;
  id_trimmed = refl;
  time_trimmed = refl;
  between_other =
      (record { no_id = refl; no_time = refl }, (record { no_id = refl; no_time = refl }, tt));
  behind_other = (record { no_id = refl; no_time = refl }, tt);
}

-- How SteamCMD's file begins.
abbrev acf_head : List Bytes
acf_head =
    codes "\"AppWorkshop\""
    ∷ codes "{"
    ∷ codes "\t\"appid\"\t\t\"322330\""
    ∷ codes "\t\"TimeLastUpdated\"\t\t\"1700000000\""
    ∷ codes "\t\"WorkshopItemsInstalled\""
    ∷ codes "\t{"
    ∷ []

acf_head-IsHead : All IsHead acf_head
unfolding trim_space quoted_id
acf_head-IsHead = (refl, (refl, (refl, (refl, (refl, (refl, tt))))))

abbrev local_table : Table
local_table = (7, pos 100) ∷ (8, pos 100) ∷ []

abbrev remote_table : Table
remote_table = (7, pos 150) ∷ (8, pos 100) ∷ []

exec_mod_update-probe_mod_update_example :
    let r =
      exec_mod_update false (8 ∷ 0 ∷ 7 ∷ []) (local_table, true) (some remote_table) true true in
    (mem 7 r.0 ≡ (
      mem 7 (target_mods (8 ∷ 0 ∷ 7 ∷ [])) && (not true || is_outdated local_table remote_table 7)))
    × (r.1 ≡ success)
unfolding probe_mod_update
exec_mod_update-probe_mod_update_example =
    exec_mod_update-probe_mod_update (8 ∷ 0 ∷ 7 ∷ []) local_table true remote_table 7 refl

exec_mod_update_one :
    (exec_mod_update false (8 ∷ 0 ∷ 7 ∷ []) (local_table, true) (some remote_table) true true).0
    ≡ 7 ∷ []
unfolding exec_mod_update
exec_mod_update_one = refl

abbrev answered : Reply
answered = record {
  built = true;
  answered = true;
  status = 200;
  body = some (codes "{\"branches\":{\"public\":{\"buildid\":\"674902\"}}}");
}

abbrev refused : Reply
refused = record { built = true; answered = true; status = 502; body = some [] }

fire_racing_request_second : fire_racing_request true true true refused answered ≡ answered.body
unfolding fire_racing_request
fire_racing_request_second = refl

fetch_remote_ver_http_found : fetch_remote_ver_http (fire_request answered) ≡ (codes "674902", 0)
unfolding fetch_remote_ver_http fire_request span_digits
fetch_remote_ver_http_found = refl

abbrev stale : Entry
stale = record {
  gap = codes "{\"result\":1,";
  id = 378160973;
  between = codes ",\"preview_url\":\"x\",";
  spaces = codes " ";
  epoch = 1700000001;
}

stale-IsEntry : IsEntry stale
stale-IsEntry = record {
  gap_first = ground arith;
  gap_plain = refl;
  id_word = omega arith;
  between_first = ground arith;
  spaces_blank = (refl, tt);
  epoch_word = omega arith;
}

brace-IsTail : IsTail (codes "}]}")
unfolding index_of
brace-IsTail = record { plain = refl; free = refl }

probe_mod_update-any_newer_example :
    probe_mod_update false
      (0 ∷ 378160973 ∷ [])
      (fetch_local_mod_epochs
        (target_mods (0 ∷ 378160973 ∷ []))
        (some (acf_head ++ lines_of (item ∷ [])))).0
      (fetch_remote_mod_epochs
        (target_mods (0 ∷ 378160973 ∷ []))
        (some (answer_text (stale ∷ []) (codes "}]}"))))
    ≡ success
probe_mod_update-any_newer_example =
    probe_mod_update-any_newer (0 ∷ 378160973 ∷ []) acf_head (item ∷ []) (stale ∷ []) (codes "}]}")
      acf_head-IsHead (item-IsBlock, tt) (stale-IsEntry, tt) brace-IsTail

-- The manifest, written anew while the first round reads it, in pieces that cut the key.
abbrev manifest_reads : ℕ → Attempt
manifest_reads i = record {
  before = some (record { mod_time = i; size = 60 });
  opened = true;
  pieces = codes "\"AppState\" { \"StateFlags\" \"4\" \"Targe" ∷ codes "tBuildID\"\t\t\"67" ∷ [];
  last = codes "4902\" }";
  after = some (record { mod_time = 1; size = 60 });
}

reads-IsManifest :
    IsManifest (joined (manifest_reads 1).pieces ++ (manifest_reads 1).last) b'6' (codes "74902")
reads-IsManifest = record {
  pre = codes "\"AppState\" { \"StateFlags\" \"4\" ";
  tabs = codes "\t\t";
  rest = codes " }";
  text = refl;
  first = ground arith;
  blank = (refl, (refl, tt));
  digits = ground arith;
  fits = omega arith;
}

manifest-Settles : Settles manifest_reads 0 1
unfolding same_stat
manifest-Settles = (
  record {
    s = record { mod_time = 0; size = 60 };
    t = record { mod_time = 1; size = 60 };
    before = refl;
    opened = refl;
    after = refl;
    other = refl;
  },
  record {
    s = record { mod_time = 1; size = 60 };
    t = record { mod_time = 1; size = 60 };
    before = refl;
    opened = refl;
    after = refl;
    same = refl;
  },
)

read_local_ver-IsManifest_example : read_local_ver manifest_reads ≡ codes "674902"
read_local_ver-IsManifest_example =
    read_local_ver-IsManifest manifest_reads 1 b'6' (codes "74902") (omega arith) manifest-Settles
      reads-IsManifest
