-- ===== src/Tests/Endpoints.antt =====
-- The file endpoints, the console, the epoch sensor and the configuration file.
use dst_nucleus.Prelude.{
  List, [], ◌∷◌, Bytes, some, none, true, false, ◌≡◌, refl, codes, arith, leb, map,
}
use dst_nucleus.Prelude.Decimal.{pos, eqb_ℤ, parse_uint}
use dst_nucleus.Files.Stream.{last, more, atomic_write_stream}
use dst_nucleus.Files.Clone.{Clone}
use dst_nucleus.FileApi.{
  Store, Io, content200, write_mod_paths, api_file_write, api_file_read, cluster_path,
}
use dst_nucleus.FileApi.Written.{CopiesBody, Handled, api_file_write-Handled}
use dst_nucleus.FileApi.RoundTrip.{api_file_read-api_file_write}
use dst_nucleus.Commands.{to_master, to_caves}
use dst_nucleus.Console.{listen_console, send_line, strip_return}
use dst_nucleus.Console.Lines.{sent_lines, listen_console-lines_text}
use dst_nucleus.Config.Loader.{load_config, leaf, end, word64, flag}
use dst_nucleus.Config.Loader.Layout.{Setting}
use dst_nucleus.Config.Loader.Filled.{Line, sets, comment, blank, line_text}
use dst_nucleus.Prelude.{◌≢◌}
use dst_nucleus.Sensor.{sense_remote, posted, read_stream, reading}
use dst_nucleus.Sensor.Blind.{sense_remote-never}

abbrev bare : Store
bare p = none

abbrev one_round : Clone
one_round = record {
  before = some (record { mod_time = 1; size = 4 });
  open_source = true;
  create = true;
  copied = some (codes "return {}");
  part = [];
  spoiled = none;
  remove = true;
  after = some (record { mod_time = 1; size = 4 });
  rename = λ j. true;
}

abbrev upload_io : Io
upload_io = record {
  answers = record {
    mkdir = true;
    create = true;
    write = true;
    sync = true;
    close = true;
    rename = λ i. leb 2 i;
  };
  body = more (codes "return ") true (last (codes "{}") true true);
  rounds = λ i. one_round;
}

copies_upload : CopiesBody upload_io
copies_upload j text e = (cc, refl)

api_file_write-Handled_example :
    Handled (write_mod_paths true true) (codes "a=b&target=MOD") upload_io bare (
      api_file_write
        (write_mod_paths true true)
        false
        true
        (pos 9)
        (codes "a=b&target=MOD")
        upload_io
        bare)
api_file_write-Handled_example =
    api_file_write-Handled (write_mod_paths true true) false true (pos 9) (codes "a=b&target=MOD")
      upload_io bare copies_upload

api_file_read-api_file_write_example :
    api_file_read false true
      (codes "target=Cluster")
      true
      (api_file_write
        (write_mod_paths true true)
        false
        true
        (pos 9)
        (codes "target=Cluster")
        upload_io
        bare).0
    ≡ content200 (codes "return {}")
unfolding api_file_write api_file_read atomic_write_stream eqb_ℤ
api_file_read-api_file_write_example =
    api_file_read-api_file_write (write_mod_paths true true) (pos 9) (codes "target=Cluster")
      upload_io bare true (codes "cluster") cluster_path copies_upload refl refl refl

-- Two commands, read in three pieces, and the beginning of a third one.
abbrev typed : List Bytes
typed = codes "c_save()\r" ∷ codes "caves:c_reset()" ∷ []

abbrev reads : List Bytes
reads = codes "c_sa" ∷ codes "ve()\r\ncaves:c_" ∷ codes "reset()\nc_lis" ∷ []

typed_sent :
    sent_lines true typed ≡ (codes "c_save()", to_master) ∷ (codes "c_reset()", to_caves) ∷ []
unfolding send_line strip_return
typed_sent = refl

listen_console-lines_text_example : listen_console true [] reads ≡ sent_lines true typed
listen_console-lines_text_example =
    listen_console-lines_text true typed (codes "c_lis") reads (omega arith) (omega arith)
      (omega arith) refl

sense_remote-never_example :
    let lines = codes "data: 5" ∷ codes "data: 0" ∷ [] in
    (sense_remote ((false, false) ∷ (true, false) ∷ []) ((false, true) ∷ []) 9 lines ≢ posted)
    × (read_stream 9 lines ≡ reading (pos 0))
sense_remote-never_example =
    sense_remote-never ((false, false) ∷ (true, false) ∷ []) ((false, true) ∷ []) 9
      (codes "data: 5" ∷ codes "data: 0" ∷ [])

abbrev caves_setting : Setting
caves_setting = record {
  left = [];
  key = codes "enable_caves";
  before = [];
  gap = codes " ";
  opening = [];
  value = codes "True";
  closing = [];
  right = codes "\r";
}

abbrev interval_setting : Setting
interval_setting = record {
  left = codes "  ";
  key = codes "update_interval";
  before = codes " ";
  gap = codes "\t";
  opening = codes "\"";
  value = codes "600";
  closing = codes "'";
  right = [];
}

abbrev config_lines : List Line
config_lines =
    comment [] (codes " dst-nucleus: core")
    ∷ blank []
    ∷ sets caves_setting
    ∷ sets interval_setting
    ∷ []

config_area_2_filled :
    (load_config
      (some 512)
      true
      (map line_text config_lines)
      (leaf (codes "update_interval") (word64 0) (leaf (codes "enable_caves") (flag false) end))).1
    ≡ leaf (codes "update_interval") (word64 600) (leaf (codes "enable_caves") (flag true) end)
unfolding load_config parse_uint
config_area_2_filled = refl
