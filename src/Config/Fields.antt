-- ===== src/Config/Fields.antt =====
-- sys_params.go: the structure `系统配置`, its tags in their order, with the zero values that it starts from.
-- A field without a tag, and an array that only keeps others apart, is `untagged`.
use dst_nucleus.Prelude.{[], false, codes}
use dst_nucleus.Config.Loader.{Fields, end, untagged, leaf, group, flag, word64, text}

abbrev pub config_area_1 : Fields
config_area_1 = untagged (
    untagged (
      leaf (codes "storage_root") (text []) (
        leaf (codes "game_dir") (text []) (
          leaf (codes "cluster_name") (text []) (
            leaf (codes "steamcmd_path") (text []) (
              leaf (codes "mod_setup_backup") (text []) (
                leaf (codes "mod_setup_target") (text []) (
                  leaf (codes "mod_overrides_path") (text []) (
                    leaf (codes "master_server_lua") (text []) (
                      leaf (codes "caves_server_lua") (text []) (
                        leaf (codes "http_api_listen") (text []) (
                          leaf (codes "announcement_language") (text []) (
                            leaf (codes "auto_bootstrap") (flag false) (
                              leaf (codes "skip_linux_lib32_check") (flag false) (
                                leaf (codes "permit_root_usage") (flag false)
                                  (leaf (codes "auto_start") (flag false) end))))))))))))))))

abbrev pub config_area_2 : Fields
config_area_2 = leaf (codes "auto_update") (flag false) (
    leaf (codes "update_interval") (word64 0) (
      leaf (codes "graceful_restart_wait") (word64 0) (
        leaf (codes "auto_gen_default_configs") (flag false) (
          leaf (codes "crash_restart") (flag false) (
            leaf (codes "enable_caves") (flag false) (
              leaf (codes "enable_master") (flag false) (
                leaf (codes "enable_parasite") (flag false) (
                  leaf (codes "caves_epoch_url") (text []) (
                    leaf (codes "master_epoch_url") (text []) (
                      leaf (codes "caves_state_report_url") (text [])
                        (leaf (codes "cluster_token") (text []) end)))))))))))

abbrev pub locks : Fields
locks = untagged (
    untagged
      (untagged (untagged (untagged (untagged (untagged (untagged (untagged (untagged end)))))))))

abbrev pub monitor : Fields
monitor = untagged (untagged (untagged (untagged (untagged (untagged end)))))

abbrev pub processes : Fields
processes = untagged (untagged (untagged end))

abbrev pub logs : Fields
logs = leaf (codes "master_log") (flag false) (
    leaf (codes "master_log_file") (text [])
      (leaf (codes "caves_log") (flag false) (leaf (codes "caves_log_file") (text []) end)))

abbrev pub cpu : Fields
cpu = leaf (codes "enable_cpu_inflation_probe") (flag false) (untagged (untagged (untagged end)))

abbrev pub game : Fields
game = untagged (
    untagged (
      untagged (
        untagged (
          untagged (
            untagged (
              untagged (
                untagged (
                  untagged (
                    untagged (
                      untagged (
                        untagged (
                          untagged (
                            untagged (
                              untagged (
                                untagged (
                                  untagged (
                                    untagged (
                                      untagged (
                                        untagged
                                          (untagged (untagged (untagged end))))))))))))))))))))))

abbrev pub system_config : Fields
system_config = untagged (
    group config_area_1 (
      untagged (
        group config_area_2 (
          untagged (
            group locks (
              untagged (
                group monitor (
                  untagged (
                    group processes (
                      untagged (
                        group logs
                          (untagged (group cpu (untagged (group game (untagged end))))))))))))))))
