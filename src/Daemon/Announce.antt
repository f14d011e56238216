-- ===== src/Daemon/Announce.antt =====
-- language.go, `公告语言初始化`, and the command of game.go, `执行优雅重启`, that announces a reboot to the players. The
-- texts are code points; the bytes of one above 127 are above 127 too.
pub mod Quoted
use dst_nucleus.Prelude.{ℕ, Bytes, codes, equal, ◌++◌, ◌||◌, if◌then◌else◌}
use dst_nucleus.Prelude.Decimal.{append_int, pos}

pub record Texts : Type 0 where
  pub game_update : Bytes  -- 公告_游戏更新
  pub mod_update : Bytes  -- 公告_模组更新
  pub before : Bytes  -- 公告_优雅重启上半
  pub behind : Bytes  -- 公告_优雅重启下半

abbrev pub simplified : Texts
simplified = record {
  game_update = codes "检测到游戏版本更新";
  mod_update = codes "模组更新已就绪";
  before = codes "，服务器已自动保存，请尽快退出游戏，服务器将在 ";
  behind = codes " 秒后强制关闭...";
}

abbrev pub traditional : Texts
traditional = record {
  game_update = codes "檢測到遊戲版本更新";
  mod_update = codes "模組更新已就緒";
  before = codes "，伺服器已自動保存，請盡快退出遊戲，伺服器將在 ";
  behind = codes " 秒後強制關閉...";
}

abbrev pub english : Texts
english = record {
  game_update = codes "Game update detected";
  mod_update = codes "Mod update ready";
  before = codes ". Server saved. Please disconnect safely. Restarting in ";
  behind = codes "s...";
}

abbrev pub japanese : Texts
japanese = record {
  game_update = codes "ゲームアップデートを検出";
  mod_update = codes "MODの更新準備が完了";
  before = codes "。サーバーは保存されました。安全な場所でログアウトしてください。再起動まで残り ";
  behind = codes " 秒...";
}

abbrev pub russian : Texts
russian = record {
  game_update = codes "Обновление игры обнаружено";
  mod_update = codes "Обновление мода готово";
  before = codes ". Сервер сохранён. Пожалуйста, безопасно отключитесь. Перезагрузка через ";
  behind = codes " секунд...";
}

-- The texts for the setting `公告语言`.
unfoldable pub announcement_texts : Bytes → Texts
announcement_texts lang =
    if equal lang (codes "zh")
    then simplified
    else if equal lang (codes "zh-t")
    then traditional
    else if equal lang (codes "en")
    then english
    else if equal lang (codes "jp")
    then japanese
    else if equal lang (codes "ru")
    then russian
    else simplified

abbrev pub announce_head : Bytes
announce_head = codes "if #GetPlayerClientTable() == 0 then c_shutdown(true) else c_announce(\""

abbrev pub announce_tail : Bytes
announce_tail = codes "\") end\n"

-- The command with so many seconds left.
unfoldable pub announce_command : Texts → Bytes → ℕ → Bytes
announce_command t message seconds =
    announce_head
    ++ (message ++ (t.before ++ (append_int (pos seconds) ++ (t.behind ++ announce_tail))))
