-- ===== src/Lib.antt =====
-- DST-Nucleus: a daemon that keeps a Don't Starve Together dedicated server (a master shard and a
-- caves shard) running, updated and observable.
--
-- The parts of the program and the files that model them:
--   Prelude        numbers, byte lists, the decimal texts of strconv
--   Config         config.go: Pristine is the check whether a configuration file is the generated one;
--                  Loader is `加载配置` and `递归填充`; Fields is the structure of sys_params.go that they fill
--   Telemetry      api_status.go, api.go, sys_params.go: what the game and the other node report, the
--                  in-game state that they store, and the status text that is published from it.
--                  GameState is the `游戏内状态` section; Packet is `解析二进制包`, with
--                  Packet/Layout for the script parasite.lua that prints the packet; Report is
--                  `api_update_state` and `发送洞穴参数`; Snapshot is `刷新服务器状态`
--   Mods           update.go: the ids that the mod files name (`解析Setup`, `解析Modoverrides`) and the
--                  lines that `读取行` appends to the setup file; Version is `解析版本号`, the game's
--                  build number
--   Files          file.go, api.go, update.go: `原子写文件`, `原子写文件流`, `获取文件快照`, `复制文件`
--   Daemon         main.go, api.go, game.go: `main`'s loop, the control endpoints, the shards' exits;
--                  Lifecycle is their atomic steps in every interleaving;
--                  Daemon/Reboot is `执行优雅重启`, and Daemon/Announce its announcements with the texts of
--                  language.go
--   Logs           api.go, game.go: the log chunks that `实时输出流` publishes, the hub that hands
--                  them to the subscribers, and the clients that write them out
--   Commands       game.go, api.go: the channels of commands to the shards, `发送纯文本指令` and `api_command`
--   Probe          main_linux.go: the sample of a process, `采集单进程数据`, with `提取stat字段` and
--                  `拼接进程路径`; Task is `全服资源探针任务`, and Win32 is the same of main_windows.go;
--                  Jitter is cpu.go
--   LogReader      game.go: `实时输出流`, the lines of a game process's output
--   Console        main.go: `监听控制台输入`, the lines that are typed; Output is `控制台合并输出` of main_linux.go
--                  and main_windows.go
--   FileApi        api.go, sys_params.go: `api_file_read` and `api_file_write`, over Files
--   Updates        update.go: is the game or a mod out of date, and what is downloaded. Search is what is
--                  used of the standard library; Version is the remote build number, `发起竞速请求`,
--                  `探测游戏更新` and `执行游戏更新`; LocalVersion is `读取文件获取游戏版本`; Epochs is
--                  `获取本地模组时间表` and `获取远程模组更新时间`; Mods is `探测模组更新` and `执行模组更新`;
--                  Monitor is `运行版本监控`, `api_checkupdate` and `自动安装`
--   Shards         game.go: Pids is the word of the two process ids that `运行主世界` and `运行洞穴` share;
--                  Ending is `杀掉进程`; Keeper is the whole of the two functions; Poller is
--                  `主世界探针轮询器` and `洞穴探针轮询器`
--   Sensor         game.go: `远端世代传感器`, the watch over the other machine's epoch
--   Events         api.go: the gateway's switches, `api_epoch_master`, `api_epoch_caves`, `api_events` and
--                  `全局世代心跳`
--   Install        main_linux.go, main_windows.go: `安装SteamCMD`; Paths is what it uses of path/filepath, Kept
--                  what both systems share
--   Startup        main.go, sys_params.go, main_linux.go: `main` up to its loop, `初始化核心中枢`, `初始化路径`;
--                  Boot is what the loop does in front of a boot
--   BuildLua       build_lua.go: the script on one line
--   Translator     translator.go: the dictionary of identifiers, in five parts, and the renaming
--   Tests          concrete inputs
-- LogReader finds the packets that Packet parses, whose state Snapshot renders, and posts to the action
-- bus of Daemon; ReadLines reads the files through Files/Snapshot; FileApi writes them through
-- Files/Stream and Files/Clone; the endpoints and the shards act on the loop through the action bus.
-- A keeper uses the word of Pids, ends its process by Ending and returns as an event of Daemon, to which
-- the monitor posts as well.
--
-- Names are the source's, in the English of the dictionary in translator.go. The state that the Go
-- code keeps in atomics is a record that each operation returns anew. A channel of capacity one is an
-- option, one of larger capacity a list with its bound; a send with a `default` branch is dropped
-- when there is no room. An answer of the operating system or of a reader is an argument. Unsigned
-- arithmetic wraps as written; bytes are numbers below 256, and an index that the source guards is
-- read with a default. The blanks that `strings.TrimSpace` strips are the ASCII ones: Unicode's, at the
-- ends of a line, are not treated.
--
-- Fuel: the two mod parsers take the length of their text, since a round of either loop uses at least
-- one byte; the factory-default check takes one more than the length of the file; the form's loop
-- takes the length of the body, and the loop over a stat line's fields the length of that text, by
-- the same count, as do the loops over a query's blocks, over Steam's answer and over the window on the
-- manifest. The countdown of the reboot is recursion on the remaining seconds; the retries are
-- recursion on their fixed number.
--
-- The loops that wait for the network or for a clock are recursion on the list of what they meet; the
-- download on Windows, on the reads. The limit of both installers is 20 MB, as in the source.
--
-- Not modelled: the system calls, SteamCMD, the HTTP transport and the registration of observers, the
-- job objects of Windows, and the parser of Go that translator.go uses: these are input and output, or
-- other programs' code.

pub mod Prelude
pub mod Config
pub mod Telemetry
pub mod Mods
pub mod Files
pub mod Daemon
pub mod Logs
pub mod Commands
pub mod Probe
pub mod LogReader
pub mod Console
pub mod FileApi
pub mod Updates
pub mod Shards
pub mod Sensor
pub mod Tests
pub mod BuildLua
pub mod Events
pub mod Install
pub mod Startup
pub mod Translator
