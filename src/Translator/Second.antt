-- ===== src/Translator/Second.antt =====
-- translator.go, a part of `dict`.
use dst_nucleus.Prelude.{List, [], ◌∷◌, String}

abbrev pub second_entries : List (String × String)
second_entries =
    ("初始化核心中枢", "BootNucleus")
    ∷ ("初始化路径", "InitPaths")
    ∷ ("初始化游戏内状态", "InitGameState")
    ∷ ("启动高性能底层监听", "BootRawListener")
    ∷ ("启动本地api接口", "BootLocalApi")
    ∷ ("启动后自动安装", "AutoInstallOnBoot")
    ∷ ("刷新服务器状态", "FlushServerState")
    ∷ ("加载配置", "LoadConfig")
    ∷ ("加载器存在", "HasLoader")
    ∷ ("加载器路径", "LoaderPath")
    ∷ ("命令api原子锁", "ApiCmdGate")
    ∷ ("原子锁", "AtomicGate")
    ∷ ("启用寄生", "EnableParasite")
    ∷ ("启用CPU膨胀探测", "EnableCpuInflationProbe")
    ∷ ("启用主世界", "EnableMaster")
    ∷ ("启用洞穴", "EnableCaves")
    ∷ ("启用自动更新", "EnableAutoUpdate")
    ∷ ("启用崩溃重启", "EnableCrashReboot")
    ∷ ("启用负载均衡", "EnableLoadBalance")
    ∷ ("发起竞速请求", "FireRacingRequest")
    ∷ ("发起请求", "FireRequest")
    ∷ ("发送纯文本指令", "EmitRawCmd")
    ∷ ("安全投递", "ForcePushCmd")
    ∷ ("命令通道指针", "CmdPipePtr")
    ∷ ("命令目标", "CmdTarget")
    ∷ ("发往全服", "RouteToAll")
    ∷ ("发往主世界", "RouteToMaster")
    ∷ ("发往洞穴", "RouteToCaves")
    ∷ ("协议", "Protocol")
    ∷ ("原始载荷", "RawPayload")
    ∷ ("响应", "Resp")
    ∷ ("响应体", "RespBody")
    ∷ ("回显污染头", "EchoTaintHead")
    ∷ ("动态寄生虫指令", "DynamicParasiteCmd")
    ∷ ("声呐探测指令", "SonarPingCmd")
    ∷ ("存档名称", "ClusterName")
    ∷ ("存档根目录", "StorageRoot")
    ∷ ("白名单路径", "WhitelistPath")
    ∷ ("黑名单路径", "BlacklistPath")
    ∷ ("管理员名单路径", "AdminListPath")
    ∷ ("在线玩家人数", "OnlinePlayers")
    ∷ ("天体唤醒", "CelestialWake")
    ∷ ("大鹅", "MooseGoose")
    ∷ ("大鹅倒计时", "MooseGooseTimer")
    ∷ ("季节", "Season")
    ∷ ("季节剩余", "SeasonLeft")
    ∷ ("季节剩余天数", "SeasonDaysLeft")
    ∷ ("天数", "Days")
    ∷ ("公告_游戏更新", "AnnounceGameUpdate")
    ∷ ("公告_模组更新", "AnnounceModUpdate")
    ∷ ("公告语言", "AnnounceLang")
    ∷ ("公告语言初始化", "InitAnnounceLang")
    ∷ ("命令", "vCmd")
    ∷ ("内容", "RawContent")
    ∷ ("存在", "Exists")
    ∷ ("失败计数", "FailCount")
    ∷ ("参数", "vArgs")
    ∷ ("频率", "Frequency")
    ∷ ("命中", "IsHit")
    ∷ ("头部", "vHeader")
    ∷ ("前缀", "Prefix")
    ∷ ("后缀", "Suffix")
    ∷ ("字段", "vField")
    ∷ ("字段类型", "FieldType")
    ∷ ("字符", "Char")
    ∷ ("安装SteamCMD", "InstallSteamCmd")
    ∷ ("安装游戏", "InstallGame")
    ∷ ("巨鹿", "Deerclops")
    ∷ ("巨鹿倒计时", "DeerclopsTimer")
    ∷ ("差异模组", "DeltaMods")
    ∷ ("新CavesTicks", "NewCavesTicks")
    ∷ ("当前季节", "CurrSeason")
    ∷ ("当前对方世代", "CurrPeerEpoch")
    ∷ ("当前主世界世代", "CurrMasterEpoch")
    ∷ ("当前频率", "CurrFrequency")
    ∷ ("当前状态快照", "CurrStateSnap")
    ∷ ("当前总滴答", "CurrTotalTicks")
    ∷ ("当前滴答", "CurrTick")
    ∷ ("当前Ticks", "CurrTicks")
    ∷ ("局部最大震荡周期", "MaxJitterCycle")
    ∷ ("CPU频率", "CPUFrequency")
    ∷ ("尾部游标", "TailCursor")
    ∷ ("数据起始游标", "DataStartCursor")
    ∷ ("左引号位置", "LeftQuotePos")
    ∷ ("括号结束", "BracketEnd")
    ∷ ("找到等号", "EqFound")
    ∷ ("当前ID", "CurrID")
    ∷ ("当前ID被禁用", "IsIDDisabled")
    ∷ ("当前字节", "CurrByte")
    ∷ ("当前索引", "CurrIdx")
    ∷ ("引号", "Quote")
    ∷ ("数字串", "NumStr")
    ∷ ("数字开始", "NumStart")
    ∷ ("数字结束", "NumEnd")
    ∷ ("数字起点", "NumOrigin")
    ∷ ("排重字典", "DedupSet")
    ∷ ("底层监听器", "RawListener")
    ∷ ("底层管道", "RawPipe")
    ∷ ("扁平网关", "FlatGateway")
    ∷ ("接收缓冲池", "RxPool")
    ∷ ("客户端推送通道", "ClientTxPipe")
    ∷ ("实际写入数量", "ActualWritten")
    ∷ ("拷贝字节数", "CopiedBytes")
    ∷ ("总长", "TotalLen")
    ∷ ("总长文件", "TotalLenFile")
    ∷ ("总长模板", "TotalLenTpl")
    ∷ ("已解压总量", "UnzippedTotal")
    ∷ ("归档读取器", "ArchiveReader")
    ∷ ("扫描器", "Scanner")
    ∷ ("数据", "vData")
    ∷ ("数量缓存", "CountCache")
    ∷ ("客户端拔管", "ForceDropClient")
    ∷ ("掐断请求", "AbortReq")
    ∷ ("探针取消", "CancelProbe")
    ∷ ("捕获的信号", "CaughtSig")
    ∷ ("崩溃动作", "CrashAction")
    ∷ ("执行优雅重启", "GracefulReboot")
    ∷ ("执行模组更新", "ExecModUpdate")
    ∷ ("执行游戏更新", "ExecGameUpdate")
    ∷ ("拼接进程路径", "JoinProcPath")
    ∷ ("探测模组更新", "ProbeModUpdate")
    ∷ ("探测游戏更新", "ProbeGameUpdate")
    ∷ ("提取stat字段", "ExtractStat")
    ∷ ("对象", "Entity")
    ∷ ("平台专属属性", "PlatformAttrs")
    ∷ ("扩展限制结构体", "ExtLimitStruct")
    ∷ ("指针", "vPtr")
    ∷ ("寻址掩码", "AddrMask")
    ∷ ("延长码FF", "ExtCodeFF")
    ∷ ("指令", "Instr")
    ∷ ("指令流", "InstrStream")
    ∷ ("指令字符串", "CmdStr")
    ∷ ("寄生指令", "ParasiteCmd")
    ∷ ("报文指针", "PacketPtr")
    ∷ ("探针", "Probe")
    ∷ ("探针私有快照", "ProbeSnap")
    ∷ ("探针缓冲池", "ProbePool")
    ∷ ("控制台换行符", "ConsoleNL")
    ∷ ("控制台合并输出", "LogOut")
    ∷ ("控制台合并输出换行", "LogOutLn")
    ∷ []
