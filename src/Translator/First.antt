-- ===== src/Translator/First.antt =====
-- translator.go, a part of `dict`.
use dst_nucleus.Prelude.{List, [], ◌∷◌, String}

abbrev pub first_entries : List (String × String)
first_entries =
    ("API唤醒通道", "ApiWakeChan")
    ∷ ("api辅助协程生命周期", "ApiGuardCtx")
    ∷ ("http报错", "HttpErr")
    ∷ ("http接口", "HttpBind")
    ∷ ("事件通道", "EventBus")
    ∷ ("信号通道", "SignalPipe")
    ∷ ("html头", "HtmlHead")
    ∷ ("json头", "JsonHead")
    ∷ ("keepAlive头", "KeepAliveHead")
    ∷ ("noCache头", "NoCacheHead")
    ∷ ("plain头", "PlainHead")
    ∷ ("sse头", "SseHead")
    ∷ ("sse观察者矩阵", "SseObserverMatrix")
    ∷ ("代理客户端", "ProxyClient")
    ∷ ("SteamCMD下载缓冲池", "SteamCmdDlPool")
    ∷ ("SteamCMD解压缓冲池_Linux", "SteamCmdUnzipPool_Linux")
    ∷ ("SteamCmd可执行文件", "SteamCmdExe")
    ∷ ("SteamCmd程序", "SteamCmdBin")
    ∷ ("SteamCmd路径", "SteamCmdPath")
    ∷ ("steamcmd下载链接", "SteamCmdUrl")
    ∷ ("steamcmd文件名", "SteamCmdName")
    ∷ ("steamcmd进程", "SteamCmdProc")
    ∷ ("steamcmd默认路径", "SteamCmdDefPath")
    ∷ ("acf文件目录", "AcfDir")
    ∷ ("home目录", "HomeDir")
    ∷ ("ps脚本", "PsScript")
    ∷ ("zip读取器", "ZipReader")
    ∷ ("作业信息类_扩展限制", "JobObjectExtLimit")
    ∷ ("作业组句柄", "JobGroupHandle")
    ∷ ("id锚点", "IdAnchor")
    ∷ ("key起始", "KeyStart")
    ∷ ("val起始", "ValStart")
    ∷ ("偏移量", "Offset")
    ∷ ("位置", "Pos")
    ∷ ("值", "Val")
    ∷ ("信息", "Info")
    ∷ ("临时", "Temp")
    ∷ ("临时文件", "TempFile")
    ∷ ("临时游标", "TmpCursor")
    ∷ ("临时缓冲", "TmpBuffer")
    ∷ ("临时路径", "TmpPath")
    ∷ ("万分比CPU", "CpuBps")
    ∷ ("上次K", "LastKTime")
    ∷ ("上次U", "LastUTime")
    ∷ ("上次周期", "LastCycle")
    ∷ ("上次时间点", "LastTimestamp")
    ∷ ("上次滴答", "LastTicks")
    ∷ ("上次监控快照", "LastSysSnapshot")
    ∷ ("上次系统时间", "LastSysTime")
    ∷ ("下一次播报", "NextAnnounce")
    ∷ ("下载数据", "DlData")
    ∷ ("世代", "Epoch")
    ∷ ("世界天数", "WorldDays")
    ∷ ("保存完成信号", "SaveAckSig")
    ∷ ("允许控制台输出", "AllowConsoleOut")
    ∷ ("允许服务器运行原子锁", "ServerRunGate")
    ∷ ("优雅重启等待时间", "GraceWaitTime")
    ∷ ("克劳斯", "Klaus")
    ∷ ("克劳斯倒计时", "KlausTimer")
    ∷ ("主世界OK", "MasterOk")
    ∷ ("主世界world配置文件路径", "MasterWorldConfPath")
    ∷ ("主世界世代同步链路", "MasterEpochLink")
    ∷ ("主世界世代观察者", "MasterEpochWatcher")
    ∷ ("主世界命令通道", "MasterCmdPipe")
    ∷ ("主世界寄生虫心跳", "MasterParasitePulse")
    ∷ ("主世界就绪原子锁", "MasterReadyGate")
    ∷ ("主世界当前世代", "MasterEpoch")
    ∷ ("主世界探针轮询器", "MasterRadar")
    ∷ ("主世界接收器存活", "MasterRxAlive")
    ∷ ("主世界日志路径", "MasterLogPath")
    ∷ ("主世界是否开启", "IsMasterEnabled")
    ∷ ("主世界输入", "MasterStdin")
    ∷ ("主世界输出", "MasterStdout")
    ∷ ("主世界进程", "MasterProc")
    ∷ ("主世界错误", "MasterStderr")
    ∷ ("setup独有", "SetupExclusive")
    ∷ ("setup独有字典", "SetupOnlyDict")
    ∷ ("全局API缓冲", "GlobalApiBuffer")
    ∷ ("全局世代心跳", "GlobalEpochPulse")
    ∷ ("全局向量缓存", "GlobalVecCache")
    ∷ ("全局报文指针", "GlobalPacketPtr")
    ∷ ("全局本地模组时间表", "LocalModEpochs")
    ∷ ("全局模组API缓冲锁", "ModApiBufferLock")
    ∷ ("全局目标模组缓存", "GlobalTargetModCache")
    ∷ ("全局远程模组时间表", "RemoteModEpochs")
    ∷ ("全局局部生命周期终结", "EpochKillSwitch")
    ∷ ("全局生命周期", "GlobalCtx")
    ∷ ("全局生命周期终结", "GlobalKillSwitch")
    ∷ ("全局配置", "GlobalConf")
    ∷ ("全服监控态", "ClusterMonState")
    ∷ ("全服资源探针任务", "ClusterProbeTask")
    ∷ ("公告_优雅重启上半", "AnnounceGraceRebootPrefix")
    ∷ ("公告_优雅重启下半", "AnnounceGraceRebootSuffix")
    ∷ ("动作总线", "ActionBus")
    ∷ ("动作_无动作", "Action_Noop")
    ∷ ("动作_主世界崩溃", "Action_MasterCrash")
    ∷ ("动作_洞穴崩溃", "Action_CavesCrash")
    ∷ ("动作_执行系统关机", "Action_SystemHalt")
    ∷ ("动作_执行API强制关闭", "Action_ApiHalt")
    ∷ ("动作_执行游戏本体更新", "Action_GameUpdate")
    ∷ ("动作_执行模组热更新", "Action_ModHotUpdate")
    ∷ ("合体PID", "PackedPID")
    ∷ ("复合状态字节", "PackedStateByte")
    ∷ ("复合环境字节", "PackedEnvByte")
    ∷ ("字符合法表", "CharacterValidityTable")
    ∷ ("去除位掩码", "StripBitmask")
    ∷ ("字节Mem", "ByteMem")
    ∷ ("内存计", "MemGauge")
    ∷ ("内存读取器", "MemReader")
    ∷ ("单槽位容量", "SlotCap")
    ∷ ("处理游标", "ScanCursor")
    ∷ ("分支锚点", "BranchAnchor")
    ∷ ("前缀部分", "PrefixChunk")
    ∷ ("前缀干净", "CleanPrefix")
    ∷ ("后缀干净", "CleanSuffix")
    ∷ ("可能ID", "ProbeID")
    ∷ ("右引号", "RightQuote")
    ∷ ("右引号位置", "RightQuotePos")
    ∷ ("包含中文", "HasNonASCII")
    ∷ ("压扁", "Flatten")
    ∷ ("句柄", "vHandle")
    ∷ ("原子写文件", "AtomicWriteFile")
    ∷ ("原子写文件流", "AtomicWriteStream")
    ∷ ("冲刷器", "vFlusher")
    ∷ ("获取文件快照", "ReadSnapshot")
    ∷ ("安全读取器", "GuardedReader")
    ∷ ("写入的文件", "vWriteFile")
    ∷ ("写入字节数", "WrittenBytes")
    ∷ ("压缩内容", "DeflatedData")
    ∷ ("完整程序路径", "FullBinPath")
    ∷ ("复制文件", "CloneFile")
    ∷ ("初始空状态", "ZeroState")
    ∷ []
