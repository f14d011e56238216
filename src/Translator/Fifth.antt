-- ===== src/Translator/Fifth.antt =====
-- translator.go, a part of `dict`.
use dst_nucleus.Prelude.{List, [], ◌∷◌, String}

abbrev pub fifth_entries : List (String × String)
fifth_entries =
    ("配置区1", "Section1")
    ∷ ("配置区2", "Section2")
    ∷ ("部分", "Chunk")
    ∷ ("默认主世界配置", "DefMasterConf")
    ∷ ("默认洞穴配置", "DefCavesConf")
    ∷ ("默认模板", "DefTpl")
    ∷ ("默认配置文件", "DefConfFile")
    ∷ ("默认cluster", "DefCluster")
    ∷ ("饥荒可执行文件名", "DSTExecName")
    ∷ ("邪天翁", "Malbatross")
    ∷ ("邪天翁倒计时", "MalbatrossTimer")
    ∷ ("龙蝇", "Dragonfly")
    ∷ ("龙蝇倒计时", "DragonflyTimer")
    ∷ ("震荡裂缝", "CycleRift")
    ∷ ("远端API", "RemoteApi")
    ∷ ("通过HTTP获取远程游戏版本", "FetchRemoteVerHTTP")
    ∷ ("读取文件获取游戏版本", "ReadLocalVer")
    ∷ ("通道", "Chan")
    ∷ ("锁定状态", "LockState")
    ∷ ("错误通道", "ErrPipe")
    ∷ ("键", "Key")
    ∷ ("长度", "vLen")
    ∷ ("负数", "IsNegative")
    ∷ ("起始位置", "StartPos")
    ∷ ("递归填充", "RecurseFill")
    ∷ ("面板HTML", "PanelHTML")
    ∷ ("发现更新", "UpdateAvailable")
    ∷ ("饥荒世界生命周期", "shardCtx")
    ∷ ("终止饥荒世界生命周期", "cancelShard")
    ∷ ("运行版本监控", "VersionProbe")
    ∷ ("游标", "vCursor")
    ∷ ("底层监听", "RawListen")
    ∷ ("网络协议", "vNetProtocol")
    ∷ ("监听器", "vListener")
    ∷ ("远端世代传感器", "RemoteEpochSensor")
    ∷ ("杀掉进程", "vKillProcess")
    ∷ ("心跳信号", "HeartbeatSignal")
    ∷ ("怠速秒表", "IdleStopwatch")
    ∷ ("截断标志", "TruncateFlag")
    ∷ ("开始", "vStart")
    ∷ ("结束", "vEnd")
    ∷ ("当前周期", "CurrentCycle")
    ∷ ("洞穴命令前缀", "cavesCommandPrefix")
    ∷ ("洞穴命令前缀长度", "cavesCommandPrefixLen")
    ∷ ("终止函数", "SeverancePayload")
    ∷ ("旧指针", "StaleArtifact")
    ∷ ("主世界日志连接数", "MasterLogConnCount")
    ∷ ("主世界中央日志管道", "MasterCentralLogChan")
    ∷ ("主世界日志订阅", "MasterLogSubChan")
    ∷ ("主世界日志退订", "MasterLogUnsubChan")
    ∷ ("洞穴日志连接数", "CavesLogConnCount")
    ∷ ("洞穴中央日志管道", "CavesCentralLogChan")
    ∷ ("洞穴日志订阅", "CavesLogSubChan")
    ∷ ("洞穴日志退订", "CavesLogUnsubChan")
    ∷ ("广播日志块", "BroadcastLogChunk")
    ∷ ("块", "vChunk")
    ∷ ("引用数", "RefCount")
    ∷ ("日志广播池", "LogBroadcastPool")
    ∷ ("主世界日志广播中心", "MasterLogBroadcastHub")
    ∷ ("订阅者集合", "vSubscribers")
    ∷ ("洞穴日志广播中心", "CavesLogBroadcastHub")
    ∷ ("中央管道", "vCentralChan")
    ∷ ("连接数", "vConnCount")
    ∷ ("可能ID_num", "ProbeIDNum")
    ∷ ("id栈缓冲", "IdStackBuf")
    ∷ ("主世界mod配置路径", "MasterModConfPath")
    ∷ ("洞穴mod配置路径", "CavesModConfPath")
    ∷ ("cluster路径", "ClusterPath")
    ∷ ("主世界server配置路径", "MasterServerConfPath")
    ∷ ("洞穴server配置路径", "CavesServerConfPath")
    ∷ ("主世界world配置路径", "MasterWorldConfPath")
    ∷ ("洞穴world配置路径", "CavesWorldConfPath")
    ∷ ("mod更新配置文件路径集", "ModUpdateConfPaths")
    ∷ ("写入mod配置文件路径集", "WriteModConfPaths")
    ∷ ("游戏版本acf文件路径", "GameVerAcfPath")
    ∷ ("mod版本acf文件路径", "ModVerAcfPath")
    ∷ ("steamcmd程序路径", "SteamCmdBinPath")
    ∷ ("游戏程序路径", "GameBinPath")
    ∷ ("原子写文件流缓冲池", "AtomicWriteStreamPool")
    ∷ ("输出缓冲池", "OutputBufferPool")
    ∷ ("池指针", "poolPtr")
    ∷ ("本地向量", "vLocalIovecs")
    ∷ ("发包载体池", "PacketPool")
    ∷ ("发包载体", "PacketCarrier")
    ∷ ("模组字典池", "ModMapPool")
    ∷ ("归还模组字典池", "ReleaseModMap")
    ∷ ("池", "vPool")
    ∷ ("发送洞穴参数", "PostCavesTelemetry")
    ∷ ("防超时客户端", "GatedHttpClient")
    ∷ ("主动触发更新检测", "TriggerUpdateCheck")
    ∷ ("剩余", "Remaining")
    ∷ ("块尾", "ChunkEnd")
    ∷ ("流处理错误", "StreamErr")
    ∷ ("已写总数", "TotalWritten")
    ∷ []
