-- ===== src/Translator/Fourth.antt =====
-- translator.go, a part of `dict`.
use dst_nucleus.Prelude.{List, [], ◌∷◌, String}

abbrev pub fourth_entries : List (String × String)
fourth_entries =
    ("纯净代码块", "CleanCodeChunk")
    ∷ ("纯数据", "RawData")
    ∷ ("纯数据载荷", "PurePayload")
    ∷ ("碎片", "Frag")
    ∷ ("碎片组", "FragGroup")
    ∷ ("目标", "Target")
    ∷ ("目标URL", "TargetURL")
    ∷ ("目标偏移", "TargetOffset")
    ∷ ("目标写入路径", "TargetWritePath")
    ∷ ("目标指针", "TargetPtr")
    ∷ ("目标日志文件", "TargetLogFile")
    ∷ ("目标服", "TargetShard")
    ∷ ("目标模组", "TargetMod")
    ∷ ("目标模组列表", "TargetModList")
    ∷ ("目标目录", "TargetDir")
    ∷ ("目标索引", "TargetIdx")
    ∷ ("目标路径", "TargetPath")
    ∷ ("目标路径集", "TargetPaths")
    ∷ ("目标集合", "TargetSet")
    ∷ ("织影者", "Fuelweaver")
    ∷ ("织影者倒计时", "FuelweaverTimer")
    ∷ ("蚁狮踩踏", "AntlionStomp")
    ∷ ("蚁狮踩踏分钟倒计时", "AntlionStompMinTimer")
    ∷ ("蛤蟆", "Toadstool")
    ∷ ("蛤蟆倒计时", "ToadstoolTimer")
    ∷ ("蜂后", "BeeQueen")
    ∷ ("蜂后倒计时", "BeeQueenTimer")
    ∷ ("现在", "vNow")
    ∷ ("生命周期", "LifeCtx")
    ∷ ("终止生命周期", "KillSwitch")
    ∷ ("绑定子进程生命周期", "BindProcLifetime")
    ∷ ("自裁标志", "SuicideFlag")
    ∷ ("缺失的配置", "MissingConf")
    ∷ ("缺换行符", "MissingNL")
    ∷ ("自动启动服务器", "AutoStartServer")
    ∷ ("自动安装", "AutoInstall")
    ∷ ("自动更新定时器间隔", "AutoUpdateTickerInterval")
    ∷ ("自定义等待时间", "CustomWaitTime")
    ∷ ("自身名称", "SelfName")
    ∷ ("磁盘彻底落盘缓冲毫秒数", "DiskFlushDelayMs")
    ∷ ("直连客户端", "DirectClient")
    ∷ ("监听控制台输入", "ListenConsole")
    ∷ ("看门狗", "Watchdog")
    ∷ ("竞速通道", "RacingPipe")
    ∷ ("端口", "Port")
    ∷ ("节点", "Node")
    ∷ ("节点_主世界", "Node_Master")
    ∷ ("节点_主世界_错误", "Node_MasterErr")
    ∷ ("节点_外部工具", "Node_ExtTool")
    ∷ ("节点_洞穴", "Node_Caves")
    ∷ ("节点_洞穴_错误", "Node_CavesErr")
    ∷ ("节点类型", "NodeType")
    ∷ ("节点锚点", "NodeAnchor")
    ∷ ("真实值", "RealVal")
    ∷ ("真实数据编号", "RealDataIdx")
    ∷ ("真实温度", "RealTemp")
    ∷ ("真实的文档路径", "RealDocPath")
    ∷ ("真实请求体", "RealReqBody")
    ∷ ("秒表", "Stopwatch")
    ∷ ("程序路径", "BinPath")
    ∷ ("系统时间", "SysTime")
    ∷ ("系统时间差", "SysTimeDelta")
    ∷ ("系统配置", "SysConf")
    ∷ ("索引", "Idx")
    ∷ ("纳秒差", "NanoDelta")
    ∷ ("绝对温度", "AbsTemp")
    ∷ ("绝对目标目录", "AbsTargetDir")
    ∷ ("绝对起始点", "AbsStart")
    ∷ ("行", "Line")
    ∷ ("行字节", "LineBytes")
    ∷ ("物理缓冲", "PhysBuffer")
    ∷ ("缓冲", "Buffer")
    ∷ ("缓冲指针", "BufPtr")
    ∷ ("解压流", "UnzipStream")
    ∷ ("解压熔断阈值", "UnzipFuseLimit")
    ∷ ("解压目标", "UnzipTarget")
    ∷ ("获取本地模组时间表", "FetchLocalModEpochs")
    ∷ ("获取远程模组更新时间", "FetchRemoteModEpochs")
    ∷ ("获取远程版本号", "FetchRemoteVer")
    ∷ ("获取默认存档根目录", "FetchDefStorageRoot")
    ∷ ("结果", "Result")
    ∷ ("结果集", "ResultSet")
    ∷ ("计算物理调度膨胀", "CalcSchedBloat")
    ∷ ("运行系统资源采集探针", "BootSysProbe")
    ∷ ("采集单进程数据", "PollProcMetrics")
    ∷ ("采集Win32数据", "PollWin32Metrics")
    ∷ ("进程差", "ProcDelta")
    ∷ ("进程状态", "ProcState")
    ∷ ("采样间隔", "SampleInterval")
    ∷ ("起始物理偏移", "StartPhysOffset")
    ∷ ("随父进程退出标志", "PdeathSigFlag")
    ∷ ("设置进程退出信号", "SetProcExitSig")
    ∷ ("进程结束信号", "ProcExitSig")
    ∷ ("进程名称", "ProcName")
    ∷ ("退出通道", "QuitChan")
    ∷ ("触发动作", "FireAction")
    ∷ ("语法树", "AST")
    ∷ ("解析API无符号整型", "ParseApiUint")
    ∷ ("解析API有符号整型", "ParseApiInt")
    ∷ ("解析Modoverrides", "ParseModOverrides")
    ∷ ("解析Setup", "ParseSetup")
    ∷ ("解析二进制包", "ParseRawPacket")
    ∷ ("解析版本号", "ParseVerNum")
    ∷ ("设置位", "SetBit")
    ∷ ("连续内存块", "ContigMemBlock")
    ∷ ("限流读取器", "ThrottleReader")
    ∷ ("读取器", "vReader")
    ∷ ("读取总数", "TotalRead")
    ∷ ("读取行", "ReadLines")
    ∷ ("读取长度", "ReadLen")
    ∷ ("读前状态", "PreReadStat")
    ∷ ("读后状态", "PostReadStat")
    ∷ ("输出文件", "OutFile")
    ∷ ("跨域头", "CorsHead")
    ∷ ("路由", "Route")
    ∷ ("路由器", "Router")
    ∷ ("请求生命周期", "ReqCtx")
    ∷ ("请求载荷", "ReqPayload")
    ∷ ("载荷", "Payload")
    ∷ ("载荷长度", "PayloadLen")
    ∷ ("输出", "vStdout")
    ∷ ("记录的非零世代", "LastValidEpoch")
    ∷ ("远程时间", "RemoteEpoch")
    ∷ ("远程时间表", "RemoteEpochMap")
    ∷ ("远程版本", "RemoteVer")
    ∷ ("超时时间", "vTimeout")
    ∷ ("超时定时器", "TimeoutTicker")
    ∷ ("超时秒表", "TimeoutStopwatch")
    ∷ ("运行主世界", "BootMaster")
    ∷ ("运行洞穴", "BootCaves")
    ∷ ("跳过自检", "SkipCheck")
    ∷ ("跳过linux自检", "SkipLinuxCheck")
    ∷ ("跳过root自检", "SkipRootCheck")
    ∷ ("跳过root", "SkipRoot")
    ∷ ("通用启动参数", "CommonBootArgs")
    ∷ ("靶机", "TargetHost")
    ∷ ("配置文件目录", "ConfDir")
    ∷ ("配置", "Config")
    ∷ ("配置图", "ConfigMap")
    ∷ []
