-- ===== src/Translator/Third.antt =====
-- translator.go, a part of `dict`.
use dst_nucleus.Prelude.{List, [], ◌∷◌, String}

abbrev pub third_entries : List (String × String)
third_entries =
    ("实时输出流", "LiveStream")
    ∷ ("提示消息", "PromptMsg")
    ∷ ("展示地址", "ViewAddr")
    ∷ ("接口地址", "BindAddr")
    ∷ ("控制器", "Controller")
    ∷ ("文件", "vFile")
    ∷ ("文件集", "FileSet")
    ∷ ("文件索引", "FileIdx")
    ∷ ("文件读写原子锁", "FileIOGate")
    ∷ ("文件路径", "FilePath")
    ∷ ("当前文件", "CurrFile")
    ∷ ("当前盘面内容", "CurrDiskContent")
    ∷ ("实际路径", "RealPath")
    ∷ ("强转成功", "CastOk")
    ∷ ("投递成功", "DeliverOk")
    ∷ ("就绪标记", "ReadyFlag")
    ∷ ("定时器", "Timer")
    ∷ ("定时器间隔", "TickerInterval")
    ∷ ("客户端", "vClient")
    ∷ ("当前槽位", "CurrSlot")
    ∷ ("当前间隔", "CurrInterval")
    ∷ ("实际向量数", "ActualVecs")
    ∷ ("实际长度", "ActualLen")
    ∷ ("按行分割", "SplitByLine")
    ∷ ("暴动状态", "NightmareState")
    ∷ ("暴动阶段", "NightmarePhase")
    ∷ ("熊大", "Bearger")
    ∷ ("熊大倒计时", "BeargerTimer")
    ∷ ("果蝇王", "FruitFlyLord")
    ∷ ("果蝇王倒计时", "FruitFlyLordTimer")
    ∷ ("昼夜阶段", "DayPhase")
    ∷ ("月相", "MoonPhase")
    ∷ ("月相状态", "MoonState")
    ∷ ("是否下雨", "IsRaining")
    ∷ ("是否下雪", "IsSnowing")
    ∷ ("游戏内状态", "GameState")
    ∷ ("新K", "NewKTime")
    ∷ ("新U", "NewUTime")
    ∷ ("新MasterTicks", "NewMasterTicks")
    ∷ ("时间差", "TimeDelta")
    ∷ ("时间差纳秒", "DeltaNanos")
    ∷ ("滴答差", "TickDelta")
    ∷ ("时间数字", "TimeStr")
    ∷ ("时间锚点", "TimeAnchor")
    ∷ ("核心CPU指标", "CoreCpuMetrics")
    ∷ ("检查更新间隔", "UpdateCheckInterval")
    ∷ ("检查间隔", "CheckInterval")
    ∷ ("栈缓冲", "StackBuf")
    ∷ ("新缓冲", "vNewBuffer")
    ∷ ("新游标", "NewCursor")
    ∷ ("检测游标", "ProbeCursor")
    ∷ ("新容量", "NewCap")
    ∷ ("池化指针", "PooledPtr")
    ∷ ("物理上限", "HardLimit")
    ∷ ("物理引擎", "PhysicsEngine")
    ∷ ("深度", "Depth")
    ∷ ("温度高位", "TempHi")
    ∷ ("测试矩阵", "TestMatrix")
    ∷ ("死亡传感器", "DoomSensor")
    ∷ ("模组正在更新", "ModUpdatingGate")
    ∷ ("模组正在繁忙", "ModBusyGate")
    ∷ ("游戏正在更新", "GameUpdatingGate")
    ∷ ("正在手动关闭原子锁", "ManualHaltGate")
    ∷ ("正在重启原子锁", "RebootingGate")
    ∷ ("洞穴就绪原子锁", "CavesReadyGate")
    ∷ ("洞穴OK", "CavesOk")
    ∷ ("洞穴world配置文件路径", "CavesWorldConfPath")
    ∷ ("洞穴世代同步链路", "CavesEpochLink")
    ∷ ("洞穴世代观察者", "CavesEpochWatcher")
    ∷ ("洞穴命令通道", "CavesCmdPipe")
    ∷ ("洞穴寄生虫心跳", "CavesParasitePulse")
    ∷ ("洞穴当前世代", "CurrCavesEpoch")
    ∷ ("洞穴探针轮询器", "CavesRadar")
    ∷ ("洞穴接收器存活", "CavesRxAlive")
    ∷ ("洞穴日志路径", "CavesLogPath")
    ∷ ("洞穴状态上报端点", "CavesStateEndpoint")
    ∷ ("洞穴输入", "CavesStdin")
    ∷ ("洞穴输出", "CavesStdout")
    ∷ ("洞穴进程", "CavesProc")
    ∷ ("洞穴错误", "CavesStderr")
    ∷ ("检查linux运行环境", "CheckLinuxEnv")
    ∷ ("游戏主程序路径", "GameBinPath")
    ∷ ("游戏程序目录", "GameBinDir")
    ∷ ("模组Lua更新文件目标路径", "ModLuaTarget")
    ∷ ("模组Lua更新备份", "ModLuaBackup")
    ∷ ("模组配置文件路径", "ModConfPath")
    ∷ ("源流", "SrcStream")
    ∷ ("源码", "SrcCode")
    ∷ ("源路径", "SrcPath")
    ∷ ("源文件", "SrcFile")
    ∷ ("校验配置是否为原始默认版本", "IsFactoryDefault")
    ∷ ("是否写入默认配置", "WriteDefaultConf")
    ∷ ("是否为变量字符", "IsVarChar")
    ∷ ("是标识符", "IsIdent")
    ∷ ("是纯数字", "IsNumeric")
    ∷ ("纯数字", "vNumeric")
    ∷ ("标签", "vTag")
    ∷ ("标识符", "Ident")
    ∷ ("有效ID", "ValidID")
    ∷ ("有效数字", "ValidNum")
    ∷ ("有效数据", "ValidData")
    ∷ ("模组ID", "ModID")
    ∷ ("模组列表", "ModList")
    ∷ ("最终指令", "FinalCmd")
    ∷ ("最终更新名单", "FinalUpdateList")
    ∷ ("最终长度", "FinalLen")
    ∷ ("极速二进制协议头", "RawProtoMagic")
    ∷ ("极速网关", "SonicGateway")
    ∷ ("模拟主体", "MockBody")
    ∷ ("模拟方法", "MockMethod")
    ∷ ("模拟路由", "MockRoute")
    ∷ ("日志状态", "LogState")
    ∷ ("日志读取池", "LogReaderPool")
    ∷ ("标准输出句柄", "StdoutHandle")
    ∷ ("本地时间", "LocalTime")
    ∷ ("本地时间表", "LocalEpochMap")
    ∷ ("本地版本", "LocalVer")
    ∷ ("版本号", "VerNum")
    ∷ ("最大重试次数", "MaxRetries")
    ∷ ("清洗命令通道", "FlushCmdPipe")
    ∷ ("核心数", "NumCores")
    ∷ ("核心执行动作", "KernelAction")
    ∷ ("特征ID", "SigID")
    ∷ ("特征_保存完成", "Sig_Saved")
    ∷ ("特征_模拟暂停", "Sig_SimPaused")
    ∷ ("特征_模组过期", "Sig_ModOutdated")
    ∷ ("特征_玩家聊天前缀", "Sig_PlayerChat")
    ∷ ("特征时间", "SigTime")
    ∷ ("特征时间前缀", "SigTimePrefix")
    ∷ ("状态_执行失败", "State_Fail")
    ∷ ("状态_执行成功", "State_OK")
    ∷ ("状态_无资源更新", "State_NoUpdate")
    ∷ ("状态_锁拦截", "State_Locked")
    ∷ ("状态环形阵列", "StateRingBuf")
    ∷ ("状态码", "vStatusCode")
    ∷ ("状态锁", "StateLock")
    ∷ ("环形游标", "RingCursor")
    ∷ ("环形缓冲深度", "RingBufDepth")
    ∷ ("第31位错误标记", "Bit31ErrFlag")
    ∷ ("第7位必须是1", "Bit7MustBe1")
    ∷ []
