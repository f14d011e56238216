-- ===== src/Startup/Boot.antt =====
-- main.go, `main`: what its loop does in front of each boot of the shards.
use dst_nucleus.Prelude.{List, [], ◌∷◌, ◌++◌, Bool, Bytes, codes, if◌then◌else◌}
use dst_nucleus.Startup.{Settings, cluster_file}

-- The settings that name what is copied, and the token.
pub record BootConf : Type 0 where
  pub mod_config : Bytes  -- 模组配置文件路径
  pub master_world : Bytes  -- 主世界world配置文件路径
  pub caves_world : Bytes  -- 洞穴world配置文件路径
  pub cluster_token : Bytes

-- The two updates, a copy by `复制文件`, and a write by `原子写文件`.
pub data BootStep : Type 0 where
  updates_game updates_mods : BootStep
  copies : Bytes → Bytes → BootStep
  writes : Bytes → Bytes → BootStep

abbrev pub token_steps : Bytes → Bytes → List BootStep
token_steps path [] = []
token_steps path (c ∷ token) = writes path (c ∷ token) ∷ []

-- With what the two probes find.
unfoldable pub boot_steps : Settings → BootConf → Bool → Bool → List BootStep
unfolding cluster_file
boot_steps s b game mods =
    let file = cluster_file s.storage_root s.cluster_name in
    (if game then updates_game ∷ [] else [])
    ++ (copies s.lua_backup s.lua_target
        ∷ copies b.mod_config (file (codes "Master" ∷ codes "modoverrides.lua" ∷ []))
        ∷ copies b.mod_config (file (codes "Caves" ∷ codes "modoverrides.lua" ∷ []))
        ∷ copies b.master_world (file (codes "Master" ∷ codes "worldgenoverride.lua" ∷ []))
        ∷ copies b.caves_world (file (codes "Caves" ∷ codes "worldgenoverride.lua" ∷ []))
        ∷ (token_steps (file (codes "cluster_token.txt" ∷ [])) b.cluster_token
            ++ (if mods then updates_mods ∷ [] else [])))
