-- ===== src/Startup/Order.antt =====
-- What the start completes, and in which order.
use dst_nucleus.Prelude.{
  [], ◌∷◌, ℕ, Bool, false, Bytes, Option, ◌≡◌, ◌≢◌, ◌≤◌, ◌↔◌, refl, arith, ltb, not, ◌&&◌,
  if◌then◌else◌, true, List, ap, ◌++◌, codes, ◌∙◌,
}
use dst_nucleus.Startup.Boot.{
  BootConf, BootStep, updates_game, updates_mods, copies, writes, boot_steps, token_steps,
}
use dst_nucleus.Startup.{
  Settings, Started, start_up, complete_dirs, init_paths, launch, default_files, default_root,
  check_linux_env, cluster_file,
}

-- Where the copies go.
abbrev pub copied_to : List BootStep → List Bytes
copied_to [] = []
copied_to (updates_game ∷ steps) = copied_to steps
copied_to (updates_mods ∷ steps) = copied_to steps
copied_to (copies source target ∷ steps) = target ∷ copied_to steps
copied_to (writes path text ∷ steps) = copied_to steps

-- The files of the mods and the worlds, as the endpoints and the parsers know them.
abbrev pub copied_places : Started → List Bytes
copied_places r =
    r.settings.lua_target ∷ r.places.master_mods ∷ r.places.caves_mods ∷ r.places.master_world
    ∷ r.places.caves_world ∷ []

copied_to-token :
    (path token : Bytes) (rest : List BootStep)
    → copied_to (token_steps path token ++ rest) ≡ copied_to rest
copied_to-token path [] rest = refl
copied_to-token path (c ∷ token) rest = refl

copied_to-updates : (mods : Bool) → copied_to (if mods then updates_mods ∷ [] else []) ≡ []
copied_to-updates true = refl
copied_to-updates false = refl

-- The targets in front of the token.
abbrev placed : Settings → List Bytes → List Bytes
placed s rest =
    let p = init_paths s in
    s.lua_target ∷ p.master_mods ∷ p.caves_mods ∷ p.master_world ∷ p.caves_world ∷ rest

token_last :
    (s : Settings) (b : BootConf) (mods : Bool)
    → let path = cluster_file s.storage_root s.cluster_name (codes "cluster_token.txt" ∷ []) in
      copied_to (token_steps path b.cluster_token ++ (if mods then updates_mods ∷ [] else [])) ≡ []
token_last s b mods =
    let path = cluster_file s.storage_root s.cluster_name (codes "cluster_token.txt" ∷ []) in
    copied_to-token path b.cluster_token (if mods then updates_mods ∷ [] else [])
    ∙ copied_to-updates mods

copied_to-boot_steps :
    (s : Settings) (b : BootConf) (game mods : Bool)
    → let p = init_paths s in
      copied_to (boot_steps s b game mods)
      ≡ s.lua_target ∷ p.master_mods ∷ p.caves_mods ∷ p.master_world ∷ p.caves_world ∷ []
unfolding boot_steps init_paths
copied_to-boot_steps s b true mods = ap (placed s) (token_last s b mods)
copied_to-boot_steps s b false mods = ap (placed s) (token_last s b mods)

-- What holds of the settings `s` and of what they were completed to.
pub record Completed (home : Option Bytes) (s : Settings) (r : Started) : Type 0 where
  pub interval : 60 ≤ r.settings.check_interval
  pub interval_kept : 60 ≤ s.check_interval → r.settings.check_interval ≡ s.check_interval
  pub root_missing : s.storage_root ≡ [] → r.settings.storage_root ≡ default_root home
  pub root_kept : s.storage_root ≢ [] → r.settings.storage_root ≡ s.storage_root
  pub places_early : r.places ≡ init_paths (record r.settings { storage_root = s.storage_root })
  pub places : s.storage_root ≢ [] → r.places ≡ init_paths r.settings
  pub boot :
      s.storage_root ≢ []
      → (b : BootConf) (game mods : Bool)
      → copied_to (boot_steps r.settings b game mods) ≡ copied_places r
  pub written : r.written ≡ default_files r.settings
  pub arguments :
      r.arguments ≡ (launch r.settings.cluster_name (default_root home) s.storage_root).1

interval_le : (n : ℕ) → 60 ≤ (if ltb n 60 then 60 else n)
interval_le n = ground arith

interval_kept : (n : ℕ) → 60 ≤ n → (if ltb n 60 then 60 else n) ≡ n
interval_kept n h = ground arith

started_with :
    (home : Option Bytes) (s : Settings) (root : Bytes)
    → let t : Settings = record s { storage_root = root } in Completed home t (start_up home t)
unfolding start_up complete_dirs launch init_paths
started_with home s [] = record {
  interval = interval_le s.check_interval;
  interval_kept = interval_kept s.check_interval;
  root_missing = λ _. refl;
  root_kept = λ n. absurd (n refl);
  places_early = refl;
  places = λ n. absurd (n refl);
  boot = λ n b game mods. absurd (n refl);
  written = refl;
  arguments = refl;
}
started_with home s (c ∷ root) = record {
  interval = interval_le s.check_interval;
  interval_kept = interval_kept s.check_interval;
  root_missing = λ n. absurd cc;
  root_kept = λ _. refl;
  places_early = refl;
  places = λ _. refl;
  boot = λ n b game mods.
      copied_to-boot_steps (start_up home (record s { storage_root = c ∷ root })).settings b game
        mods;
  written = refl;
  arguments = refl;
}

-- The start of the program: the interval of the checks for updates is at least 60 seconds, and kept if it
-- was; a missing root of the storage becomes the default one, which the files of the defaults and
-- the game use; but the paths of the files are made before, from the root as it was configured. If it
-- is configured, they lie in the storage, and the copies in front of each boot go to them.
pub start_up-Completed : (home : Option Bytes) (s : Settings) → Completed home s (start_up home s)
start_up-Completed home s = started_with home s s.storage_root

-- The check of the environment stops the program just if it has not already passed a user that is root and
-- has no permission for that, the check for the 32 bit loader is not skipped, and the loader is missing.
pub check_linux_env_iff :
    (is_root skip_lib32 permit_root has_loader : Bool)
    → (check_linux_env is_root skip_lib32 permit_root has_loader ≡ false)
      ↔ ((is_root && not permit_root ≡ false) × (skip_lib32 ≡ false) × (has_loader ≡ false))
unfolding check_linux_env
check_linux_env_iff r s p h = ground arith
