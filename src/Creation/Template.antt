-- ===== src/Creation/Template.antt =====
-- pulp-cell/template.go: what a template declares, and what `Create` makes of it before it allocates.
-- The copy of `deepCopyContainer` is the value itself here.
use bananagine.Prelude.{
  String, ℤ, Bool, false, not, ◌&&◌, ◌||◌, string_eq, ◌==◌, Option, none, some, List, [], ◌∷◌,
  if◌then◌else◌,
}
use bananagine.Map.{Map, get, put}
use bananagine.Text.Strings.{contains, replace_all}
use bananagine.Allocation.Capacity.{Float64}
use bananagine.Resources.{entries}

pub record PortSpec : Type 0 where
  pub host : ℤ
  pub container : ℤ
  pub protocol : String
  pub name : String
  pub range : String

pub record EngineOption : Type 0 where
  pub value : String
  pub platforms : List String

module _ (f : Float64) where
  open f use {Amount}

  pub record ContainerSpec : Type 0 where
    pub image : String
    pub name : String
    pub environment : Option (Map String String)
    pub volumes : Option (Map String String)
    pub ports : List PortSpec
    pub network : String
    pub ip : String
    pub cpu_limit : Amount
    pub memory_limit : ℤ
    pub disk_io_read_bps : ℤ
    pub disk_io_write_bps : ℤ
    pub disk_size_limit : ℤ
    pub pids_limit : ℤ
    pub memory_swap : ℤ

  -- `engines` is Config.Engines, `pre_start` is Hooks.PreStart.
  pub record Template : Type 0 where
    pub name : String
    pub container : ContainerSpec
    pub server : Option (Map String String)
    pub pre_start : String
    pub engines : List EngineOption

-- env[name] of a map that may be nil: "" where it is missing.
abbrev pub env_value : Option (Map String String) → String → String
env_value env name = elim (get (entries env) name) [ none ↦ "" | some v ↦ v ]

unfoldable pub mem_text : String → List String → Bool
mem_text s [] = false
mem_text s (t ∷ ts) = s == t || mem_text s ts

-- The platforms of the first engine with the chosen value.
unfoldable pub platforms_of : String → List EngineOption → List String
platforms_of engine [] = []
platforms_of engine (e ∷ es) = if e.value == engine then e.platforms else platforms_of engine es

unfoldable pub active_platforms : List EngineOption → Option (Map String String) → List String
unfolding platforms_of
active_platforms engines env =
    let base = platforms_of (env_value env "ENGINE") engines in
    if env_value env "_CROSSPLAY" == "true" then "bedrock" ∷ base else base

unfoldable pub keep_ports : List String → List PortSpec → List PortSpec
unfolding mem_text
keep_ports active [] = []
keep_ports active (p ∷ ps) =
    let rest = keep_ports active ps in
    if (p.name == "java" || p.name == "bedrock") && not (mem_text p.name active)
    then rest
    else p ∷ rest

-- filterCreatePlatforms. With no active platform every port stays.
unfoldable pub filter_create_platforms :
    List EngineOption → Option (Map String String) → List PortSpec → List PortSpec
unfolding active_platforms keep_ports
filter_create_platforms [] env ports = ports
filter_create_platforms (e ∷ es) env ports = elim (active_platforms (e ∷ es) env) [
  | [] ↦ ports
  | p ∷ ps ↦ keep_ports (p ∷ ps) ports
]

abbrev pub server_id_mark : String
server_id_mark = "{{SERVER_ID}}"

-- expandCreateVolumes: each host path with the mark is rewritten once.
unfoldable pub expand_volumes : String → Map String String → Map String String
unfolding contains replace_all
expand_volumes server_id [] = []
expand_volumes server_id ((host_path, container_path) ∷ rest) =
    let rest' = expand_volumes server_id rest in
    if contains host_path server_id_mark
    then put rest' (replace_all host_path server_id_mark server_id) container_path
    else put rest' host_path container_path
