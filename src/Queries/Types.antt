-- ===== src/Queries/Types.antt =====
-- What the server answers, as web/src/lib/system.ts, services.ts, containers.ts, network.ts, updates.ts,
-- settings.ts, logs.ts and api.ts type it. A union of texts is a `String`, and an object that serves as
-- a map a list of pairs.
use control_room.Base.{String, Bool, List, Option}

-- A JSON number, as the text that it was written as.
abbrev pub Number : Type 0
Number = String

pub record SystemHost : Type 0 where
  pub hostname : String
  pub distro : String
  pub kernel : String
  pub arch : String

pub record SystemLoad : Type 0 where
  pub one : Number
  pub five : Number
  pub fifteen : Number

pub record SystemCpu : Type 0 where
  pub model : String
  pub freq_mhz : Number
  pub cores : Number
  pub overall_pct : Number
  pub per_core_pct : List Number

pub record SystemMemory : Type 0 where
  pub total : Number
  pub used : Number
  pub free : Number
  pub available : Number
  pub cached : Number
  pub buffers : Number
  pub swap_total : Number
  pub swap_used : Number

pub record SystemDisk : Type 0 where
  pub mount : String
  pub filesystem : String
  pub total : Number
  pub used : Number
  pub free : Number

pub record SystemTemp : Type 0 where
  pub name : String
  pub label : String
  pub celsius : Number

pub record SystemNet : Type 0 where
  pub name : String
  pub rx_bytes : Number
  pub tx_bytes : Number
  pub rx_rate : Number
  pub tx_rate : Number

pub record SystemOverview : Type 0 where
  pub host : SystemHost
  pub uptime_seconds : Number
  pub load_avg : SystemLoad
  pub cpu : SystemCpu
  pub memory : SystemMemory
  pub disks : List SystemDisk
  pub temperatures : List SystemTemp
  pub network : List SystemNet

pub record SystemCapabilities : Type 0 where
  pub systemd : Bool
  pub docker : Bool
  pub journal : Bool
  pub kubernetes : Bool

pub record ServiceUnit : Type 0 where
  pub name : String
  pub description : String
  pub load_state : String
  pub active_state : String
  pub sub_state : String
  pub unit_file_state : String

pub record ServiceUnitDetail : Type 0 where
  pub unit : ServiceUnit
  pub fragment_path : String
  pub following : String
  pub memory_current : Number
  pub tasks_current : Number
  pub triggers : List String
  pub triggered_by : List String
  pub documentation : List String

pub record ServicesQueryArgs : Type 0 where
  pub search : Option String
  pub type : Option String
  pub state : Option String

pub record ContainerPort : Type 0 where
  pub ip : Option String
  pub private_port : Number
  pub public_port : Option Number
  pub protocol : String

pub record ContainerSummary : Type 0 where
  pub id : String
  pub name : String
  pub image : String
  pub state : String
  pub status : String
  pub created_at : String
  pub ports : List ContainerPort
  pub labels : List (String × String)
  pub compose_project : String
  pub compose_service : String

pub record ContainerMount : Type 0 where
  pub type : String
  pub source : String
  pub destination : String
  pub mode : String
  pub rw : Bool

pub record ContainerNetworkAttach : Type 0 where
  pub name : String
  pub ip_address : String
  pub gateway : String
  pub mac_address : String

pub record ContainerDetail : Type 0 where
  pub summary : ContainerSummary
  pub command : List String
  pub env : List String
  pub mounts : List ContainerMount
  pub networks : List ContainerNetworkAttach
  pub started_at : String
  pub finished_at : String
  pub restart_policy : String
  pub exit_code : Number
  pub health : Option String

pub record InterfaceStats : Type 0 where
  pub rx_bytes : Number
  pub tx_bytes : Number

pub record NetworkInterface : Type 0 where
  pub name : String
  pub mac : String
  pub state : String
  pub mtu : Number
  pub type : Option String
  pub ips : List String
  pub flags : List String
  pub stats : InterfaceStats

pub record UfwRule : Type 0 where
  pub index : Number
  pub target : String
  pub action : String
  pub source : String

pub record UfwStatus : Type 0 where
  pub active : Bool
  pub logging : Option String
  pub default_policy : Option String
  pub rules : List UfwRule

pub record AddRuleSpec : Type 0 where
  pub action : String
  pub port : Option String
  pub protocol : Option String
  pub source : Option String
  pub comment : Option String

pub record UpdatePackage : Type 0 where
  pub name : String
  pub source : String
  pub new_version : String
  pub old_version : String
  pub arch : String
  pub security : Bool

pub record UpdatesListResponse : Type 0 where
  pub packages : List UpdatePackage
  pub reboot_required : Bool

pub record ServerSettings : Type 0 where
  pub addr : String
  pub host_name : Option String
  pub log_level : String
  pub dev_mode : Bool
  pub trust_proxy : Bool
  pub version_check : Bool
  pub session_hours : Number

pub record TlsSettings : Type 0 where
  pub mode : String
  pub acme_host : Option String

pub record BuildSettings : Type 0 where
  pub version : String
  pub commit : String
  pub date : String

pub record SettingsResponse : Type 0 where
  pub server : ServerSettings
  pub tls : TlsSettings
  pub build : BuildSettings

pub record LogQuery : Type 0 where
  pub unit : Option String
  pub priority : Option Number
  pub since : Option String
  pub until : Option String
  pub q : Option String
  pub n : Option Number

pub record MeUser : Type 0 where
  pub id : Number
  pub username : String
  pub role : String
  pub totp_enabled : Bool
  pub created_at : String
