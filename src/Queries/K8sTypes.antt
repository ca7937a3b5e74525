-- ===== src/Queries/K8sTypes.antt =====
-- The objects of a cluster, as web/src/lib/k8s.ts types the answers of the server. A union of texts is
-- a `String`, and an object that serves as a map a list of pairs.
use control_room.Base.{String, Bool, List, Option}
use control_room.Queries.Types.{Number}

pub record K8sCondition : Type 0 where
  pub type : String
  pub status : String
  pub reason : String
  pub message : String
  pub last_transition_time : String

pub record K8sEvent : Type 0 where
  pub type : String
  pub reason : String
  pub message : String
  pub source : String
  pub count : Number
  pub first : String
  pub last : String

pub record K8sTaint : Type 0 where
  pub key : String
  pub value : String
  pub effect : String

pub record K8sContainerStatus : Type 0 where
  pub name : String
  pub image : String
  pub ready : Bool
  pub restart_count : Number
  pub state : String
  pub reason : String
  pub started : String

pub record K8sEndpointAddr : Type 0 where
  pub ip : String
  pub node_name : String
  pub ready : Bool

pub record NodeAddress : Type 0 where
  pub type : String
  pub address : String

pub record Resources : Type 0 where
  pub cpu : String
  pub memory : String
  pub pods : String

pub record K8sNode : Type 0 where
  pub name : String
  pub status : String
  pub roles : List String
  pub version : String
  pub os : String
  pub arch : String
  pub addresses : List NodeAddress
  pub capacity : Resources
  pub age : String

pub record K8sNodeDetail : Type 0 where
  pub node : K8sNode
  pub conditions : List K8sCondition
  pub allocatable : Resources
  pub taints : List K8sTaint
  pub events : List K8sEvent

pub record ReadyReplicas : Type 0 where
  pub current : Number
  pub desired : Number

pub record K8sWorkload : Type 0 where
  pub kind : String
  pub name : String
  pub namespace : String
  pub ready : ReadyReplicas
  pub images : List String
  pub age : String
  pub labels : List (String × String)

pub record K8sWorkloadDetail : Type 0 where
  pub workload : K8sWorkload
  pub conditions : List K8sCondition
  pub selector : List (String × String)
  pub strategy : String
  pub events : List K8sEvent

pub record ReadyContainers : Type 0 where
  pub current : Number
  pub total : Number

pub record K8sPod : Type 0 where
  pub name : String
  pub namespace : String
  pub status : String
  pub ready : ReadyContainers
  pub restarts : Number
  pub node : String
  pub pod_ip : String
  pub age : String
  pub images : List String

pub record K8sPodDetail : Type 0 where
  pub pod : K8sPod
  pub conditions : List K8sCondition
  pub containers : List K8sContainerStatus
  pub node_name : String
  pub qos_class : String
  pub events : List K8sEvent

pub record ServicePort : Type 0 where
  pub name : String
  pub port : Number
  pub target_port : String
  pub protocol : String
  pub node_port : Option Number

pub record K8sService : Type 0 where
  pub name : String
  pub namespace : String
  pub type : String
  pub cluster_ip : String
  pub external_ip : String
  pub ports : List ServicePort
  pub age : String

pub record K8sServiceDetail : Type 0 where
  pub service : K8sService
  pub endpoints : List K8sEndpointAddr
  pub selector : List (String × String)
  pub events : List K8sEvent

pub record K8sNamespace : Type 0 where
  pub name : String
  pub status : String
  pub age : String

pub record K8sConfigMap : Type 0 where
  pub name : String
  pub namespace : String
  pub keys : List String
  pub age : String

pub record K8sConfigMapDetail : Type 0 where
  pub configmap : K8sConfigMap
  pub labels : List (String × String)
  pub annotations : List (String × String)
  pub content : List (String × String)
  pub binary_keys : List String
  pub events : List K8sEvent

pub record K8sSecret : Type 0 where
  pub name : String
  pub namespace : String
  pub type : String
  pub keys : List String
  pub age : String

pub record K8sSecretDetail : Type 0 where
  pub secret : K8sSecret
  pub labels : List (String × String)
  pub annotations : List (String × String)
  pub content : List (String × String)
  pub events : List K8sEvent
