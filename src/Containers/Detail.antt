-- ===== src/Containers/Detail.antt =====
-- The sheet of web/src/components/containers/ContainerDetail.tsx: what it asks for, the fields and
-- sections that it shows, and whether the secrets of its environment are revealed.
pub mod Masked
use control_room.Base.{
  or_dash, String, Bool, true, false, not, ◌&&◌, List, [], ◌∷◌, ◌++◌, map, Option, none, some, ◌is◌,
  ◌<>◌, if◌then◌else◌, or_default,
}
use control_room.Queries.{Query, container_detail}
use control_room.Queries.Types.{ContainerDetail, ContainerMount, ContainerNetworkAttach}
use control_room.Containers.Env.{Line, lines}

-- `revealed` is the state of `EnvSection`, which is false while that is not rendered.
pub record View : Type 0 where
  pub id : Option String
  pub detail : Option ContainerDetail
  pub revealed : Bool

-- `select` and `close` are the page's choice of a container; `loaded` is what the query has, which may be
-- kept from before when a container is selected.
pub data Event : Type 0 where
  select : String → Option ContainerDetail → Event
  loaded : Option ContainerDetail → Event
  close toggle : Event

abbrev pub closed : View
closed = record { id = none; detail = none; revealed = false }

-- `useContainerDetail(open ? id : null)`
abbrev pub asks : View → Query
asks v = container_detail v.id

-- `list?.length > 0`
unfoldable pub is_filled {ℓ} : {A : Type ℓ} → List A → Bool
is_filled [] = false
is_filled (x ∷ xs) = true

-- Whether `EnvSection` is rendered.
unfoldable pub has_env : Option ContainerDetail → Bool
unfolding is_filled
has_env none = false
has_env (some d) = is_filled d.env

-- The section keeps its state as long as it is rendered without a break.
unfoldable pub with_detail : Option ContainerDetail → View → View
unfolding has_env
with_detail d v = record v { detail = d; revealed = v.revealed && has_env v.detail && has_env d }

unfoldable pub step : Event → View → View
unfolding with_detail
step (select id d) v = with_detail d (record v { id = some id })
step (loaded d) v = elim v.id [ none ↦ v | some _ ↦ with_detail d v ]
step close v = with_detail none (record v { id = none })
step toggle v = if has_env v.detail then record v { revealed = not v.revealed } else v

unfoldable pub run : List Event → View → View
run [] v = v
run (e ∷ es) v = run es (step e v)

pub record Field : Type 0 where
  pub label : String
  pub value : String

unfoldable pub health_field : Option String → List Field
health_field none = []
health_field (some h) = if h is "" then [] else record { label = "Health"; value = h } ∷ []

unfoldable pub fields : ContainerDetail → List Field
unfolding health_field
fields d =
    record { label = "ID"; value = d.summary.id }
    ∷ record { label = "Compose"; value = or_dash d.summary.compose_project }
    ∷ record { label = "Service"; value = or_dash d.summary.compose_service }
    ∷ record { label = "Restart"; value = or_dash d.restart_policy }
    ∷ health_field d.health

-- `m.source → m.destination · m.type rw`
unfoldable pub mount_text : ContainerMount → String
mount_text m =
    m.source <> (" → " <> (m.destination <> (" · " <> (m.type <> (if m.rw then " rw" else " ro")))))

unfoldable pub network_text : ContainerNetworkAttach → String
network_text n = n.name <> (" · " <> or_dash n.ip_address)

-- `command.join(' ')`
unfoldable pub joined : List String → String
joined [] = ""
joined (s ∷ []) = s
joined (s ∷ t ∷ ss) = s <> (" " <> joined (t ∷ ss))

-- What the sheet shows of a container that is loaded; a list that is empty has no section.
pub record Shown : Type 0 where
  pub fields : List Field
  pub command : String
  pub env : List Line
  pub mounts : List String
  pub networks : List String

unfoldable pub shown : View → Option Shown
unfolding fields joined mount_text network_text lines
shown v = elim v.detail [
  | none ↦ none
  | some d ↦ some (record {
    fields = fields d;
    command = joined d.command;
    env = lines v.revealed d.env;
    mounts = map mount_text d.mounts;
    networks = map network_text d.networks;
  })
]
