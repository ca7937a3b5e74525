-- ===== src/Examples/Objects.antt =====
-- Concrete runs of the sheets of web/src/components/k8s.
use Prim.Native.Nat.Ordering.{eq}
use control_room.Base.{
  String, true, false, List, [], ◌∷◌, ◌++◌, map, Option, none, some, ◌≡◌, ◌≢◌, refl, All, Ordering,
  ◌is◌, if◌then◌else◌,
}
use control_room.Queries.K8sTypes.{K8sSecretDetail}
use control_room.Queries.Mutations.{scale_workload}
use control_room.Cluster.Secret
use control_room.Cluster.Secret.{
  Row, Shown, masked, idle, closed_view, close, select, loaded, press_all, press_row, cells,
  find_row, display,
}
use control_room.Cluster.Secret.Reveal.{masked_until_revealed}
use control_room.Cluster.Secret.Hiding.{hide_reveals}
use control_room.Cluster.Workload
use control_room.Cluster.Workload.{
  press_scale, type_replicas, confirm_scale, can_scale, is_selected,
}
use control_room.Cluster.Workload.Scaling.{blank_scales_to_zero}

abbrev detail : K8sSecretDetail
detail = record {
  secret = record {
    name = "db";
    namespace = "shop";
    type = "Opaque";
    keys = "password" ∷ [];
    age = "3d";
  };
  labels = [];
  annotations = [];
  content = ("password", "hunter2") ∷ [];
  events = [];
}

-- A parser that accepts nothing, and an order that keeps the keys as they come.
abbrev no_json : String → Option String
no_json v = none

abbrev as_given : String → String → Ordering
as_given a b = eq

-- The secret is opened and revealed.
abbrev peeking : List Secret.Event
peeking = select "shop" "db" ∷ loaded detail ∷ press_all ∷ []

masked_until_revealed_example :
    All
      (λ (c : String × Shown). c.1 ≡ masked)
      (cells no_json as_given (
        Secret.run no_json as_given
          (peeking ++ (close ∷ select "shop" "db" ∷ (loaded detail ∷ [])))
          closed_view))
masked_until_revealed_example =
    masked_until_revealed no_json as_given peeking "shop" "db" (loaded detail ∷ []) closed_view
      (tt, tt)

abbrev row : Row
row = record { secret_key = "password"; value = "hunter2"; revealed = false; copy_state = idle }

-- The secret with all values revealed.
abbrev open_view : Secret.View
open_view = record {
  secret = some ("shop", "db");
  reveal_all = true;
  detail = some detail;
  rows = row ∷ [];
}

hide_reveals_example :
    (cells no_json as_given (Secret.run no_json as_given (press_row "password" ∷ []) open_view)
      ≡ cells no_json as_given open_view)
    × (let t = Secret.run no_json as_given (press_row "password" ∷ press_all ∷ []) open_view in
        (t.reveal_all ≡ false)
        × (find_row "password" t.rows ≡ some (record row { revealed = true }))
        × (display no_json as_given false (record row { revealed = true }) ≢ masked))
unfolding find_row
hide_reveals_example =
    hide_reveals no_json as_given "password" row detail open_view refl refl refl refl

-- A deployment of three replicas.
abbrev deployment : Workload.View
deployment = record {
  namespace = "shop";
  kind = "Deployment";
  name = "web";
  detail = some (record {
    workload = record {
      kind = "Deployment";
      name = "web";
      namespace = "shop";
      ready = record { current = "3"; desired = "3" };
      images = [];
      age = "3d";
      labels = [];
    };
    conditions = [];
    selector = [];
    strategy = "RollingUpdate";
    events = [];
  });
  restart_open = false;
  scale_open = false;
  scale_replicas = "0";
  editor_open = false;
  restarting = false;
  scaling = false;
  sent = [];
}

-- `Number` of a text that is blank or a number already.
abbrev to_number : String → String
to_number t = if t is "" then "0" else t

blank_scales_to_zero_example :
    (Workload.run to_number
      (press_scale ∷ (map type_replicas (("5" ∷ []) ++ ("" ∷ [])) ++ (confirm_scale ∷ [])))
      deployment).sent
    ≡ scale_workload "shop" "Deployment" "web" "0" ∷ []
unfolding can_scale is_selected
blank_scales_to_zero_example =
    blank_scales_to_zero to_number ("5" ∷ []) deployment refl refl refl refl
