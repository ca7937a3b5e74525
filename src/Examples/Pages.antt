-- ===== src/Examples/Pages.antt =====
-- Concrete runs of web/src/routes/Updates.tsx, web/src/routes/Network.tsx and
-- web/src/routes/Containers.tsx.
use Prim.Native.Nat.Ordering.{eq}
use control_room.Base.{
  suc, String, true, false, List, [], ◌∷◌, ◌++◌, none, some, ◌≡◌, refl, arith, eq_iff,
}
use control_room.Queries.Types.{ContainerSummary, UpdatePackage}
use control_room.Jobs.{running, succeeded, start}
use control_room.Jobs.Laws.{state_of}
use control_room.Updates
use control_room.Updates.{
  Page, open_page, type_reboot, press_reboot, reboot_failed, rank, has_ended, apply,
}
use control_room.Updates.Laws.{
  Follows, by_frame, by_success, of_job, end_refetches_once, late_check, late_check_shown,
}
use control_room.Network
use control_room.Network.{FirewallCard, press_delete}
use control_room.Network.Renumber.{Rule, served, listed, place, stale_place_deleted}
use control_room.Examples.Strokes.{print, remove, strokes-Removes}
use control_room.Containers.{filtered, group_by_project}
use control_room.Containers.Groups.{Groups}
use control_room.Containers.Order.{group_by_project-Groups}

-- A page that follows a job.
following : Page
unfolding open_page start
following = record open_page { job_id = some "7"; job = start }

follows : Follows "7" running following
unfolding following open_page start
follows = record { id = refl; named = ground (arith, eq_iff "7" ""); shows = refl; live = refl }

end_refetches_once_example :
    (Updates.run (of_job (state_of succeeded ∷ state_of succeeded ∷ [])) following).refetches
    ≡ suc following.refetches
end_refetches_once_example =
    end_refetches_once "7" succeeded (state_of succeeded) (state_of succeeded ∷ []) following
      follows by_success (by_frame, (by_frame, tt))

abbrev openssl : UpdatePackage
openssl = record {
  name = "openssl";
  source = "jammy-security";
  new_version = "2";
  old_version = "1";
  arch = "amd64";
  security = true;
}

-- A page with one package.
offering : Page
unfolding open_page
offering = record open_page { packages = openssl ∷ [] }

late_check_shown_example :
    let t = Updates.run (late_check "1" "2") offering in
    (t.drawer ≡ some apply)
    × (t.job_id ≡ some "2")
    × (t.job ≡ start)
    × (t.applies ≡ suc offering.applies)
unfolding offering open_page
late_check_shown_example =
    late_check_shown "1" "2" openssl [] offering (ground (arith, eq_iff "2" ""))
      (ground (arith, eq_iff "1" "2")) refl refl refl

abbrev rebooting : List Updates.Event
rebooting =
    press_reboot
    ∷ type_reboot "reboot"
    ∷ press_reboot
    ∷ type_reboot "REBOOT"
    ∷ press_reboot
    ∷ press_reboot
    ∷ reboot_failed
    ∷ press_reboot
    ∷ []

abbrev rule : String → Rule
rule port = record { target = port; action = "ALLOW IN"; source = "Anywhere" }

abbrev card : FirewallCard
card = record { status = none; toggling = false; sent = [] }

stale_place_deleted_example :
    served print remove
      (Network.run
        (press_delete (listed print remove (place print remove []) (rule "22")) true
          ∷ press_delete
              (listed print remove (place print remove ([] ++ (rule "22" ∷ []))) (rule "23"))
              true
          ∷ [])
        card).sent
      ([] ++ (rule "22" ∷ ([] ++ (rule "23" ∷ rule "443" ∷ []))))
    ≡ [] ++ ([] ++ (rule "23" ∷ []))
stale_place_deleted_example =
    stale_place_deleted print remove [] [] (rule "22") (rule "23") (rule "443") [] card
      strokes-Removes refl

abbrev web : ContainerSummary
web = record {
  id = "a1";
  name = "web";
  image = "nginx";
  state = "running";
  status = "Up 2 hours";
  created_at = "";
  ports = [];
  labels = [];
  compose_project = "shop";
  compose_service = "web";
}

abbrev all_containers : List ContainerSummary
all_containers =
    record web { id = "b2"; name = "tool"; compose_project = ""; compose_service = "" }
    ∷ web
    ∷ record web { id = "c3"; name = "db"; compose_service = "db" }
    ∷ []

group_by_project-Groups_example :
    Groups
      (filtered (λ s. s) (λ a b. eq) all_containers "")
      (group_by_project (λ s. s) (λ a b. eq) all_containers "")
group_by_project-Groups_example = group_by_project-Groups (λ s. s) (λ a b. eq) all_containers ""
