-- ===== src/Shop/Status.antt =====
-- `updateStatus` of internal/controller/shop_controller.go
use shop_operator.Base.{ℕ, String, ◌<>◌, Bool, true, false}
use shop_operator.Base.Text.{decimal}
use shop_operator.Api.{Shop, ConditionStatus}
use shop_operator.Kube.Objects.{shop}
use shop_operator.Kube.Prog.{update_status, M, request}
use shop_operator.Kube.Library.{Library}
use shop_operator.Shop.Database.{DatabaseState, operator_missing, provisioning, ready}

-- The switch of `updateStatus`: status, reason and message of the condition.
unfoldable pub verdict : ℕ → Bool → DatabaseState → ConditionStatus × String × String
verdict replicas true db = (
  ConditionStatus.condition_true,
  "ShopReady",
  "Shop app is running with " <> decimal replicas <> " replicas",
)
verdict replicas false operator_missing = (
  ConditionStatus.condition_false, "DatabaseOperatorMissing",
  "The database operator (CNPG for standard, Redis for light) is not installed in the cluster",
)
verdict replicas false provisioning = (
  ConditionStatus.condition_false, "DatabaseProvisioning",
  "Waiting for the database to become ready",
)
verdict replicas false ready =
    (ConditionStatus.condition_false, "DeploymentProgressing", "Shop app Deployment is rolling out")

unfoldable pub observed_shop : Library → Shop → ℕ → Bool → DatabaseState → Shop
unfolding verdict
observed_shop lib s replicas is_ready db =
    let v = verdict replicas is_ready db in
    record s {
      status = record {
        conditions = lib.set_status_condition s.status.conditions (record {
          type = "Available";
          status = v.0;
          observed_generation = s.metadata.generation;
          reason = v.1;
          message = v.2;
        });
        ready = is_ready;
        replicas = replicas;
      };
    }

-- The Shop is from then on as the server answers.
unfoldable pub write_status : Library → Shop → ℕ → Bool → DatabaseState → M Shop
unfolding observed_shop
write_status lib s replicas is_ready db =
    request (update_status shop (observed_shop lib s replicas is_ready db))
