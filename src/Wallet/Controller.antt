-- ===== src/Wallet/Controller.antt =====
-- internal/controller/wallet_controller.go
use shop_operator.Base.{String, ◌<>◌, Bool, true, false, none, ◌==◌, not, if◌then◌else◌}
use shop_operator.Api.{Wallet, ConditionStatus}
use shop_operator.Kube.Objects.{Key, wallet}
use shop_operator.Kube.Prog.{Result, ok, err, get, update_status, M, request, pure, bind, ◌>>◌}
use shop_operator.Kube.Reconcile.{Requeue, ignore_not_found}
use shop_operator.Kube.Library.{Library}
use shop_operator.Wallet.Address.{is_valid_address}

abbrev pub condition_ready_type : String
condition_ready_type = "Ready"

module _ (lib : Library) where
  unfoldable pub set_status : Wallet → String → Bool → String → String → M Requeue
  set_status w address ready reason message =
      let status =
        if ready then ConditionStatus.condition_true else ConditionStatus.condition_false in
      let conditions = lib.set_status_condition w.status.conditions (record {
        type = condition_ready_type;
        status = status;
        observed_generation = w.metadata.generation;
        reason = reason;
        message = message;
      }) in
      request (
        update_status wallet (record w {
          status = record { conditions = conditions; address = address; ready = ready };
        }))
      >> pure none

  -- The switch of `Reconcile`.
  unfoldable pub judge : Wallet → M Requeue
  unfolding set_status
  judge w =
      if w.spec.address == ""
      then set_status w "" false "AddressMissing" "The shop has no payout address configured"
      else if not (is_valid_address w.spec.address)
      then set_status w "" false "InvalidAddress"
          (lib.quote w.spec.address <> " is not a valid EVM address")
      else set_status w w.spec.address true "AddressAccepted" "Payout address accepted"

  abbrev pub judge_found : Result Wallet → M Requeue
  judge_found (ok w) = judge w
  judge_found (err e) = ignore_not_found e

  unfoldable pub reconcile : Key → M Requeue
  unfolding judge
  reconcile key = bind (request (get wallet key)) judge_found
