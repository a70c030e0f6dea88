-- ===== src/Kube/Reconcile.antt =====
-- The outcome of a reconcile: the `RequeueAfter` of `ctrl.Result` in seconds, if there is one.
use shop_operator.Base.{ℕ, Option, none, if◌then◌else◌}
use shop_operator.Kube.Prog.{Error, is_not_found, M, pure, fail}

abbrev pub Requeue : Type 0
Requeue = Option ℕ

-- `return ctrl.Result{}, client.IgnoreNotFound(err)`
abbrev pub ignore_not_found : Error → M Requeue
ignore_not_found e = if is_not_found e then pure none else fail e
