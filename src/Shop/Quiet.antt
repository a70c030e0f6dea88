-- ===== src/Shop/Quiet.antt =====
-- A Deployment that is as the Shop wants it is not written again.
use shop_operator.Base.{ℕ, String, ◌≡◌, refl, ◌∙◌, ap, List}
use shop_operator.Api.{Shop}
use shop_operator.Kube.Objects.{Kind, Obj, meta_of, key_of, EnvVar, Deployment, deployment}
use shop_operator.Kube.Prog.{Result, ok, M, get, propagate, ◌>>=◌}
use shop_operator.Kube.Lawful.{SetsController, IsDocumented}
use shop_operator.Kube.Library.{Library, checked, write_back, create_or_update_from}
use shop_operator.Kube.Outcome.{same_key_iff}
use shop_operator.Kube.Run.{Handler, run, run-bind}
use shop_operator.Shop.Microservice.{Microservice}
use shop_operator.Shop.AppEnv.{shop_app_env}
use shop_operator.Shop.Workload.{mutate_deployment, blank_deployment, reconcile_deployment}
use shop_operator.Shop.Repeating.{OwnsAgain}
use shop_operator.Shop.Repeating.Deployments.{mutate_deployment-again}

module _ {W : Type 0} (h : Handler W) (w : W) (lib : Library) (doc : IsDocumented lib) where
  -- An object that its function leaves alone.
  found-quiet :
      (k : Kind) (o old : Obj k) (f : Obj k → M (Obj k))
      → run h (f old) w ≡ (ok old, w)
      → key_of (meta_of k old) ≡ key_of (meta_of k o)
      → run h (create_or_update_from doc.same k o f (ok old)) w ≡ (ok old, w)
  unfolding run
  found-quiet k o old f leaves named_so =
      run-bind h (f old) (propagate (λ new. checked k o new >>= write_back doc.same k old)) w
      ∙ ap
          (λ (t : Result (Obj k) × W).
            run h (propagate (λ new. checked k o new >>= write_back doc.same k old) t.0) t.1)
          leaves
      ∙ rw ((same_key_iff (meta_of k o) (meta_of k old)).1 named_so, doc.reflexive k old) refl

  create_or_update-quiet :
      (k : Kind) (o old : Obj k) (f : Obj k → M (Obj k))
      → h (get k (key_of (meta_of k o))) w ≡ (ok old, w)
      → run h (f old) w ≡ (ok old, w)
      → key_of (meta_of k old) ≡ key_of (meta_of k o)
      → run h (lib.create_or_update k o f) w ≡ (ok old, w)
  unfolding run
  create_or_update-quiet k o old f held leaves named_so =
      ap (λ (p : M (Obj k)). run h p w) (doc.documented k o f)
      ∙ ap (λ (t : Result (Obj k) × W). run h (create_or_update_from doc.same k o f t.0) t.1) held
      ∙ found-quiet k o old f leaves named_so

-- If `CreateOrUpdate` is the program of its documentation and writes nothing where an object is the
-- same, and setting an owner reference changes nothing else and may be repeated: in any environment
-- where the variables of a microservice can be read, which holds a Deployment that its function has
-- made of any other, under the name of the microservice, reconciling that Deployment gives it back
-- and leaves the environment as it was.
pub reconcile_deployment-quiet :
    {W : Type 0} (h : Handler W) (w : W) (lib : Library) (doc : IsDocumented lib)
    (law : SetsController lib) (twice : OwnsAgain lib) (s : Shop) (m : Microservice) (replicas : ℕ)
    (db_env env : List EnvVar) (auth_secret_name : String) (d d' : Deployment)
    → run h (shop_app_env lib s m db_env auth_secret_name) w ≡ (ok env, w)
    → run h (mutate_deployment lib s m replicas db_env auth_secret_name d) w ≡ (ok d', w)
    → key_of d'.metadata ≡ key_of (blank_deployment lib s m).metadata
    → h (get deployment (key_of (blank_deployment lib s m).metadata)) w ≡ (ok d', w)
    → run h (reconcile_deployment lib s m replicas db_env auth_secret_name) w ≡ (ok d', w)
unfolding reconcile_deployment
reconcile_deployment-quiet h w lib doc law twice s m replicas db_env env auth_secret_name d d' reads
      made named_so held =
    create_or_update-quiet h w lib doc deployment (blank_deployment lib s m) d'
      (mutate_deployment lib s m replicas db_env auth_secret_name) held
      (mutate_deployment-again lib law twice s h w m replicas db_env env auth_secret_name reads d d'
        made)
      named_so
