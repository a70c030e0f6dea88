-- ===== src/Shop/Repeating/Deployments.antt =====
-- What a second reconcile makes of a Deployment that the first one made.
use shop_operator.Base.{ℕ, String, ◌≡◌, refl, sym, ◌∙◌, ap, List, [], ◌∷◌}
use shop_operator.Api.{Shop, ObjectMeta}
use shop_operator.Kube.Objects.{EnvVar, Container, empty_container, Deployment, shop}
use shop_operator.Kube.Prog.{Result, ok, err, M, pure, lift, ret, propagate, ◌>>=◌}
use shop_operator.Kube.Lawful.{SetsController}
use shop_operator.Kube.Library.{Library}
use shop_operator.Kube.Run.{Handler, run, run-bind}
use shop_operator.Shop.Microservice.{Microservice}
use shop_operator.Shop.AppEnv.{shop_app_env}
use shop_operator.Shop.Workload.{app_container, app_deployment, mutate_deployment, set_first}
use shop_operator.Shop.Repeating.{OwnsAgain, again}

module _ (lib : Library) (law : SetsController lib) (twice : OwnsAgain lib) (s : Shop) where
  -- A Deployment, once its environment is there.
  abbrev own_deployment : Microservice → ℕ → List EnvVar → Deployment → M Deployment
  own_deployment m replicas env d =
      lift (
        lib.set_controller_reference shop s.metadata
          (app_deployment lib s m replicas env d).metadata)
      >>= λ owned. pure (record (app_deployment lib s m replicas env d) { metadata = owned })

  set_first_again :
      (f : Container → Container) (cs : List Container)
      → ((c : Container) → f (f c) ≡ f c)
      → set_first f (set_first f cs) ≡ set_first f cs
  set_first_again f [] h = ap (λ c. c ∷ []) (h empty_container)
  set_first_again f (c ∷ cs) h = ap (λ d. d ∷ cs) (h c)

  own_deployment-again :
      (m : Microservice) (replicas : ℕ) (env : List EnvVar) (d d' : Deployment)
      → own_deployment m replicas env d ≡ pure d'
      → own_deployment m replicas env d' ≡ pure d'
  own_deployment-again m replicas env =
      again lib law twice s (own_deployment m replicas env) (λ o. o.metadata)
        (λ o owned. record o { metadata = owned }) (app_deployment lib s m replicas env) (λ o. refl)
        (λ o owned kept i. record (app_deployment lib s m replicas env o) {
          metadata = record owned { labels = ap (λ (t : ObjectMeta). t.labels) (sym kept) i };
          containers = set_first_again (app_container lib s m env) o.containers (λ c. refl) i;
        })
        (λ o owned. refl) (λ o owned. refl)

  -- A program without requests, from its run.
  run-lift :
      {A B W : Type 0} (h : Handler W) (w : W) (x : Result A) (f : A → B) (b : B)
      → run h (lift x >>= λ a. pure (f a)) w ≡ (ok b, w)
      → (lift x >>= λ a. pure (f a)) ≡ pure b
  unfolding run
  run-lift h w (ok a) f b made = ap (λ t. ret t.0) made
  run-lift h w (err e) f b made = ap (λ t. ret t.0) made

  module _ {W : Type 0} (h : Handler W) (w : W) (m : Microservice) (replicas : ℕ)
      (db_env env : List EnvVar) (auth_secret_name : String)
      (reads : run h (shop_app_env lib s m db_env auth_secret_name) w ≡ (ok env, w)) where
    mutate_deployment-run :
        (d : Deployment)
        → run h (mutate_deployment lib s m replicas db_env auth_secret_name d) w
          ≡ run h (own_deployment m replicas env d) w
    unfolding mutate_deployment
    mutate_deployment-run d =
        run-bind h (shop_app_env lib s m db_env auth_secret_name)
          (propagate (λ e. own_deployment m replicas e d)) w
        ∙ ap
            (λ (t : Result (List EnvVar) × W).
              run h (propagate (λ e. own_deployment m replicas e d) t.0) t.1)
            reads

    pub mutate_deployment-again :
        (d d' : Deployment)
        → run h (mutate_deployment lib s m replicas db_env auth_secret_name d) w ≡ (ok d', w)
        → run h (mutate_deployment lib s m replicas db_env auth_secret_name d') w ≡ (ok d', w)
    unfolding run
    mutate_deployment-again d d' made =
        let settled = own_deployment-again m replicas env d d' (
          run-lift h w _
            (λ owned. record (app_deployment lib s m replicas env d) { metadata = owned }) d'
            (sym (mutate_deployment-run d) ∙ made)) in
        mutate_deployment-run d' ∙ ap (λ (p : M Deployment). run h p w) settled
