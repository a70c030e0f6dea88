-- ===== src/Shop/Reasons/Owned.antt =====
-- The objects of a Shop that `CreateOrUpdate` makes and keeps.
use shop_operator.Base.{◌≡◌, refl, ◌∙◌, ap, true, inl, inr}
use shop_operator.Access.{manager_role, is_granted}
use shop_operator.Api.{Shop, ObjectMeta}
use shop_operator.Kube.Objects.{
  Kind, Obj, meta_of, key_of, shop, wallet, discord_channel, service, ingress, config_map,
}
use shop_operator.Kube.Prog.{get, create, update, M, pure, lift, ◌>>=◌, ◌>>◌}
use shop_operator.Kube.Monitor.{Safe-propagate}
use shop_operator.Kube.Journal.{Journal, journal}
use shop_operator.Kube.Lawful.{CreatesOrUpdates, SetsController}
use shop_operator.Kube.Library.{Library}
use shop_operator.Kube.Outcome.{
  Ensures, Ensures-then, Ensures-owned, Steps, create_or_update-Ensures, Outcome, permits,
  not_marshalled,
}
use shop_operator.Shop.Microservice.{Microservice}
use shop_operator.Shop.Network.{
  reconcile_service, reconcile_ingress, app_service, app_ingress, mutate_service, mutate_ingress,
}
use shop_operator.Shop.Children.{
  reconcile_wallet, reconcile_discord_channel, app_wallet, app_discord_channel, mutate_wallet,
  mutate_discord_channel,
}
use shop_operator.Shop.Dashboard.{
  reconcile_grafana_dashboard, app_config_map, mutate_config_map, shop_dashboard,
}
use shop_operator.Shop.Charter.Owning.{Any}

module _ (lib : Library) (cu : CreatesOrUpdates lib) (law : SetsController lib) (s : Shop) where
  module _ (k : Kind) (o : Obj k) (app : Obj k → Obj k) (put : Obj k → ObjectMeta → Obj k)
      (meta_of-put : (x : Obj k) (m : ObjectMeta) → meta_of k (put x m) ≡ m)
      (app_keeps : (x : Obj k) → key_of (meta_of k (app x)) ≡ key_of (meta_of k x))
      (may_get : is_granted manager_role (get k (key_of (meta_of k o))) ≡ true)
      (may_create : (x : Obj k) → is_granted manager_role (create k x) ≡ true)
      (may_update : (x : Obj k) → is_granted manager_role (update k x) ≡ true) where
    -- A function that sets fields and names the owner.
    abbrev own : Obj k → M (Obj k)
    own x = lift (lib.set_controller_reference shop s.metadata (meta_of k (app x))) >>= λ owned.
        pure (put (app x) owned)

    own-Steps :
        (x : Obj k) (l : Journal)
        → Ensures manager_role lib
            (Steps manager_role lib cu k o own (λ a b. Unit) Any l may_get may_create may_update x)
            (own x)
            l
    own-Steps x l =
        Ensures-owned manager_role lib shop s.metadata (meta_of k (app x))
          (λ owned. pure (put (app x) owned))
          (Steps manager_role lib cu k o own (λ a b. Unit) Any l may_get may_create may_update x) l
          (λ owned signed. (
            ap key_of (meta_of-put (app x) owned)
                ∙ ap key_of (law.keeps shop s.metadata (meta_of k (app x)) owned signed)
                ∙ app_keeps x,
            tt,
          ))

    pub own-Ensures : (l : Journal) → Ensures manager_role lib Any (lib.create_or_update k o own) l
    own-Ensures l =
        create_or_update-Ensures manager_role lib cu k o own (λ a b. Unit) Any l may_get may_create
          may_update (λ x l' later. own-Steps x l') (λ x x' l' same later st. tt)
          (λ x y l' same. tt) (λ x y l' same. tt)

  -- A program of which the result is not used.
  abbrev pub Done : {A : Type 0} → M A → Journal → Type 0
  Done p l = Ensures manager_role lib Any p l

  pub Done-next :
      {A B : Type 0} (p : M A) (q : M B) (l : Journal)
      → Done p l
      → ((l' : Journal) → Done q l')
      → Done (p >> q) l
  Done-next p q l h k = Ensures-then manager_role lib p (λ _. q) Any Any l h (λ a l' later _. k l')

  pub reconcile_wallet-Ensures : (l : Journal) → Done (reconcile_wallet lib s) l
  unfolding reconcile_wallet mutate_wallet app_wallet is_granted manager_role
  reconcile_wallet-Ensures l =
      Done-next _ (pure tt) l
        (own-Ensures wallet _ (app_wallet lib s) (λ x m. record x { metadata = m }) (λ x m. refl)
          (λ x. refl) refl (λ x. refl) (λ x. refl) l)
        (λ l'. tt)

  pub reconcile_discord_channel-Ensures : (l : Journal) → Done (reconcile_discord_channel lib s) l
  unfolding reconcile_discord_channel mutate_discord_channel app_discord_channel is_granted
      manager_role
  reconcile_discord_channel-Ensures l =
      Done-next _ (pure tt) l
        (own-Ensures discord_channel _ (app_discord_channel lib s)
          (λ x m. record x { metadata = m }) (λ x m. refl) (λ x. refl) refl (λ x. refl) (λ x. refl)
          l)
        (λ l'. tt)

  pub reconcile_service-Ensures :
      (m : Microservice) (l : Journal) → Done (reconcile_service lib s m) l
  unfolding reconcile_service mutate_service app_service is_granted manager_role
  reconcile_service-Ensures m l =
      Done-next _ (pure tt) l
        (own-Ensures service _ (app_service lib s m) (λ x o. record x { metadata = o })
          (λ x o. refl) (λ x. refl) refl (λ x. refl) (λ x. refl) l)
        (λ l'. tt)

  pub reconcile_ingress-Ensures : (l : Journal) → Done (reconcile_ingress lib s) l
  unfolding reconcile_ingress mutate_ingress app_ingress is_granted manager_role
  reconcile_ingress-Ensures l =
      Done-next _ (pure tt) l
        (own-Ensures ingress _ (app_ingress lib s) (λ x m. record x { metadata = m }) (λ x m. refl)
          (λ x. refl) refl (λ x. refl) (λ x. refl) l)
        (λ l'. tt)

  pub reconcile_grafana_dashboard-Ensures :
      (l : Journal) → Done (reconcile_grafana_dashboard lib s) l
  unfolding reconcile_grafana_dashboard mutate_config_map app_config_map is_granted manager_role
  reconcile_grafana_dashboard-Ensures l =
      Safe-propagate (journal (permits manager_role)) _ (lib.marshal (shop_dashboard s))
        (Outcome manager_role lib Any) l
        (λ body _.
          Done-next _ (pure tt) l
            (own-Ensures config_map _ (app_config_map lib s body) (λ x m. record x { metadata = m })
              (λ x m. refl) (λ x. refl) refl (λ x. refl) (λ x. refl) l)
            (λ l'. tt))
        (λ e failed. inr (inl (not_marshalled (shop_dashboard s) failed)))
