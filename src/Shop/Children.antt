-- ===== src/Shop/Children.antt =====
-- `reconcileWallet` and `reconcileDiscordChannel` of internal/controller/shop_controller.go
use shop_operator.Base.{false, []}
use shop_operator.Api.{Shop, Wallet, DiscordChannel}
use shop_operator.Kube.Objects.{wallet, discord_channel, shop, named}
use shop_operator.Kube.Prog.{M, pure, lift, ◌>>=◌, ◌>>◌}
use shop_operator.Kube.Library.{Library}
use shop_operator.Shop.Names.{wallet_resource_name, discord_resource_name, labels_for}

module _ (lib : Library) (s : Shop) where
  unfoldable pub app_wallet : Wallet → Wallet
  unfolding labels_for
  app_wallet o = record o {
    metadata = record o.metadata { labels = labels_for s };
    spec = record { shop_ref = s.metadata.name; address = s.spec.wallet.address };
  }

  unfoldable pub mutate_wallet : Wallet → M Wallet
  unfolding app_wallet
  mutate_wallet o =
      lift (lib.set_controller_reference shop s.metadata (app_wallet o).metadata) >>= λ owned.
      pure (record (app_wallet o) { metadata = owned })

  unfoldable pub reconcile_wallet : M (Unit {0})
  unfolding wallet_resource_name mutate_wallet
  reconcile_wallet =
      lib.create_or_update wallet
        (record {
          metadata = named s.metadata.namespace (wallet_resource_name s);
          spec = record { shop_ref = ""; address = "" };
          status = record { conditions = []; address = ""; ready = false };
        })
        mutate_wallet
      >> pure tt

  unfoldable pub app_discord_channel : DiscordChannel → DiscordChannel
  unfolding labels_for
  app_discord_channel o = record o {
    metadata = record o.metadata { labels = labels_for s };
    spec = record {
      channel_name = s.spec.discord_channel.channel_name;
      server_id = s.spec.discord_channel.server_id;
    };
  }

  unfoldable pub mutate_discord_channel : DiscordChannel → M DiscordChannel
  unfolding app_discord_channel
  mutate_discord_channel o =
      lift (lib.set_controller_reference shop s.metadata (app_discord_channel o).metadata)
      >>= λ owned. pure (record (app_discord_channel o) { metadata = owned })

  unfoldable pub reconcile_discord_channel : M (Unit {0})
  unfolding discord_resource_name mutate_discord_channel
  reconcile_discord_channel =
      lib.create_or_update discord_channel
        (record {
          metadata = named s.metadata.namespace (discord_resource_name s);
          spec = record { channel_name = ""; server_id = "" };
          status = record { conditions = []; ready = false; channel_id = ""; webhook_id = "" };
        })
        mutate_discord_channel
      >> pure tt
