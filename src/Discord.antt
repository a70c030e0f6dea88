-- ===== src/Discord.antt =====
-- internal/discord/client.go and internal/controller/discordchannel_controller.go
pub mod ChannelName
pub mod Client
pub mod Controller
pub mod Protocol
pub mod Wire
