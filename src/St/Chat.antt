-- ===== src/St/Chat.antt =====
-- src/domain/st.rs: chats, mutations, and the commands and answers of the connector.
-- `V` stands for `serde_json::Value`, which the bridge passes through.
use im_bridge_rs.Common.{ℕ, String, Bool, Option, List}
use im_bridge_rs.St.Fence.{PollerRuntimeFence}
use im_bridge_rs.St.Mode.{StWriteScope}

pub record StChatLocator : Type 0 where
  pub handle : String
  pub avatar : String
  pub character_name : String
  pub chat_file : String

pub record StChatMessage (V : Type 0) : Type 0 where
  pub name : String
  pub is_user : Bool
  pub mes : String
  pub send_date : Option String
  pub extra : List (String × V)

pub record StCompressionExtraPatch : Type 0 where
  pub display_text : Option String
  pub compressed : Option Bool

pub record StMessagePatch : Type 0 where
  pub index : ℕ  -- u32
  pub expected_message_sha256 : String
  pub mes : Option String
  pub extra : Option StCompressionExtraPatch

pub data StMutation (V : Type 0) : Type 0 where
  -- the user's message and the assistant's
  append_turn : StChatMessage V → StChatMessage V → StMutation V
  -- the expected hashes of the user's and of the assistant's message
  undo_last_turn : String → String → StMutation V
  -- the expected hash of the assistant's message, and its replacement
  replace_last_assistant : String → StChatMessage V → StMutation V
  compress_messages : List StMessagePatch → StMutation V

pub record CreateStChat (V : Type 0) : Type 0 where
  pub operation_id : String
  pub locator : StChatLocator
  pub opening_message : V
  pub scope : StWriteScope
  pub fence : PollerRuntimeFence

pub record CommitStChat (V : Type 0) : Type 0 where
  pub operation_id : String
  pub locator : StChatLocator
  pub expected_sha256 : String
  pub expected_integrity : String
  pub mutation : StMutation V
  pub fence : PollerRuntimeFence

pub data StCommitStatus : Type 0 where
  applied already_applied not_applied unknown : StCommitStatus

pub record StCommitResult : Type 0 where
  pub status : StCommitStatus
  pub new_sha256 : Option String
  pub new_integrity : Option String
  pub byte_length : Option ℕ  -- u64
  pub message_count : Option ℕ  -- u64
