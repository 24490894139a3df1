-- ===== src/Core/Message.antt =====
-- crates/rupi-core/src/message.rs: the conversation. The arguments of a call are the text of their JSON.
use pi_rs.Prelude.{Bool, true, false, Option, List, [], ◌∷◌}
use pi_rs.Prelude.Text.{Text}

pub data Role : Type 0 where
  system user assistant tool : Role

-- crates/rupi-core/src/tool.rs
pub data ToolExecutionState : Type 0 where
  requested started succeeded failed unknown : ToolExecutionState

unfoldable pub is_terminal : ToolExecutionState → Bool
is_terminal succeeded = true
is_terminal failed = true
is_terminal unknown = true
is_terminal _ = false

unfoldable pub is_unknown : ToolExecutionState → Bool
is_unknown unknown = true
is_unknown _ = false

-- crates/rupi-core/src/provenance.rs
pub data ReasoningProvenance : Type 0 where
  native provider_summary declared reconstructed : ReasoningProvenance

pub record ReasoningChunk : Type 0 where
  pub text : Text
  pub provenance : ReasoningProvenance
  pub source : Option Text

pub record ToolCallBlock : Type 0 where
  pub id : Text
  pub name : Text
  pub arguments : Text

pub record ToolResultBlock : Type 0 where
  pub id : Text
  pub name : Text
  pub state : ToolExecutionState
  pub text : Text
  pub is_error : Bool
  pub reduced : Bool

pub data ContentBlock : Type 0 where
  text_block : Text → ContentBlock
  image : (mime data_base64 : Text) → ContentBlock
  reasoning : ReasoningChunk → ContentBlock
  tool_call : ToolCallBlock → ContentBlock
  tool_result : ToolResultBlock → ContentBlock

pub record Message : Type 0 where
  pub role : Role
  pub content : List ContentBlock

-- `Message::tool_calls`
unfoldable pub tool_calls : List ContentBlock → List ToolCallBlock
tool_calls [] = []
tool_calls (tool_call call ∷ blocks) = call ∷ tool_calls blocks
tool_calls (_ ∷ blocks) = tool_calls blocks

-- The results among the blocks, which the loops over a message's content pick out.
unfoldable pub tool_results : List ContentBlock → List ToolResultBlock
tool_results [] = []
tool_results (tool_result result ∷ blocks) = result ∷ tool_results blocks
tool_results (_ ∷ blocks) = tool_results blocks
