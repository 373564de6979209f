-- ===== src/Tokenizer/Template.antt =====
-- crates/orion-tokenizer/src/lib.rs: ChatTemplate.
use Prim.Native.String.{String, ◌++◌}
use text.Mathlib.Text.{◌==◌}
use orion_serve_rs.Prelude.{List, [], ◌∷◌, if◌then◌else◌}

pub data ChatTemplate : Type 0 where
  llama3 chat_ml plain : ChatTemplate

unfoldable pub for_architecture : String → ChatTemplate
for_architecture arch =
    if arch == "qwen2" then chat_ml else (if arch == "llama" then llama3 else plain)

-- One message, with its role.
unfoldable pub render_message : ChatTemplate → String → String → String
render_message llama3 role content =
    "<|start_header_id|>" ++ role ++ "<|end_header_id|>\n\n" ++ content ++ "<|eot_id|>"
render_message chat_ml role content = "<|im_start|>" ++ role ++ "\n" ++ content ++ "<|im_end|>\n"
render_message plain role content = content ++ "\n"

-- The opening of the assistant's turn.
unfoldable pub opening : ChatTemplate → String
opening llama3 = "<|start_header_id|>assistant<|end_header_id|>\n\n"
opening chat_ml = "<|im_start|>assistant\n"
opening plain = ""

unfoldable pub render_from : ChatTemplate → String → List (String × String) → String
unfolding render_message opening
render_from t out [] = out ++ opening t
render_from t out ((role, content) ∷ ms) = render_from t (out ++ render_message t role content) ms

unfoldable pub render : ChatTemplate → List (String × String) → String
unfolding render_from
render t messages = render_from t "" messages
