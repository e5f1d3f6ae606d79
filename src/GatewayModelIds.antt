-- ===== src/GatewayModelIds.antt =====
-- core/gateway_model_ids.py, and the parsing of references in config/model_refs.py: how a model of a
-- provider is named for Claude Code, and how such a name is read back.
pub mod RoundTrip
mod Examples
use Prim.Native.Char.{Char, code}
use Prim.Native.String
use Prim.Native.String.{◌++◌}
use test2_freeclaudecode.Prelude.{
  ℕ, String, Bool, true, false, Option, none, some, nat_beq, ◌==◌, string_eq, if◌then◌else◌, ◌&&◌,
  not,
}

abbrev is_slash : ℕ → Bool
is_slash c = nat_beq c 47

abbrev pub after_char : Char → Option (String × String) → Option (String × String)
after_char c none = none
after_char c (some (left, right)) = some (String.◌∷◌ c left, right)

-- `text.partition("/")`, or `none` where the separator is missing.
unfoldable pub partition : String → Option (String × String)
partition String.[] = none
partition (String.◌∷◌ c text) =
    let rest = partition text in if is_slash (code c) then some ("", text) else after_char c rest

unfoldable pub parse_provider_type : String → String
unfolding partition
parse_provider_type model_ref = elim (partition model_ref) [
  | none ↦ model_ref
  | some (provider, model) ↦ provider
]

-- `none` is the IndexError of a reference without a slash.
unfoldable pub parse_model_name : String → Option String
unfolding partition
parse_model_name model_ref = elim (partition model_ref) [
  | none ↦ none
  | some (provider, model) ↦ some model
]

pub record DecodedGatewayModelId : Type 0 where
  pub provider_id : String
  pub provider_model : String
  pub force_reasoning_off : Bool

abbrev pub gateway_model_id_prefix : String
gateway_model_id_prefix = "anthropic"

abbrev pub no_thinking_gateway_model_id_prefix : String
no_thinking_gateway_model_id_prefix = "claude-3-freecc-no-thinking"

unfoldable pub gateway_model_id : String → String
gateway_model_id provider_model_ref = gateway_model_id_prefix ++ ("/" ++ provider_model_ref)

unfoldable pub no_thinking_gateway_model_id : String → String
no_thinking_gateway_model_id provider_model_ref =
    no_thinking_gateway_model_id_prefix ++ ("/" ++ provider_model_ref)

unfoldable pub decode_ref : Bool → Option (String × String) → Option DecodedGatewayModelId
decode_ref off none = none
decode_ref off (some (provider, model)) =
    if model == ""
    then none
    else some (record { provider_id = provider; provider_model = model; force_reasoning_off = off })

unfoldable pub decode_parts : Option (String × String) → Option DecodedGatewayModelId
unfolding decode_ref partition
decode_parts none = none
decode_parts (some (prefix, remainder)) =
    if prefix == gateway_model_id_prefix
    then decode_ref false (partition remainder)
    else if prefix == no_thinking_gateway_model_id_prefix
    then decode_ref true (partition remainder)
    else none

unfoldable pub decode_gateway_model_id : String → Option DecodedGatewayModelId
unfolding decode_parts
decode_gateway_model_id model_name = decode_parts (partition model_name)

-- No slash stands in the text: what a provider's name is.
unfoldable pub slash_free : String → Bool
slash_free String.[] = true
slash_free (String.◌∷◌ c text) = not (is_slash (code c)) && slash_free text
