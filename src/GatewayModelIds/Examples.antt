-- ===== src/GatewayModelIds/Examples.antt =====
-- Round trips of a model id whose model name holds slashes of its own.
use Prim.Native.String.{◌++◌}
use test2_freeclaudecode.Prelude.{◌≡◌, refl, true, false, some, ◌==◌, if◌then◌else◌, string_eq}
use test2_freeclaudecode.GatewayModelIds.{
  DecodedGatewayModelId, gateway_model_id, no_thinking_gateway_model_id, decode_gateway_model_id,
  parse_provider_type, parse_model_name, slash_free,
}
use test2_freeclaudecode.GatewayModelIds.RoundTrip.{decode-encode, encode-decode}

abbrev nim : DecodedGatewayModelId
nim = record {
  provider_id = "nvidia_nim";
  provider_model = "z-ai/glm4.7";
  force_reasoning_off = true;
}

decode-encode_example :
    let ref = "nvidia_nim" ++ ("/" ++ "z-ai/glm4.7") in
    (decode_gateway_model_id (gateway_model_id ref)
      ≡ some (record {
        provider_id = "nvidia_nim";
        provider_model = "z-ai/glm4.7";
        force_reasoning_off = false;
      }))
    × (decode_gateway_model_id (no_thinking_gateway_model_id ref) ≡ some nim)
    × (parse_provider_type ref ≡ "nvidia_nim")
    × (parse_model_name ref ≡ some "z-ai/glm4.7")
unfolding slash_free
decode-encode_example = decode-encode "nvidia_nim" "z-ai/glm4.7" refl refl

nim_decoded :
    decode_gateway_model_id "claude-3-freecc-no-thinking/nvidia_nim/z-ai/glm4.7" ≡ some nim
unfolding decode_gateway_model_id
nim_decoded = refl

encode-decode_example :
    let ref = "nvidia_nim" ++ ("/" ++ "z-ai/glm4.7") in
    (slash_free "nvidia_nim" ≡ true)
    × ((nim.provider_model == "") ≡ false)
    × ("claude-3-freecc-no-thinking/nvidia_nim/z-ai/glm4.7"
        ≡ (if true then no_thinking_gateway_model_id ref else gateway_model_id ref))
encode-decode_example =
    encode-decode "claude-3-freecc-no-thinking/nvidia_nim/z-ai/glm4.7" nim nim_decoded
