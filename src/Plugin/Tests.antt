-- ===== src/Plugin/Tests.antt =====
-- Plugins (alterchat-core/src/plugin.rs) on small inputs.
use alter_chat.Base.Result.{ok}
use alter_chat.Base.Bytes.{Bytes}
use alter_chat.Base.{ℕ, ◌≡◌, ◌↔◌, true, Option, some, [], ◌∷◌, length, replicate}
use alter_chat.Crypto.{toy as crypto_toy}
use alter_chat.Signer.Toy.{toy}
use alter_chat.Int.{pos}
use alter_chat.Plugin.Types.{
  PluginManifest, PluginPolicy, PluginRunResult, clock, read_messages, capability_eq,
}
use alter_chat.Plugin.Host.{run_plugin, manifest_signing_bytes}
use alter_chat.Plugin.Gate.{run_plugin_iff}
use alter_chat.Governance.Tokens.{decode_public_key, verify_bytes}

abbrev policy : PluginPolicy
policy = record { plugin_id = "p"; enabled = true; granted_capabilities = read_messages ∷ [] }

abbrev serialize : PluginManifest → Option Bytes
serialize m = some (length m.wasm_hash ∷ length m.signature ∷ [])

-- Bob has signed it, and says that Alice has.
abbrev manifest : PluginManifest
manifest = record {
  id = "p";
  name = "Plugin";
  version = "1";
  author_peer_id = "alice";
  author_public_key = 2 ∷ [];
  entrypoint = "main";
  capabilities = clock ∷ [];
  wasm_hash = 9 ∷ replicate 31 0;
  signature = [];
}

run_plugin_iff_example :
    (((r : PluginRunResult) × (run_plugin crypto_toy toy serialize manifest
            (4 ∷ 5 ∷ [])
            policy
            (pos 3)
            100
          ≡ ok r))
      ↔ ((true ≡ true)
          × (crypto_toy.sha256 (4 ∷ 5 ∷ []) ≡ manifest.wasm_hash)
          × (key : ℕ) × (decode_public_key toy (2 ∷ []) ≡ ok key)
          × (verify_bytes toy key (manifest_signing_bytes crypto_toy toy serialize manifest) []
              ≡ true)))
    × ((r : PluginRunResult)
        → run_plugin crypto_toy toy serialize manifest (4 ∷ 5 ∷ []) policy (pos 3) 100 ≡ ok r
        → (r.output ≡ pos 3) × (r.fuel_remaining ≡ 100))
run_plugin_iff_example =
    run_plugin_iff crypto_toy toy serialize manifest (4 ∷ 5 ∷ []) policy (pos 3) 100
