-- ===== src/Plugin/Host.antt =====
-- The functions of alterchat-core/src/plugin.rs. `bincode::serialize` is an argument.
use alter_chat.Base.Result.{Result, ok, fail_if, ◌>>=◌, ◌>>◌}
use alter_chat.Base.Member.{any}
use alter_chat.Base.Bytes.{Bytes}
use alter_chat.Base.Equality.{◌==◌, string_eq, bytes_eq}
use alter_chat.Base.{
  ℕ, String, ◌<>◌, Bool, true, false, not, ◌&&◌, Option, List, [], ◌∷◌, ◌++◌, if◌then◌else◌,
}
use mathlib.Core.Option
use alter_chat.Crypto.{Crypto}
use alter_chat.Signer.{Signer}
use alter_chat.Int.{ℤ}
use alter_chat.Governance.Tokens.{sign_bytes, verify_bytes, decode_public_key}
use alter_chat.Plugin.Types.{
  PluginCapability, PluginManifest, PluginPolicy, PluginRunResult, capability_eq,
}

unfoldable pub denies_all : String → PluginPolicy
denies_all plugin_id = record { plugin_id = plugin_id; enabled = false; granted_capabilities = [] }

unfoldable pub with_capabilities : String → List PluginCapability → PluginPolicy
with_capabilities plugin_id caps = record {
  plugin_id = plugin_id;
  enabled = true;
  granted_capabilities = caps;
}

-- `granted_capabilities.contains(capability)`
abbrev pub contains : List PluginCapability → PluginCapability → Bool
contains caps capability = any (λ c. c == capability) caps

unfoldable pub allows : PluginPolicy → PluginCapability → Bool
allows policy capability = policy.enabled && contains policy.granted_capabilities capability

unfoldable pub grant : PluginCapability → PluginPolicy → PluginPolicy
grant cap policy =
    if not (contains policy.granted_capabilities cap)
    then record policy { granted_capabilities = policy.granted_capabilities ++ cap ∷ [] }
    else policy

-- What `run_plugin` gives where the run of the module is to come: the source has a stub there.
abbrev pub stub_run : PluginManifest → ℤ → ℕ → PluginRunResult
stub_run manifest input fuel = record {
  output = input;
  fuel_remaining = fuel;
  log =
      ("[plugin-host] "
        <> (manifest.name <> (" v" <> (manifest.version <> " verified, wasmtime not linked yet"))))
      ∷ [];
}

module _ (C : Crypto) (S : Signer) (serialize : PluginManifest → Option Bytes) where
  unfoldable pub manifest_signing_bytes : PluginManifest → Bytes
  manifest_signing_bytes m = Option.get_or (serialize (record m { signature = [] })) []

  unfoldable pub blake3_hash : Bytes → Bytes
  blake3_hash bytes = C.sha256 bytes

  unfoldable pub create_plugin_manifest :
      S.Keypair
      → String
      → String
      → String
      → String
      → List PluginCapability
      → Bytes
      → Result PluginManifest
  create_plugin_manifest keypair id name version entrypoint capabilities wasm_bytes = do
    let m : PluginManifest = record {
      id = id;
      name = name;
      version = version;
      author_peer_id = S.peer_id (S.public keypair);
      author_public_key = S.encode_protobuf (S.public keypair);
      entrypoint = entrypoint;
      capabilities = capabilities;
      wasm_hash = blake3_hash wasm_bytes;
      signature = [];
    }
    signature ← sign_bytes S keypair (manifest_signing_bytes m)
    ok (record m { signature = signature })

  unfoldable pub verify_plugin : PluginManifest → Bytes → Result (Unit {0})
  verify_plugin manifest wasm_bytes = do
    pk ← decode_public_key S manifest.author_public_key
    fail_if (not (verify_bytes S pk (manifest_signing_bytes manifest) manifest.signature))
        "plugin signature invalid"
    fail_if (not (blake3_hash wasm_bytes == manifest.wasm_hash))
        "WASM hash mismatch — binary tampered"
    ok tt

  unfoldable pub run_plugin : PluginManifest → Bytes → PluginPolicy → ℤ → ℕ → Result PluginRunResult
  run_plugin manifest wasm_bytes policy input fuel = do
    verify_plugin manifest wasm_bytes
    fail_if (not policy.enabled) "plugin is disabled by user policy"
    ok (stub_run manifest input fuel)
