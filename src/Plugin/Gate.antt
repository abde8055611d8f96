-- ===== src/Plugin/Gate.antt =====
-- What passes the plugin host (alterchat-core/src/plugin.rs), and what a policy allows.
use alter_chat.Governance.Authentic.{sign_bytes-verify, decode_public_key-encode}
use alter_chat.Base.Result.{>>=-eq-ok, fail_if-not-eq-ok, ok, ok_inj}
use alter_chat.Base.Member.{any}
use alter_chat.Base.Bytes.{Bytes}
use alter_chat.Base.Equality.{==_refl, ==_of_eq, ==_sound, ◌==◌, string_eq, bytes_eq}
use alter_chat.Base.{
  subst, inl, inr, Bool-cases, ℕ, String, ◌≡◌, refl, ap, sym, ◌↔◌, Bool, true, false, ◌&&◌, ◌||◌,
  Option, List, [], ◌∷◌, ◌++◌, arith,
}
use alter_chat.Crypto.{Crypto}
use alter_chat.Signer.{Signer, IsLawful}
use alter_chat.Int.{ℤ}
use alter_chat.Governance.Tokens.{sign_bytes, verify_bytes, decode_public_key}
use alter_chat.Plugin.Types.{
  PluginCapability, PluginManifest, PluginPolicy, PluginRunResult, capability_eq,
}
use alter_chat.Plugin.Host.{
  contains, denies_all, allows, grant, manifest_signing_bytes, blake3_hash, verify_plugin,
  run_plugin, stub_run,
}

any_append :
    {A : Type 0} (p : A → Bool) (xs ys : List A) → any p (xs ++ ys) ≡ (any p xs || any p ys)
any_append p [] ys = refl
any_append p (x ∷ xs) ys = ground (arith, any_append p xs ys)

contains_same :
    (caps : List PluginCapability) (cap other : PluginCapability)
    → contains caps cap ≡ true
    → (cap == other) ≡ true
    → contains caps other ≡ true
contains_same caps cap other h e = subst (λ c. contains caps c ≡ true) (==_sound e) h

-- A grant adds its capability and no other, and nothing to a policy that is not enabled; a second
-- grant of the same capability changes nothing; and a new policy that denies all allows nothing,
-- whatever it is granted.
pub allows-grant :
    (policy : PluginPolicy) (cap other : PluginCapability) (id : String)
    → (allows (grant cap policy) other ≡ (allows policy other || policy.enabled && (cap == other)))
      × (grant cap (grant cap policy) ≡ grant cap policy)
      × (allows (grant cap (denies_all id)) other ≡ false)
unfolding allows grant denies_all
allows-grant policy cap other id = (
  elim (Bool-cases (contains policy.granted_capabilities cap)) [
    | inl e ↦ ground (arith, e, contains_same policy.granted_capabilities cap other e)
    | inr e ↦ ground (arith, e, any_append (λ c. c == other) policy.granted_capabilities (cap ∷ []))
  ],
  elim (Bool-cases (contains policy.granted_capabilities cap)) [
    | inl e ↦ ground (arith, e)
    | inr e ↦
        ground
          (arith, e, any_append (λ c. c == cap) policy.granted_capabilities (cap ∷ []), ==_refl cap)
  ],
  refl,
)

module _ (C : Crypto) (S : Signer) (serialize : PluginManifest → Option Bytes) where
  -- A run of a plugin succeeds exactly if the policy is enabled, and the manifest carries a
  -- signature of its key for its other fields and the hash of the binary that is run; a run that
  -- succeeds gives back its input and all its fuel.
  pub run_plugin_iff :
      (manifest : PluginManifest) (wasm_bytes : Bytes) (policy : PluginPolicy) (input : ℤ)
      (fuel : ℕ)
      → (((r : PluginRunResult) × (run_plugin C S serialize manifest wasm_bytes policy input fuel
              ≡ ok r))
          ↔ ((policy.enabled ≡ true)
              × (C.sha256 wasm_bytes ≡ manifest.wasm_hash)
              × (key : S.PublicKey) × (decode_public_key S manifest.author_public_key ≡ ok key)
              × (verify_bytes S key
                    (manifest_signing_bytes C S serialize manifest)
                    manifest.signature
                  ≡ true)))
        × ((r : PluginRunResult)
            → run_plugin C S serialize manifest wasm_bytes policy input fuel ≡ ok r
            → (r.output ≡ input) × (r.fuel_remaining ≡ fuel))
  unfolding run_plugin verify_plugin blake3_hash
  run_plugin_iff manifest wasm_bytes policy input fuel = (
    (
      (λ (r, h).
          let (u, h₀, h₁) = >>=-eq-ok (verify_plugin C S serialize manifest wasm_bytes) _ h in
          let (key, decoded, h₂) =
            >>=-eq-ok (decode_public_key S manifest.author_public_key) _ h₀ in
          let (signed, h₃) = fail_if-not-eq-ok _ _ _ h₂ in
          let (intact, h₄) = fail_if-not-eq-ok _ _ _ h₃ in
          ((fail_if-not-eq-ok policy.enabled _ _ h₁).0, ==_sound intact, key, decoded, signed)),
      λ (enabled, intact, key, decoded, signed).
          (stub_run manifest input fuel, ground (arith, enabled, decoded, signed, ==_of_eq intact)),
    ),
    λ r h.
        let (u, h₀, h₁) = >>=-eq-ok (verify_plugin C S serialize manifest wasm_bytes) _ h in
        let (enabled, h₂) = fail_if-not-eq-ok policy.enabled _ _ h₁ in
        (ap (λ r. r.output) (sym (ok_inj h₂)), ap (λ r. r.fuel_remaining) (sym (ok_inj h₂))),
  )

  -- A manifest passes the check whatever author it names, if some key has signed it and it carries
  -- that key and the hash of the binary: the author's peer id is not compared with the key.
  pub verify_plugin-any_author :
      (L : IsLawful S) (k : S.Keypair) (m : PluginManifest) (wasm_bytes s : Bytes)
      → m.author_public_key ≡ S.encode_protobuf (S.public k)
      → m.wasm_hash ≡ C.sha256 wasm_bytes
      → sign_bytes S k (manifest_signing_bytes C S serialize m) ≡ ok s
      → verify_plugin C S serialize (record m { signature = s }) wasm_bytes ≡ ok tt
  unfolding verify_plugin blake3_hash manifest_signing_bytes
  verify_plugin-any_author L k m wasm_bytes s hk hw signed = ground (
    arith,
    decode_public_key-encode S L k,
    sign_bytes-verify S L k (manifest_signing_bytes C S serialize m) s signed,
    ==_refl (C.sha256 wasm_bytes),
  )
