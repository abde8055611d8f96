-- ===== src/Desk/Shown.antt =====
-- What the windows show of this machine and of a peer
-- (alterchat-ui/src-tauri/src/commands/settings.rs). The public key and the peer id that the
-- application's state has are arguments; the crate `hex` is a parameter.
use alter_chat.Base.{ℕ, ◌+◌, ◌*◌, ◌/◌, ◌%◌, ◌^◌, String, ◌<>◌, Option, eqb, length, not, ◌||◌}
use mathlib.Core.Option
use alter_chat.Base.Bytes.{Bytes}
use alter_chat.Base.Result.{Result, ok, ok_or, fail_if, ◌>>=◌, ◌>>◌}
use alter_chat.Crypto.{Crypto}
use alter_chat.Envelope.{derive_safety_number}

-- At 64 bits, and 32 bits of that.
unfoldable pub get_capacity_score : ℕ → ℕ → ℕ
get_capacity_score total_memory cores =
    (total_memory / 1024 / 1024 * 10 + cores * 50) % 2 ^ 64 % 2 ^ 32

unfoldable pub get_peer_uri : Option String → Option String → Result String
get_peer_uri my_peer_id offline_pubkey = do
  peer_id ← ok_or my_peer_id "Not logged in"
  ok ("alterchat://connect?peer=" <> (peer_id <> ("&pk=" <> Option.get_or offline_pubkey "")))

module _ (C : Crypto) (hex_decode : String → Result Bytes) where
  unfoldable pub get_safety_number : Option String → String → Result String
  get_safety_number offline_pubkey peer_pubkey_hex = do
    my_pubkey_hex ← ok_or offline_pubkey "Not logged in"
    my_bytes ← hex_decode my_pubkey_hex
    peer_bytes ← hex_decode peer_pubkey_hex
    fail_if (not (eqb (length my_bytes) 32) || not (eqb (length peer_bytes) 32))
        "Invalid pubkey length"
    ok (derive_safety_number C my_bytes peer_bytes)
