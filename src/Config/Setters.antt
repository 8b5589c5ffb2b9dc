-- ===== src/Config/Setters.antt =====
-- main/config.c: the setters and config_check_password.
use esp32_web_terminal.Prelude.{
  ℕ, Bool, true, Option, none, some, Bytes, ltb, ◌==◌, if◌then◌else◌, set,
}
use esp32_web_terminal.Config.Hash.{compute_hash, compute_hash_legacy, constant_time_compare}
use esp32_web_terminal.Config.Store.{
  Config, Draw, Nvs, copy_string, ssid_size, pass_size, user_size, name_size, server_size,
  timezone_size, with_password, save_to_nvs,
}

-- The setters, with what config_set_auth draws.
pub data Setting : Type 0 where
  wifi_sta wifi_ap : Bytes → Bytes → Setting
  baud_rate_port : ℕ → ℕ → Setting
  power_on_default : Bool → Setting
  device_name ntp_server timezone : Bytes → Setting
  credentials : Draw → Bytes → Bytes → Setting

module _ (port_max : ℕ) (sha256 : Bytes → Bytes) where
  -- What a setter writes to s_config; none for ESP_ERR_INVALID_ARG.
  unfoldable pub changed : Setting → Config → Option Config
  changed (wifi_sta ssid pass) c =
      some
        (record c { sta_ssid = copy_string ssid_size ssid; sta_pass = copy_string pass_size pass })
  changed (wifi_ap ssid pass) c =
      some (record c { ap_ssid = copy_string ssid_size ssid; ap_pass = copy_string pass_size pass })
  changed (baud_rate_port i rate) c =
      if ltb i port_max then some (record c { baud_rate = set c.baud_rate i rate }) else none
  changed (power_on_default on) c = some (record c { power_on_default = on })
  changed (device_name name) c = some (record c { device_name = copy_string name_size name })
  changed (ntp_server server) c = some (record c { ntp_server = copy_string server_size server })
  changed (timezone tz) c = some (record c { timezone = copy_string timezone_size tz })
  changed (credentials d user password) c =
      some (record (with_password port_max sha256 d password c) {
        auth_user = copy_string user_size user;
        auth_initialized = true;
      })

  module _ {S : Type 0} (nvs : Nvs S) where
    -- A setter: s_config and NVS after it.
    unfoldable pub apply_setting : Setting → Config × S → Config × S
    unfolding changed save_to_nvs
    apply_setting x (c, s) = elim (changed x c) [
      | none ↦ (c, s)
      | some c' ↦ (c', save_to_nvs nvs c' s)
    ]

-- config_check_password; `junk` is what the stack buffer for the hash held.
unfoldable pub check_password : (Bytes → Bytes) → Bool → Bytes → Bytes → Config → Bool
check_password sha256 allocated junk password c =
    if c.auth_hash_ver == 0
    then constant_time_compare (compute_hash_legacy sha256 password c.auth_salt) c.auth_hash
    else constant_time_compare (compute_hash sha256 allocated password c.auth_salt junk) c.auth_hash
