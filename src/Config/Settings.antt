-- ===== src/Config/Settings.antt =====
-- The setters keep the buffers of the configuration within their sizes, and what they set survives
-- a reboot.
use esp32_web_terminal.Prelude.{
  ℕ, ◌-◌, ◌<◌, ◌≡◌, refl, ap, subst, Bool, true, false, none, some, Bytes, arith, ltb, length,
  length-take, length-set, Bool-cases, inl, inr,
}
use esp32_web_terminal.Config.Hash.{compute_hash, pbkdf2_hmac_sha256, hash_size, auth_salt_len}
use esp32_web_terminal.Config.Store.{
  Nvs, Config, Draw, ssid_size, pass_size, user_size, name_size, server_size, timezone_size,
  copy_string, config_init, opened,
}
use esp32_web_terminal.Config.Setters.{
  Setting, wifi_sta, wifi_ap, baud_rate_port, power_on_default, device_name, ntp_server, timezone,
  credentials, changed, apply_setting,
}
use esp32_web_terminal.Config.Password.{Buffer, compute_hash-Buffer}
use esp32_web_terminal.Config.Reload.{IsConfig, load-save_to_nvs}

-- esp_fill_random fills the salt.
abbrev pub FullSalt : Setting → Type 0
FullSalt (credentials d user password) = length d.salt ≡ auth_salt_len
FullSalt (wifi_sta ssid pass) = Unit {0}
FullSalt (wifi_ap ssid pass) = Unit {0}
FullSalt (baud_rate_port i rate) = Unit {0}
FullSalt (power_on_default on) = Unit {0}
FullSalt (device_name name) = Unit {0}
FullSalt (ntp_server server) = Unit {0}
FullSalt (timezone tz) = Unit {0}

copied : (size : ℕ) (src : Bytes) → 0 < size → length (copy_string size src) < size
copied size src pos = omega (arith, length-take {0} (size - 1) src)

module _ (port_max : ℕ) (sha256 : Bytes → Bytes)
    (digests : (m : Bytes) → Buffer hash_size (sha256 m)) where
  length-compute_hash :
      (allocated : Bool) (password salt out : Bytes)
      → length (compute_hash sha256 allocated password salt out) ≡ length out
  unfolding compute_hash pbkdf2_hmac_sha256
  length-compute_hash true password salt out =
      (compute_hash-Buffer sha256 digests password salt out).0
  length-compute_hash false password salt out = refl

  taken : (c x c' : Config) → some x ≡ some c' → x ≡ c'
  taken c x c' e = ap (λ o. elim o [ none ↦ c | some y ↦ y ]) e

  changed-IsConfig :
      (x : Setting) (c c' : Config)
      → FullSalt x
      → IsConfig port_max c
      → changed port_max sha256 x c ≡ some c'
      → IsConfig port_max c'
  unfolding changed
  changed-IsConfig (wifi_sta ssid pass) c c' f v e =
      subst (IsConfig port_max) (taken c _ c' e)
        (ground (arith, copied ssid_size ssid (omega arith), copied pass_size pass (omega arith)))
  changed-IsConfig (wifi_ap ssid pass) c c' f v e =
      subst (IsConfig port_max) (taken c _ c' e)
        (ground (arith, copied ssid_size ssid (omega arith), copied pass_size pass (omega arith)))
  changed-IsConfig (baud_rate_port i rate) c c' f v e = elim (Bool-cases (ltb i port_max)) [
    | inl y ↦
        subst (IsConfig port_max) (taken c _ c' (rw y at e))
          (ground (arith, length-set c.baud_rate i rate))
    | inr n ↦ let none_set : none ≡ some c' = rw n at e in absurd cc
  ]
  changed-IsConfig (power_on_default on) c c' f v e =
      subst (IsConfig port_max) (taken c _ c' e) (ground (arith))
  changed-IsConfig (device_name name) c c' f v e =
      subst (IsConfig port_max) (taken c _ c' e)
        (ground (arith, copied name_size name (omega arith)))
  changed-IsConfig (ntp_server server) c c' f v e =
      subst (IsConfig port_max) (taken c _ c' e)
        (ground (arith, copied server_size server (omega arith)))
  changed-IsConfig (timezone tz) c c' f v e =
      subst (IsConfig port_max) (taken c _ c' e)
        (ground (arith, copied timezone_size tz (omega arith)))
  changed-IsConfig (credentials d user password) c c' f v e =
      subst (IsConfig port_max) (taken c _ c' e) (
        ground (
          arith,
          copied user_size user (omega arith),
          length-compute_hash d.allocated password d.salt c.auth_hash,
          f,
        ))

  module _ {S : Type 0} (nvs : Nvs S) where
    -- With a digest of 32 bytes, a full salt, and buffers within their sizes: a setting that is
    -- accepted survives a reboot. config_init then reads exactly the configuration that was in
    -- memory after the setter, whatever NVS held before.
    pub reboot-apply_setting :
        (x : Setting) (d : Draw) (b c c' : Config) (s : S)
        → FullSalt x
        → IsConfig port_max b
        → IsConfig port_max c
        → changed port_max sha256 x c ≡ some c'
        → config_init port_max sha256 nvs opened d b (apply_setting port_max sha256 nvs x (c, s)).1
          ≡ some (apply_setting port_max sha256 nvs x (c, s)).0
    unfolding config_init apply_setting
    reboot-apply_setting x d b c c' s f vb v e =
        rw (e, apply_setting)
          (ap some
            (load-save_to_nvs port_max sha256 nvs d b c' s vb (changed-IsConfig x c c' f v e)))
