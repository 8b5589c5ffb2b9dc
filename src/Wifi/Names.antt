-- ===== src/Wifi/Names.antt =====
-- The name of the access point that main/wifi_manager.c gives to the driver.
use esp32_web_terminal.Prelude.{
  ◌-◌, ◌≤◌, ◌≡◌, refl, ◌∷◌, ◌++◌, arith, Bytes, length, length-append, take, length-take, take_all,
}
use esp32_web_terminal.Wifi.{
  base_size, sta_ssid_max, ap_ssid_size, hex_byte, Mac, build_ap_ssid, ap_config,
}

-- The hyphen and the four digits.
abbrev pub suffix : Mac → Bytes
suffix mac = b'-' ∷ (hex_byte mac.fifth ++ hex_byte mac.sixth)

abbrev pub ap_name : Mac → Bytes → Bytes
ap_name mac base = take (base_size - 1) base ++ suffix mac

length-ap_name : (mac : Mac) (base : Bytes) → length (ap_name mac base) ≤ 32
length-ap_name mac base =
    omega (arith, length-append {0} (take 27 base) (suffix mac), length-take {0} 27 base)

build_ap_ssid_lem :
    (mac : Mac) (base : Bytes) → build_ap_ssid mac ap_ssid_size base ≡ ap_name mac base
unfolding build_ap_ssid
build_ap_ssid_lem mac base = take_all 32 (ap_name mac base) (length-ap_name mac base)

-- Whatever the configured name, the driver gets its first 27 bytes and the suffix of the MAC
-- address, uncut: the length that start_ap gives is that of the name, at most 32.
pub ap_config_uncut :
    (mac : Mac) (base password : Bytes)
    → ((ap_config (build_ap_ssid mac ap_ssid_size base) password).ssid ≡ ap_name mac base)
      × ((ap_config (build_ap_ssid mac ap_ssid_size base) password).ssid_len
          ≡ length (ap_name mac base))
      × ((ap_config (build_ap_ssid mac ap_ssid_size base) password).ssid_len ≤ sta_ssid_max)
unfolding ap_config
ap_config_uncut mac base password =
    rw (build_ap_ssid_lem mac base)
      (take_all 32 (ap_name mac base) (length-ap_name mac base), refl, length-ap_name mac base)
