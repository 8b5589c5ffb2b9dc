-- ===== src/Wifi/Hostname.antt =====
-- main/wifi_manager.c: sanitize_hostname, wifi_manager_update_hostname and mdns_init_service. A
-- byte of the name above 127 falls into no range of the source, whether char is signed or not.
pub mod Label
use esp32_web_terminal.Prelude.{
  ℕ, ◌-◌, Bool, true, false, ◌&&◌, ◌||◌, not, Option, none, some, List, [], ◌∷◌, ◌++◌, Bytes, codes,
  ltb, leb, ◌==◌, if◌then◌else◌, length, get_or, take,
}
use esp32_web_terminal.Wifi.{Call, set_hostname, mdns_hostname, mdns_instance}

abbrev pub hyphen : ℕ
hyphen = b'-'

abbrev pub alphanumeric : ℕ → Bool
alphanumeric c =
    (leb b'a' c && leb c b'z') || ((leb b'A' c && leb c b'Z') || (leb b'0' c && leb c b'9'))

abbrev pub separator : ℕ → Bool
separator c = c == b' ' || (c == b'_' || c == b'.')

-- `j > 0 && out[j - 1] != '-'`
abbrev pub after_other : Bytes → Bool
after_other out = ltb 0 (length out) && not (get_or out (length out - 1) 0 == hyphen)

-- One round of the loop: what out holds up to j after it.
unfoldable pub kept_byte : ℕ → Bytes → Bytes
kept_byte c out =
    if alphanumeric c
    then out ++ (c ∷ [])
    else if separator c && after_other out
    then out ++ (hyphen ∷ [])
    else out

-- The loop `name[i] && j < out_len - 1`.
unfoldable pub sanitize_loop : Bytes → ℕ → Bytes → Bytes
unfolding kept_byte
sanitize_loop [] out_len out = out
sanitize_loop (c ∷ name) out_len out =
    let rest = sanitize_loop name out_len (kept_byte c out) in
    if ltb (length out) (out_len - 1) then rest else out

-- `while (j > 0 && out[j - 1] == '-') j--;`
unfoldable pub trim_hyphens : Bytes → Bytes
trim_hyphens [] = []
trim_hyphens (c ∷ cs) =
    let rest = trim_hyphens cs in if c == hyphen && length rest == 0 then [] else c ∷ rest

unfoldable pub sanitize_hostname : Bytes → ℕ → Bytes
unfolding sanitize_loop trim_hyphens
sanitize_hostname name out_len = trim_hyphens (sanitize_loop name out_len [])

abbrev pub hostname_size : ℕ
hostname_size = 33

abbrev pub default_hostname : Bytes
default_hostname = codes "esp32-terminal"

-- The hostname of wifi_manager_update_hostname and mdns_init_service.
unfoldable pub hostname : Bytes → Bytes
unfolding sanitize_hostname
hostname device_name =
    if length (sanitize_hostname device_name hostname_size) == 0
    then take (hostname_size - 1) default_hostname
    else sanitize_hostname device_name hostname_size

-- wifi_manager_update_hostname; the flag is whether s_sta_netif exists.
unfoldable pub update_hostname : Bool → Bytes → List Call
unfolding hostname
update_hostname has_netif device_name =
    (if has_netif then set_hostname (hostname device_name) ∷ [] else [])
    ++ (mdns_hostname (hostname device_name) ∷ mdns_instance device_name ∷ [])
