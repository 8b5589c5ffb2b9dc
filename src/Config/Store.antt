-- ===== src/Config/Store.antt =====
-- main/config.c: the configuration in memory, its keys in NVS, config_init and save_to_nvs.
use esp32_web_terminal.Prelude.{
  ℕ, zero, suc, ◌+◌, ◌-◌, ◌≡◌, ◌≢◌, Bool, true, false, not, Option, none, some, List, [], ◌∷◌, ◌++◌,
  Bytes, codes, ltb, leb, ◌==◌, if◌then◌else◌, length, take, drop, replicate,
}
use esp32_web_terminal.Config.Hash.{compute_hash, auth_hash_len, auth_salt_len}

-- The values of NVS, by the type they were written with.
pub data Value : Type 0 where
  str : Bytes → Value
  u32 : ℕ → Value
  u8 : ℕ → Value
  blob : Bytes → Value

-- A namespace of NVS that takes what is written to it: a key reads back as the value last written.
pub record Nvs (S : Type 0) : Type 0 where
  pub get : Bytes → S → Option Value
  pub put : Bytes → Value → S → S
  pub get-put_self : (key : Bytes) (v : Value) (s : S) → get key (put key v s) ≡ some v
  pub get-put_ne :
      (key other : Bytes) (v : Value) (s : S) → other ≢ key → get other (put key v s) ≡ get other s

-- app_config_t
pub record Config : Type 0 where
  pub sta_ssid : Bytes
  pub sta_pass : Bytes
  pub ap_ssid : Bytes
  pub ap_pass : Bytes
  pub baud_rate : List ℕ
  pub power_on_default : Bool
  pub auth_user : Bytes
  pub auth_hash : Bytes
  pub auth_salt : Bytes
  pub auth_initialized : Bool
  pub auth_hash_ver : ℕ
  pub device_name : Bytes
  pub ntp_server : Bytes
  pub timezone : Bytes

abbrev pub ssid_size : ℕ
ssid_size = 33

abbrev pub pass_size : ℕ
pass_size = 65

abbrev pub user_size : ℕ
user_size = 33

abbrev pub name_size : ℕ
name_size = 33

abbrev pub server_size : ℕ
server_size = 65

abbrev pub timezone_size : ℕ
timezone_size = 41

abbrev pub default_baud_rate : ℕ
default_baud_rate = 115200

-- strncpy into a buffer of `size` bytes, and its terminator.
abbrev pub copy_string : ℕ → Bytes → Bytes
copy_string size src = take (size - 1) src

-- The key of a port's baud rate: "baud_rate" and, from port 1 on, its number, which is one digit.
abbrev pub baud_key : ℕ → Bytes
baud_key zero = codes "baud_rate"
baud_key (suc i) = codes "baud_rate" ++ ((49 + i) ∷ [])

-- load_string for a key that NVS has: an error leaves the buffer.
abbrev pub string_of : ℕ → Bytes → Value → Bytes
string_of size buf (str b) = if ltb (length b) size then b else buf
string_of size buf (u32 n) = buf
string_of size buf (u8 n) = buf
string_of size buf (blob b) = buf

abbrev pub u32_of : ℕ → Value → ℕ
u32_of d (u32 n) = n
u32_of d (u8 n) = d
u32_of d (str b) = d
u32_of d (blob b) = d

abbrev pub u8_of : ℕ → Value → ℕ
u8_of d (u8 n) = n
u8_of d (u32 n) = d
u8_of d (str b) = d
u8_of d (blob b) = d

-- nvs_get_blob into a buffer: whether it succeeds, and the buffer.
abbrev pub blob_of : Bytes → Value → Bool × Bytes
blob_of buf (blob b) =
    if leb (length b) (length buf) then (true, b ++ drop (length b) buf) else (false, buf)
blob_of buf (str b) = (false, buf)
blob_of buf (u32 n) = (false, buf)
blob_of buf (u8 n) = (false, buf)

-- How nvs_open ends.
pub data Opened : Type 0 where
  opened not_found failed : Opened

-- s_config before config_init.
abbrev pub blank_config : ℕ → Config
blank_config port_max = record {
  sta_ssid = [];
  sta_pass = [];
  ap_ssid = [];
  ap_pass = [];
  baud_rate = replicate port_max 0;
  power_on_default = false;
  auth_user = [];
  auth_hash = replicate auth_hash_len 0;
  auth_salt = replicate auth_salt_len 0;
  auth_initialized = false;
  auth_hash_ver = 0;
  device_name = [];
  ntp_server = [];
  timezone = [];
}

-- What is drawn while a password is hashed: the bytes of the salt, and whether the salt block of
-- the hash can be allocated.
pub record Draw : Type 0 where
  pub salt : Bytes
  pub allocated : Bool

module _ {S : Type 0} (nvs : Nvs S) where
  abbrev pub load_string : Bytes → ℕ → Bytes → Bytes → S → Bytes
  load_string key size buf def s = elim (nvs.get key s) [
    | none ↦ copy_string size def
    | some v ↦ string_of size buf v
  ]

  abbrev pub load_u32 : Bytes → ℕ → S → ℕ
  load_u32 key d s = elim (nvs.get key s) [ none ↦ d | some v ↦ u32_of d v ]

  abbrev pub load_u8 : Bytes → ℕ → S → ℕ
  load_u8 key d s = elim (nvs.get key s) [ none ↦ d | some v ↦ u8_of d v ]

  abbrev pub load_blob : Bytes → Bytes → S → Bool × Bytes
  load_blob key buf s = elim (nvs.get key s) [ none ↦ (false, buf) | some v ↦ blob_of buf v ]

  -- The baud rates of some ports, from port `i` on.
  unfoldable pub load_bauds : ℕ → ℕ → S → List ℕ
  load_bauds i zero s = []
  load_bauds i (suc n) s = load_u32 (baud_key i) default_baud_rate s ∷ load_bauds (suc i) n s

module _ (port_max : ℕ) (sha256 : Bytes → Bytes) where
  -- A new salt, and the hash of a password under it.
  abbrev pub with_password : Draw → Bytes → Config → Config
  with_password d password c = record c {
    auth_salt = d.salt;
    auth_hash = compute_hash sha256 d.allocated password d.salt c.auth_hash;
    auth_hash_ver = 1;
  }

  -- The branch of config_init for the first boot.
  unfoldable pub first_boot : Draw → Config → Config
  first_boot d c = with_password d (codes "admin") (record (blank_config port_max) {
    ap_ssid = copy_string ssid_size (codes "ESP-Terminal");
    ap_pass = copy_string pass_size (codes "esp32term");
    baud_rate = replicate port_max default_baud_rate;
    power_on_default = true;
    device_name = copy_string name_size (codes "ESP32 Terminal");
    timezone = copy_string timezone_size (codes "UTC0");
    auth_user = copy_string user_size (codes "admin");
  })

  module _ {S : Type 0} (nvs : Nvs S) where
    -- The password record: the stored one, or one for the default password.
    unfoldable pub load_auth : Draw → Config → S → Config
    load_auth d c s =
        let stored = load_blob nvs (codes "auth_hash") c.auth_hash s in
        if stored.0
        then record c {
          auth_hash = stored.1;
          auth_salt = (load_blob nvs (codes "auth_salt") c.auth_salt s).1;
          auth_hash_ver = load_u8 nvs (codes "hash_ver") 0 s;
        }
        else with_password d (codes "admin") (record c { auth_hash = stored.1 })

    -- The rest of config_init, once the namespace is open.
    unfoldable pub load : Draw → Config → S → Config
    unfolding load_auth load_bauds
    load d c s = record (load_auth d c s) {
      sta_ssid = load_string nvs (codes "sta_ssid") ssid_size c.sta_ssid [] s;
      sta_pass = load_string nvs (codes "sta_pass") pass_size c.sta_pass [] s;
      ap_ssid = load_string nvs (codes "ap_ssid") ssid_size c.ap_ssid (codes "ESP-Terminal") s;
      ap_pass = load_string nvs (codes "ap_pass") pass_size c.ap_pass (codes "esp32term") s;
      auth_user = load_string nvs (codes "auth_user") user_size c.auth_user (codes "admin") s;
      device_name =
          load_string nvs (codes "dev_name") name_size c.device_name (codes "ESP32 Terminal") s;
      ntp_server = load_string nvs (codes "ntp_srv") server_size c.ntp_server [] s;
      timezone = load_string nvs (codes "timezone") timezone_size c.timezone (codes "UTC0") s;
      baud_rate = load_bauds nvs 0 port_max s;
      power_on_default = not (load_u8 nvs (codes "power_on") 1 s == 0);
      auth_initialized = not (load_u8 nvs (codes "auth_init") 0 s == 0);
    }

    -- config_init after the flash is ready; it aborts (`none`) on any other error of nvs_open.
    unfoldable pub config_init : Opened → Draw → Config → S → Option Config
    unfolding first_boot load
    config_init not_found d c s = some (first_boot d c)
    config_init opened d c s = some (load d c s)
    config_init failed d c s = none

abbrev pub u8_flag : Bool → ℕ
u8_flag b = if b then 1 else 0

unfoldable pub baud_entries : ℕ → List ℕ → List (Bytes × Value)
baud_entries i [] = []
baud_entries i (b ∷ bs) = (baud_key i, u32 b) ∷ baud_entries (suc i) bs

-- The writes of save_to_nvs, in order.
unfoldable pub entries : Config → List (Bytes × Value)
unfolding baud_entries
entries c =
    (codes "sta_ssid", str c.sta_ssid)
      ∷ (codes "sta_pass", str c.sta_pass)
      ∷ (codes "ap_ssid", str c.ap_ssid)
      ∷ (codes "ap_pass", str c.ap_pass)
      ∷ (codes "auth_user", str c.auth_user)
      ∷ baud_entries 0 c.baud_rate
    ++ ((codes "power_on", u8 (u8_flag c.power_on_default))
        ∷ (codes "auth_hash", blob c.auth_hash)
        ∷ (codes "auth_salt", blob c.auth_salt)
        ∷ (codes "auth_init", u8 (u8_flag c.auth_initialized))
        ∷ (codes "hash_ver", u8 c.auth_hash_ver)
        ∷ (codes "dev_name", str c.device_name)
        ∷ (codes "ntp_srv", str c.ntp_server)
        ∷ (codes "timezone", str c.timezone)
        ∷ [])

module _ {S : Type 0} (nvs : Nvs S) where
  unfoldable pub write_all : List (Bytes × Value) → S → S
  write_all [] s = s
  write_all ((key, v) ∷ kvs) s = write_all kvs (nvs.put key v s)

  unfoldable pub save_to_nvs : Config → S → S
  unfolding entries write_all
  save_to_nvs c s = write_all (entries c) s
