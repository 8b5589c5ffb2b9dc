-- ===== src/Config/Reload.antt =====
-- What save_to_nvs wrote, config_init reads back.
use esp32_web_terminal.Prelude.{
  ℕ, zero, suc, ◌+◌, ◌<◌, ◌≡◌, ◌≢◌, refl, sym, ap, subst, ◌∙◌, Bool, true, false, not, some, List,
  [], ◌∷◌, ◌++◌, arith, Bytes, codes, ltb, leb, ◌==◌, length, drop, get_or,
}
use mathlib.Core.List.{append-nil}
use esp32_web_terminal.Prelude.Text.{str_eq}
use esp32_web_terminal.Config.Hash.{auth_hash_len, auth_salt_len}
use esp32_web_terminal.Config.Store.{
  Value, str, u32, u8, blob, Nvs, Config, ssid_size, pass_size, user_size, name_size, server_size,
  timezone_size, baud_key, load_string, load_u32, load_u8, load_blob, load_bauds, load_auth, load,
  u8_flag, entries, save_to_nvs, Draw,
}
use esp32_web_terminal.Config.Entries.{
  found, read_back, found_other, found_baud, last_entries, no_baud,
}

-- The strings and buffers fit, and there is a baud rate for each port.
pub record IsConfig (port_max : ℕ) (c : Config) : Type 0 where
  pub sta_ssid : length c.sta_ssid < ssid_size
  pub sta_pass : length c.sta_pass < pass_size
  pub ap_ssid : length c.ap_ssid < ssid_size
  pub ap_pass : length c.ap_pass < pass_size
  pub baud_rate : length c.baud_rate ≡ port_max
  pub auth_user : length c.auth_user < user_size
  pub auth_hash : length c.auth_hash ≡ auth_hash_len
  pub auth_salt : length c.auth_salt ≡ auth_salt_len
  pub device_name : length c.device_name < name_size
  pub ntp_server : length c.ntp_server < server_size
  pub timezone : length c.timezone < timezone_size

-- A key that does not start like those of the baud rates.
not_baud : (b : ℕ) (key : Bytes) → b ≢ 98 → (j : ℕ) → str_eq (baud_key j) (b ∷ key) ≡ false
unfolding str_eq
not_baud b key ne zero = ground arith
not_baud b key ne (suc j) = ground arith

-- The entries but for the baud rates.
abbrev other_entries : Config → List (Bytes × Value)
other_entries c =
    (codes "sta_ssid", str c.sta_ssid)
    ∷ (codes "sta_pass", str c.sta_pass)
    ∷ (codes "ap_ssid", str c.ap_ssid)
    ∷ (codes "ap_pass", str c.ap_pass)
    ∷ (codes "auth_user", str c.auth_user)
    ∷ last_entries c

found-entries :
    (b : ℕ) (key : Bytes) (c : Config)
    → b ≢ 98
    → found (b ∷ key) (entries c) ≡ found (b ∷ key) (other_entries c)
unfolding found entries
found-entries b key c ne =
    rw (found_other (last_entries c) (b ∷ key) 0 c.baud_rate (not_baud b key ne)) refl

found_baud_rate :
    (k : ℕ) (c : Config)
    → k < length c.baud_rate
    → found (baud_key (0 + k)) (entries c) ≡ some (u32 (get_or c.baud_rate k 0))
unfolding found entries
found_baud_rate k c lt =
    rw (found_baud (last_entries c) 0 k c.baud_rate lt (no_baud c (0 + k))) refl

module _ {S : Type 0} (nvs : Nvs S) (c : Config) (s : S) where
  entry :
      (b : ℕ) (key : Bytes) (v : Value)
      → b ≢ 98
      → found (b ∷ key) (other_entries c) ≡ some v
      → nvs.get (b ∷ key) (save_to_nvs nvs c s) ≡ some v
  unfolding save_to_nvs
  entry b key v ne e = read_back nvs (b ∷ key) (entries c) v s (found-entries b key c ne ∙ e)

  baud_entry :
      (k : ℕ)
      → k < length c.baud_rate
      → nvs.get (baud_key (0 + k)) (save_to_nvs nvs c s) ≡ some (u32 (get_or c.baud_rate k 0))
  unfolding save_to_nvs
  baud_entry k lt = read_back nvs (baud_key (0 + k)) (entries c) _ s (found_baud_rate k c lt)

module _ {S : Type 0} (nvs : Nvs S) (s : S) where
  load_string-some :
      (key : Bytes) (size : ℕ) (buf def v : Bytes)
      → nvs.get key s ≡ some (str v)
      → length v < size
      → load_string nvs key size buf def s ≡ v
  load_string-some key size buf def v e lt =
      let fits : ltb (length v) size ≡ true = ground arith in rw (e, fits, load_string) refl

  load_u8-some : (key : Bytes) (d n : ℕ) → nvs.get key s ≡ some (u8 n) → load_u8 nvs key d s ≡ n
  load_u8-some key d n e = rw (e, load_u8) refl

  load_flag :
      (key : Bytes) (d : ℕ) (b : Bool)
      → nvs.get key s ≡ some (u8 (u8_flag b))
      → not (load_u8 nvs key d s == 0) ≡ b
  load_flag key d true e = rw (e, load_u8) refl
  load_flag key d false e = rw (e, load_u8) refl

  load_blob-some :
      (key buf v : Bytes)
      → nvs.get key s ≡ some (blob v)
      → length v ≡ length buf
      → load_blob nvs key buf s ≡ (true, v)
  load_blob-some key buf v e l =
      let fits : leb (length v) (length buf) ≡ true = ground arith in
      rw (e, fits, load_blob)
        (ap (λ t. (true, v ++ t)) (drop_whole buf (length v) (omega arith))
          ∙ ap (λ t. (true, t)) (append-nil v))
    where
      drop_whole : (xs : Bytes) (n : ℕ) → length xs ≡ n → drop n xs ≡ []
      drop_whole [] zero l = refl
      drop_whole [] (suc n) l = refl
      drop_whole (x ∷ xs) zero l = absurd (omega arith)
      drop_whole (x ∷ xs) (suc n) l = drop_whole xs n (omega arith)

  load_bauds-entries :
      (i : ℕ) (bs : List ℕ)
      → ((k : ℕ) → k < length bs → nvs.get (baud_key (i + k)) s ≡ some (u32 (get_or bs k 0)))
      → load_bauds nvs i (length bs) s ≡ bs
  unfolding load_bauds
  load_bauds-entries i [] h = refl
  load_bauds-entries i (b ∷ bs) h =
      let here : i + 0 ≡ i = omega arith in
      let first = subst (λ j. nvs.get (baud_key j) s ≡ some (u32 b)) here (h 0 (omega arith)) in
      rw (first, load_u32, load_bauds)
        (ap (◌∷◌ b) (
          load_bauds-entries (suc i) bs (λ k lt.
            let there : i + suc k ≡ suc i + k = omega arith in
            subst (λ j. nvs.get (baud_key j) s ≡ some (u32 (get_or bs k 0))) there
              (h (suc k) (omega arith)))))

module _ {S : Type 0} (port_max : ℕ) (sha256 : Bytes → Bytes) (nvs : Nvs S) (d : Draw)
    (b c : Config) (s : S) (vb : IsConfig port_max b) (v : IsConfig port_max c) where
  abbrev saved : S
  saved = save_to_nvs nvs c s

  reloaded_auth : load_auth port_max sha256 nvs d b saved ≡ record b {
    auth_hash = c.auth_hash;
    auth_salt = c.auth_salt;
    auth_hash_ver = c.auth_hash_ver;
  }
  unfolding load_auth found str_eq
  reloaded_auth =
      let hash =
        load_blob-some nvs saved (codes "auth_hash") b.auth_hash c.auth_hash
          (entry nvs c s 97 (codes "uth_hash") (blob c.auth_hash) (λ p. ground arith) refl)
          (v.auth_hash ∙ sym vb.auth_hash) in
      let salt =
        load_blob-some nvs saved (codes "auth_salt") b.auth_salt c.auth_salt
          (entry nvs c s 97 (codes "uth_salt") (blob c.auth_salt) (λ p. ground arith) refl)
          (v.auth_salt ∙ sym vb.auth_salt) in
      let version =
        load_u8-some nvs saved (codes "hash_ver") 0 c.auth_hash_ver
          (entry nvs c s 104 (codes "ash_ver") (u8 c.auth_hash_ver) (λ p. ground arith) refl) in
      rw (hash, salt, version) refl

  text :
      (k : ℕ) (key : Bytes) (size : ℕ) (buf def t : Bytes)
      → k ≢ 98
      → found (k ∷ key) (other_entries c) ≡ some (str t)
      → length t < size
      → load_string nvs (k ∷ key) size buf def saved ≡ t
  text k key size buf def t ne e lt =
      load_string-some nvs saved (k ∷ key) size buf def t (entry nvs c s k key (str t) ne e) lt

  flag :
      (k : ℕ) (key : Bytes) (def : ℕ) (on : Bool)
      → k ≢ 98
      → found (k ∷ key) (other_entries c) ≡ some (u8 (u8_flag on))
      → not (load_u8 nvs (k ∷ key) def saved == 0) ≡ on
  flag k key def on ne e = load_flag nvs saved (k ∷ key) def on (entry nvs c s k key _ ne e)

  bauds : load_bauds nvs 0 port_max saved ≡ c.baud_rate
  bauds =
      ap (λ n. load_bauds nvs 0 n saved) (sym v.baud_rate)
      ∙ load_bauds-entries nvs saved 0 c.baud_rate (baud_entry nvs c s)

  -- A configuration that was saved is the one that config_init reads at the next boot, whatever
  -- NVS and s_config held before.
  pub load-save_to_nvs : load port_max sha256 nvs d b (save_to_nvs nvs c s) ≡ c
  unfolding load found str_eq
  load-save_to_nvs =
      let e0 =
        text 115 (codes "ta_ssid") ssid_size b.sta_ssid [] c.sta_ssid (λ p. ground arith) refl
          v.sta_ssid in
      let e1 =
        text 115 (codes "ta_pass") pass_size b.sta_pass [] c.sta_pass (λ p. ground arith) refl
          v.sta_pass in
      let e2 =
        text 97 (codes "p_ssid") ssid_size b.ap_ssid (codes "ESP-Terminal") c.ap_ssid
          (λ p. ground arith) refl v.ap_ssid in
      let e3 =
        text 97 (codes "p_pass") pass_size b.ap_pass (codes "esp32term") c.ap_pass
          (λ p. ground arith) refl v.ap_pass in
      let e4 =
        text 97 (codes "uth_user") user_size b.auth_user (codes "admin") c.auth_user
          (λ p. ground arith) refl v.auth_user in
      let e5 =
        text 100 (codes "ev_name") name_size b.device_name (codes "ESP32 Terminal") c.device_name
          (λ p. ground arith) refl v.device_name in
      let e6 =
        text 110 (codes "tp_srv") server_size b.ntp_server [] c.ntp_server (λ p. ground arith) refl
          v.ntp_server in
      let e7 =
        text 116 (codes "imezone") timezone_size b.timezone (codes "UTC0") c.timezone
          (λ p. ground arith) refl v.timezone in
      let on = flag 112 (codes "ower_on") 1 c.power_on_default (λ p. ground arith) refl in
      let set = flag 97 (codes "uth_init") 0 c.auth_initialized (λ p. ground arith) refl in
      rw (reloaded_auth, e0, e1, e2, e3, e4, e5, e6, e7, bauds, on, set) refl
