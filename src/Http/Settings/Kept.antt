-- ===== src/Http/Settings/Kept.antt =====
-- The settings of handle_config_post (main/web_server.c) that leave the credentials alone.
use esp32_web_terminal.Prelude.{
  ℕ, ◌≡◌, ◌∙◌, inl, inr, Bool, true, false, List, arith, Bytes, codes, ltb, length, ◌==◌, ◌||◌,
  ◌&&◌, Bool-cases, Option-cases,
}
use esp32_web_terminal.Config.Store.{Config, Nvs}
use esp32_web_terminal.Config.Setters.{baud_rate_port, apply_setting, changed, check_password}
use esp32_web_terminal.Wifi
use esp32_web_terminal.Wifi.{Mac, Answers}
use esp32_web_terminal.Wifi.Manage.{connect_sta, disconnect_sta, update_ap}
use esp32_web_terminal.Http.{Server, Effect, Document}
use esp32_web_terminal.Http.Settings.{
  set_config, port_of, listed, to_u32, valid_bauds, post_baud, post_ap, post_sta,
  post_power_default, post_device_name, post_ntp_server, post_timezone, post_disconnect,
}
use esp32_web_terminal.Http.Flow.{Flow, going, answered, after, ◌>>=◌, after_wifi, both}

pub record SameCredentials (c c' : Config) : Type 0 where
  pub user_kept : c'.auth_user ≡ c.auth_user
  pub hash_kept : c'.auth_hash ≡ c.auth_hash
  pub salt_kept : c'.auth_salt ≡ c.auth_salt
  pub initialized_kept : c'.auth_initialized ≡ c.auth_initialized
  pub version_kept : c'.auth_hash_ver ≡ c.auth_hash_ver

pub same_refl : (c : Config) → SameCredentials c c
same_refl c = ground arith

same_trans :
    (c c' c'' : Config) → SameCredentials c c' → SameCredentials c' c'' → SameCredentials c c''
same_trans c c' c'' p q = record {
  user_kept = q.user_kept ∙ p.user_kept;
  hash_kept = q.hash_kept ∙ p.hash_kept;
  salt_kept = q.salt_kept ∙ p.salt_kept;
  initialized_kept = q.initialized_kept ∙ p.initialized_kept;
  version_kept = q.version_kept ∙ p.version_kept;
}

pub check_password-same :
    (sha256 : Bytes → Bytes) (allocated : Bool) (junk password : Bytes) (c c' : Config)
    → SameCredentials c c'
    → check_password sha256 allocated junk password c'
      ≡ check_password sha256 allocated junk password c
unfolding check_password
check_password-same sha256 allocated junk password c c' p = ground arith

-- A step that leaves the credentials alone.
abbrev pub Kept : {S : Type 0} → Server S → Flow S → Type 0
Kept s (going s' es) = SameCredentials s.config s'.config
Kept s (answered s' resp es) = SameCredentials s.config s'.config

after-Kept :
    {S : Type 0} (s : Server S) (es : List Effect) (f : Flow S) → Kept s f → Kept s (after es f)
after-Kept s es (going s' es') k = k
after-Kept s es (answered s' resp es') k = k

weaken-Kept :
    {S : Type 0} (s s' : Server S) (f : Flow S)
    → SameCredentials s.config s'.config
    → Kept s' f
    → Kept s f
weaken-Kept s s' (going s'' es') p k = same_trans s.config s'.config s''.config p k
weaken-Kept s s' (answered s'' resp es') p k = same_trans s.config s'.config s''.config p k

pub >>=-Kept :
    {S : Type 0} (s : Server S) (m : Flow S) (f : Server S → Flow S)
    → Kept s m
    → ((s' : Server S) → Kept s' (f s'))
    → Kept s (m >>= f)
>>=-Kept s (going s' es) f p q = after-Kept s es (f s') (weaken-Kept s s' (f s') p (q s'))
>>=-Kept s (answered s' resp es) f p q = p

module _ (port_max : ℕ) (sha256 : Bytes → Bytes) {S : Type 0} (nvs : Nvs S) (mac : Mac)
    (count : ℕ) where
  after_wifi-Kept :
      (s : Server S) (message : Bytes) (r : Wifi.Reply × Wifi.Wifi × (Config × S) × List Wifi.Call)
      → SameCredentials s.config r.2.0
      → Kept s (after_wifi s message r)
  after_wifi-Kept s message (Wifi.ok, w, stored, calls) k = k
  after_wifi-Kept s message (Wifi.invalid_arg, w, stored, calls) k = k
  after_wifi-Kept s message (Wifi.failed, w, stored, calls) k = k

  update_ap-same :
      (a : Answers) (ssid pass : Bytes) (w : Wifi.Wifi) (stored : Config × S)
      → SameCredentials stored.0 (update_ap port_max sha256 nvs mac a ssid pass w stored).2.0
  unfolding update_ap apply_setting changed
  update_ap-same a ssid pass w stored = ground arith

  connect_sta-same :
      (a : Answers) (ssid pass : Bytes) (w : Wifi.Wifi) (stored : Config × S)
      → SameCredentials stored.0 (connect_sta port_max sha256 nvs mac a ssid pass w stored).2.0
  unfolding connect_sta apply_setting changed
  connect_sta-same a ssid pass w stored = ground arith

  disconnect_sta-same :
      (a : Answers) (w : Wifi.Wifi) (stored : Config × S)
      → SameCredentials stored.0 (disconnect_sta port_max sha256 nvs mac a w stored).2.0
  unfolding disconnect_sta apply_setting changed
  disconnect_sta-same a w stored = ground arith

  baud-same :
      (i rate : ℕ) (s : Server S)
      → SameCredentials s.config
          (set_config port_max sha256 nvs mac count (baud_rate_port i rate) s).config
  unfolding apply_setting changed
  baud-same i rate s = ground arith

  pub post_baud-Kept :
      (d : Document) (s : Server S) → Kept s (post_baud port_max sha256 nvs mac count d s)
  unfolding post_baud
  post_baud-Kept d s = elim (Option-cases (d.number_at (codes "baud_rate"))) [
    | inl e ↦ rw (e, post_baud) (same_refl s.config)
    | inr (rate, e) ↦ elim (Bool-cases (listed (to_u32 rate) valid_bauds)) [
      | inl valid ↦ elim (Option-cases (port_of count (d.number_at (codes "port")))) [
        | inl no_port ↦ rw (e, post_baud, valid, no_port) (same_refl s.config)
        | inr (i, at) ↦ rw (e, post_baud, valid, at) (baud-same i (to_u32 rate) s)
      ]
      | inr invalid ↦ rw (e, post_baud, invalid) (same_refl s.config)
    ]
  ]

  pub post_power_default-Kept :
      (d : Document) (s : Server S) → Kept s (post_power_default port_max sha256 nvs mac count d s)
  unfolding post_power_default apply_setting changed
  post_power_default-Kept d s = elim (Option-cases (d.bool_at (codes "power_on_default"))) [
    | inl e ↦ rw (e, post_power_default) (same_refl s.config)
    | inr (on, e) ↦ rw (e, post_power_default) (ground arith)
  ]

  pub post_device_name-Kept :
      (d : Document) (s : Server S) → Kept s (post_device_name port_max sha256 nvs mac count d s)
  unfolding post_device_name apply_setting changed
  post_device_name-Kept d s = elim (Option-cases (d.string_at (codes "device_name"))) [
    | inl e ↦ rw (e, post_device_name) (same_refl s.config)
    | inr (name, e) ↦ elim (Bool-cases (ltb 0 (length name))) [
      | inl some_name ↦ rw (e, post_device_name, some_name) (ground arith)
      | inr no_name ↦ rw (e, post_device_name, no_name) (same_refl s.config)
    ]
  ]

  pub post_ntp_server-Kept :
      (d : Document) (s : Server S) → Kept s (post_ntp_server port_max sha256 nvs mac count d s)
  unfolding post_ntp_server apply_setting changed
  post_ntp_server-Kept d s = elim (Option-cases (d.string_at (codes "ntp_server"))) [
    | inl e ↦ rw (e, post_ntp_server) (same_refl s.config)
    | inr (server, e) ↦ rw (e, post_ntp_server) (ground arith)
  ]

  pub post_timezone-Kept :
      (d : Document) (s : Server S) → Kept s (post_timezone port_max sha256 nvs mac count d s)
  unfolding post_timezone apply_setting changed
  post_timezone-Kept d s = elim (Option-cases (d.string_at (codes "timezone"))) [
    | inl e ↦ rw (e, post_timezone) (same_refl s.config)
    | inr (tz, e) ↦ rw (e, post_timezone) (ground arith)
  ]

  pub post_disconnect-Kept :
      (a : Answers) (d : Document) (s : Server S)
      → Kept s (post_disconnect port_max sha256 nvs mac count a d s)
  unfolding post_disconnect
  post_disconnect-Kept a d s = elim (Option-cases (d.bool_at (codes "wifi_disconnect"))) [
    | inl e ↦ rw (e, post_disconnect) (same_refl s.config)
    | inr (true, e) ↦
        rw (e, post_disconnect)
          (after_wifi-Kept s _ _ (disconnect_sta-same a s.wifi (s.config, s.store)))
    | inr (false, e) ↦ rw (e, post_disconnect) (same_refl s.config)
  ]

  pub post_sta-Kept :
      (a : Answers) (d : Document) (s : Server S)
      → Kept s (post_sta port_max sha256 nvs mac count a d s)
  unfolding post_sta
  post_sta-Kept a d s =
      elim (Option-cases (both (d.string_at (codes "sta_ssid")) (d.string_at (codes "sta_pass")))) [
        | inl e ↦ rw (e, post_sta) (same_refl s.config)
        | inr ((ssid, pass), e) ↦
            rw (e, post_sta)
              (after_wifi-Kept s _ _ (connect_sta-same a ssid pass s.wifi (s.config, s.store)))
      ]

  pub post_ap-Kept :
      (a : Answers) (d : Document) (s : Server S)
      → Kept s (post_ap port_max sha256 nvs mac count a d s)
  unfolding post_ap
  post_ap-Kept a d s =
      elim (Option-cases (both (d.string_at (codes "ap_ssid")) (d.string_at (codes "ap_pass")))) [
        | inl e ↦ rw (e, post_ap) (same_refl s.config)
        | inr ((ssid, pass), e) ↦ elim (Bool-cases (length ssid == 0 || ltb 27 (length ssid))) [
          | inl unfit ↦ rw (e, post_ap, unfit) (same_refl s.config)
          | inr fit ↦ elim (Bool-cases (ltb 0 (length pass) && ltb (length pass) 8)) [
            | inl short ↦ rw (e, post_ap, fit, short) (same_refl s.config)
            | inr long ↦
                rw (e, post_ap, fit, long)
                  (after_wifi-Kept s _ _ (update_ap-same a ssid pass s.wifi (s.config, s.store)))
          ]
        ]
      ]
