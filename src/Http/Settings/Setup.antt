-- ===== src/Http/Settings/Setup.antt =====
-- handle_config_post of main/web_server.c before the password was changed: only the credentials.
use esp32_web_terminal.Prelude.{
  ℕ, ◌+◌, ◌≡◌, ◌≢◌, refl, ap, ◌∙◌, sym, subst, Bool, true, false, not, ◌&&◌, ◌||◌, Option, none,
  some, List, [], ◌∷◌, ◌++◌, arith, Bytes, codes, ltb, leb, if◌then◌else◌, map, str_eq,
  eq_of_str_eq, str_eq_refl, Bool-cases, Option-cases, inl, inr, All, ℤ,
}
use esp32_web_terminal.Config.Store.{Nvs}
use esp32_web_terminal.Wifi.{Mac, Answers}
use esp32_web_terminal.Http.{Server, Document, setup_locked}
use esp32_web_terminal.Http.Settings.{
  is_credential_key, names_new_password, credentials_only, Draws, post_baud, post_ap, post_sta,
  post_power_default, post_device_name, post_ntp_server, post_timezone, post_disconnect,
  post_password, post_document,
}
use esp32_web_terminal.Http.Flow.{Flow, going, answered, after, ◌>>=◌}

-- A byte without its case, as cJSON_GetObjectItem compares keys.
abbrev pub lower : ℕ → ℕ
lower c = if leb b'A' c && leb c b'Z' then c + 32 else c

unfoldable pub same_key : Bytes → Option Bytes → Bool
unfolding esp32_web_terminal.Prelude.Text.str_eq
same_key k none = false
same_key k (some key) = str_eq (map lower key) (map lower k)

-- Whether an object has a key, but for its case.
unfoldable pub has_key : Bytes → List (Option Bytes) → Bool
unfolding same_key
has_key k [] = false
has_key k (key ∷ keys) = same_key k key || has_key k keys

-- What cJSON finds under a key stands in the object under that key.
pub record IsKeyed (d : Document) : Type 0 where
  pub strings : (k v : Bytes) → d.string_at k ≡ some v → has_key k d.keys ≡ true
  pub numbers : (k : Bytes) (v : ℤ) → d.number_at k ≡ some v → has_key k d.keys ≡ true
  pub bools : (k : Bytes) (v : Bool) → d.bool_at k ≡ some v → has_key k d.keys ≡ true

-- A key that is none of the credentials', whatever the case.
unfoldable pub foreign : Bytes → Bool
unfolding same_key
foreign k =
    not (same_key k (some (codes "new_password")))
    && (not (same_key k (some (codes "current_password")))
        && not (same_key k (some (codes "username"))))

foreign-same_key :
    (k : Bytes) (key : Option Bytes)
    → foreign k ≡ true
    → is_credential_key key ≡ true
    → same_key k key ≡ false
unfolding foreign
foreign-same_key k none f c = cc
foreign-same_key k (some key) f c = elim (Bool-cases (str_eq key (codes "new_password"))) [
  | inl e ↦ rw (eq_of_str_eq key (codes "new_password") e) (ground arith)
  | inr e ↦ elim (Bool-cases (str_eq key (codes "current_password"))) [
    | inl e' ↦ rw (eq_of_str_eq key (codes "current_password") e') (ground arith)
    | inr e' ↦
        let u : str_eq key (codes "username") ≡ true = ground arith in
        rw (eq_of_str_eq key (codes "username") u) (ground arith)
  ]
]

foreign-has_key :
    (k : Bytes) (keys : List (Option Bytes)) (b : Bool)
    → foreign k ≡ true
    → credentials_only keys b ≡ true
    → has_key k keys ≡ false
unfolding credentials_only has_key
foreign-has_key k [] b f h = refl
foreign-has_key k (key ∷ keys) b f h =
    let mine : is_credential_key key ≡ true = ground arith in
    ground
      (arith, foreign-same_key k key f mine, foreign-has_key k keys (b || names_new_password key))

absent_unless {ℓ} :
    {A : Type ℓ} (o : Option A) (b : Bool)
    → ((v : A) → o ≡ some v → b ≡ true)
    → b ≡ false
    → o ≡ none
absent_unless none b h e = refl
absent_unless (some v) b h e = absurd (ground (arith, h v refl))

module _ (d : Document) (keyed : IsKeyed d) (only : credentials_only d.keys false ≡ true) where
  no_string : (k : Bytes) → foreign k ≡ true → d.string_at k ≡ none
  no_string k f =
      absent_unless (d.string_at k) (has_key k d.keys) (keyed.strings k)
        (foreign-has_key k d.keys false f only)

  no_number : (k : Bytes) → foreign k ≡ true → d.number_at k ≡ none
  no_number k f =
      absent_unless (d.number_at k) (has_key k d.keys) (keyed.numbers k)
        (foreign-has_key k d.keys false f only)

  no_bool : (k : Bytes) → foreign k ≡ true → d.bool_at k ≡ none
  no_bool k f =
      absent_unless (d.bool_at k) (has_key k d.keys) (keyed.bools k)
        (foreign-has_key k d.keys false f only)

after-nil : {S : Type 0} (f : Flow S) → after [] f ≡ f
after-nil (going s es) = refl
after-nil (answered s resp es) = refl

pass_on :
    {S : Type 0} (m : Flow S) (f : Server S → Flow S) (s : Server S)
    → m ≡ going s []
    → (m >>= f) ≡ f s
pass_on m f s e = rw (e) (after-nil (f s))

module _ (port_max : ℕ) (sha256 : Bytes → Bytes) {S : Type 0} (nvs : Nvs S) (mac : Mac) (count : ℕ)
    (x : Draws) (d : Document) (keyed : IsKeyed d)
    (only : credentials_only d.keys false ≡ true) where
  post_baud-skips : (s : Server S) → post_baud port_max sha256 nvs mac count d s ≡ going s []
  unfolding post_baud foreign
  post_baud-skips s = rw (no_number d keyed only (codes "baud_rate") refl, post_baud) refl

  post_power_default-skips :
      (s : Server S) → post_power_default port_max sha256 nvs mac count d s ≡ going s []
  unfolding post_power_default foreign
  post_power_default-skips s =
      rw (no_bool d keyed only (codes "power_on_default") refl, post_power_default) refl

  post_device_name-skips :
      (s : Server S) → post_device_name port_max sha256 nvs mac count d s ≡ going s []
  unfolding post_device_name foreign
  post_device_name-skips s =
      rw (no_string d keyed only (codes "device_name") refl, post_device_name) refl

  post_ntp_server-skips :
      (s : Server S) → post_ntp_server port_max sha256 nvs mac count d s ≡ going s []
  unfolding post_ntp_server foreign
  post_ntp_server-skips s =
      rw (no_string d keyed only (codes "ntp_server") refl, post_ntp_server) refl

  post_timezone-skips :
      (s : Server S) → post_timezone port_max sha256 nvs mac count d s ≡ going s []
  unfolding post_timezone foreign
  post_timezone-skips s = rw (no_string d keyed only (codes "timezone") refl, post_timezone) refl

  post_ap-skips :
      (a : Answers) (s : Server S) → post_ap port_max sha256 nvs mac count a d s ≡ going s []
  unfolding post_ap foreign
  post_ap-skips a s = rw (no_string d keyed only (codes "ap_ssid") refl, post_ap) refl

  post_sta-skips :
      (a : Answers) (s : Server S) → post_sta port_max sha256 nvs mac count a d s ≡ going s []
  unfolding post_sta foreign
  post_sta-skips a s = rw (no_string d keyed only (codes "sta_ssid") refl, post_sta) refl

  post_disconnect-skips :
      (a : Answers) (s : Server S)
      → post_disconnect port_max sha256 nvs mac count a d s ≡ going s []
  unfolding post_disconnect foreign
  post_disconnect-skips a s =
      rw (no_bool d keyed only (codes "wifi_disconnect") refl, post_disconnect) refl

  -- With the keys of the credentials alone, no other setting is read.
  pub post_document-password :
      (s : Server S)
      → post_document port_max sha256 nvs mac count x d s
        ≡ post_password port_max sha256 nvs mac count x d s
  unfolding post_document
  post_document-password s =
      let open_setup : (not s.config.auth_initialized && not (credentials_only d.keys false))
          ≡ false =
        ground arith in
      let e1 = post_baud-skips s in
      let e2 =
        pass_on _ (post_ap port_max sha256 nvs mac count x.ap_answers d) s e1
        ∙ post_ap-skips x.ap_answers s in
      let e3 =
        pass_on _ (post_sta port_max sha256 nvs mac count x.sta_answers d) s e2
        ∙ post_sta-skips x.sta_answers s in
      let e4 =
        pass_on _ (post_power_default port_max sha256 nvs mac count d) s e3
        ∙ post_power_default-skips s in
      let e5 =
        pass_on _ (post_device_name port_max sha256 nvs mac count d) s e4
        ∙ post_device_name-skips s in
      let e6 =
        pass_on _ (post_ntp_server port_max sha256 nvs mac count d) s e5
        ∙ post_ntp_server-skips s in
      let e7 =
        pass_on _ (post_timezone port_max sha256 nvs mac count d) s e6 ∙ post_timezone-skips s in
      let e8 =
        pass_on _ (post_disconnect port_max sha256 nvs mac count x.disconnect_answers d) s e7
        ∙ post_disconnect-skips x.disconnect_answers s in
      rw (open_setup) (pass_on _ (post_password port_max sha256 nvs mac count x d) s e8)

module _ (port_max : ℕ) (sha256 : Bytes → Bytes) {S : Type 0} (nvs : Nvs S) (mac : Mac) (count : ℕ)
    (x : Draws) where
  -- With another key, or none for a new password, nothing is read in setup mode.
  pub post_document-refused :
      (d : Document) (s : Server S)
      → s.config.auth_initialized ≡ false
      → credentials_only d.keys false ≡ false
      → post_document port_max sha256 nvs mac count x d s ≡ answered s setup_locked []
  unfolding post_document
  post_document-refused d s setup other = rw (setup, other) refl
