-- ===== src/Config/Tests.antt =====
-- The theorems on the configuration over a store and a digest that fulfil what is asked of them.
use esp32_web_terminal.Prelude.{
  ◌%◌, ◌<◌, ◌≡◌, ◌≢◌, ◌↔◌, refl, sym, true, Option, none, some, List, [], ◌∷◌, Bytes, codes, arith,
  All, All-replicate, replicate, length, if◌then◌else◌, Bool-cases, inl, inr, eq_of_str_eq,
  str_eq_refl,
}
use esp32_web_terminal.Prelude.Text.{str_eq}
use esp32_web_terminal.Config.Hash.{compute_hash, hash_size}
use esp32_web_terminal.Config.Store.{
  Value, Nvs, Config, Draw, blank_config, config_init, opened, with_password, copy_string,
  user_size,
}
use esp32_web_terminal.Config.Setters.{Setting, credentials, changed, apply_setting, check_password}
use esp32_web_terminal.Config.Password.{Buffer, check_password-credentials}
use esp32_web_terminal.Config.Reload.{IsConfig}
use esp32_web_terminal.Config.Settings.{reboot-apply_setting}

-- A store as the list of its writes, the last one first.
abbrev pub Writes : Type 0
Writes = List (Bytes × Value)

abbrev pub lookup : Bytes → Writes → Option Value
lookup key [] = none
lookup key ((k, v) ∷ kvs) = if str_eq k key then some v else lookup key kvs

pub writes : Nvs Writes
writes = record {
  get = lookup;
  put = λ key v s. (key, v) ∷ s;
  get-put_self = λ key v s. rw (str_eq_refl key) refl;
  get-put_ne = λ key other v s ne. skipped key other v s ne;
}
  where
    skipped :
        (key other : Bytes) (v : Value) (s : Writes)
        → other ≢ key
        → lookup other ((key, v) ∷ s) ≡ lookup other s
    skipped key other v s ne = elim (Bool-cases (str_eq key other)) [
      | inl e ↦ absurd (ne (sym (eq_of_str_eq key other e)))
      | inr e ↦ rw (e) refl
    ]

-- A digest of the right size.
abbrev pub digest : Bytes → Bytes
digest m = replicate 32 (length m % 256)

digest-Buffer : (m : Bytes) → Buffer hash_size (digest m)
digest-Buffer m = (refl, All-replicate (λ b. b < 256) 32 (length m % 256) (omega arith))

blank-IsConfig : IsConfig 2 (blank_config 2)
blank-IsConfig = ground arith

abbrev draw : Draw
draw = record { salt = replicate 16 5; allocated = true }

abbrev set_login : Setting
set_login = credentials draw (codes "admin") (codes "secret")

abbrev with_login : Config
with_login = record (with_password 2 digest draw (codes "secret") (blank_config 2)) {
  auth_user = copy_string user_size (codes "admin");
  auth_initialized = true;
}

login_changed : changed 2 digest set_login (blank_config 2) ≡ some with_login
unfolding changed
login_changed = refl

reboot-apply_setting_example :
    config_init 2 digest writes opened draw
      (blank_config 2)
      (apply_setting 2 digest writes set_login (blank_config 2, [])).1
    ≡ some (apply_setting 2 digest writes set_login (blank_config 2, [])).0
reboot-apply_setting_example =
    reboot-apply_setting 2 digest digest-Buffer writes set_login draw (blank_config 2)
      (blank_config 2) with_login [] refl blank-IsConfig blank-IsConfig login_changed

abbrev junk : Bytes
junk = replicate 32 9

check_password-credentials_example :
    (check_password digest true junk (codes "guess") with_login ≡ true) ↔ (
      compute_hash digest true (codes "guess") draw.salt junk
      ≡ compute_hash digest true (codes "secret") draw.salt junk)
check_password-credentials_example =
    check_password-credentials digest digest-Buffer 2 draw (codes "admin") (codes "secret")
      (codes "guess") junk (blank_config 2) with_login refl refl refl login_changed

junk-bytes : All (λ b. b < 256) junk
junk-bytes = All-replicate (λ b. b < 256) 32 9 (omega arith)
