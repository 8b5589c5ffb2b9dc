-- ===== src/Http/Settings/Password.antt =====
-- What the password part of handle_config_post of main/web_server.c comes to.
use esp32_web_terminal.Prelude.{
  ℕ, ◌≤◌, ◌≡◌, refl, ◌⊎◌, true, false, Option, none, some, [], arith, Bytes, codes, ltb, length,
  ◌==◌, ◌||◌, Bool-cases, Option-cases, inl, inr,
}
use esp32_web_terminal.Config.Store.{Nvs}
use esp32_web_terminal.Config.Setters.{check_password}
use esp32_web_terminal.Wifi.{Mac}
use esp32_web_terminal.Http.{Server, Response, error, Document}
use esp32_web_terminal.Http.Settings.{
  Draws, min_password_len, user_max, post_password, password_wrong, change_password,
}
use esp32_web_terminal.Http.Flow.{Flow, going, answered}

module _ (port_max : ℕ) (sha256 : Bytes → Bytes) {S : Type 0} (nvs : Nvs S) (mac : Mac) (count : ℕ)
    (x : Draws) (d : Document) (s : Server S) where
  -- A change of the password: the current one was given and is right.
  pub record Change (f : Flow S) : Type 0 where
    pub user : Bytes
    pub new_pass : Bytes
    pub current : Bytes
    pub given : d.string_at (codes "new_password") ≡ some new_pass
    pub long_enough : min_password_len ≤ length new_pass
    pub current_given : d.string_at (codes "current_password") ≡ some current
    pub current_right : check_password sha256 x.allocated x.junk current s.config ≡ true
    pub is_change : f ≡ change_password port_max sha256 nvs mac count x.draw user new_pass s

  abbrev pub Cases : Flow S → Type 0
  Cases f = (f ≡ going s []) ⊎ (((resp : Response) × (f ≡ answered s resp [])) ⊎ Change f)

  right_current :
      (o : Option Bytes)
      → password_wrong port_max sha256 nvs mac count x o s.config ≡ false
      → (current : Bytes) × (o ≡ some current)
        × (check_password sha256 x.allocated x.junk current s.config ≡ true)
  right_current none e = absurd (ground arith)
  right_current (some current) e = (current, refl, ground arith)

  -- The rest, once a long enough password and the right current one are there.
  named :
      (new_pass current : Bytes)
      → d.string_at (codes "new_password") ≡ some new_pass
      → ltb (length new_pass) min_password_len ≡ false
      → password_wrong port_max sha256 nvs mac count x
          (d.string_at (codes "current_password"))
          s.config
        ≡ false
      → d.string_at (codes "current_password") ≡ some current
      → check_password sha256 x.allocated x.junk current s.config ≡ true
      → Cases (post_password port_max sha256 nvs mac count x d s)
  unfolding post_password
  named new_pass current e long right given_now ok =
      elim (Option-cases (d.string_at (codes "username"))) [
        | inl own ↦ inr (
            inr (record {
              user = s.config.auth_user;
              new_pass = new_pass;
              current = current;
              given = e;
              long_enough = ground arith;
              current_given = given_now;
              current_right = ok;
              is_change = rw (e, post_password, long, right, own) refl;
            }))
        | inr (user, u) ↦ elim (Bool-cases (length user == 0 || ltb user_max (length user))) [
          | inl unfit ↦ inr (
              inl (
                error 400 (codes "Username must be 1-32 characters"),
                rw (e, post_password, long, right, u, unfit) refl,
              ))
          | inr fit ↦ inr (
              inr (record {
                user = user;
                new_pass = new_pass;
                current = current;
                given = e;
                long_enough = ground arith;
                current_given = given_now;
                current_right = ok;
                is_change = rw (e, post_password, long, right, u, fit) refl;
              }))
        ]
      ]

  pub post_password-Cases : Cases (post_password port_max sha256 nvs mac count x d s)
  unfolding post_password
  post_password-Cases = elim (Option-cases (d.string_at (codes "new_password"))) [
    | inl e ↦ inl (rw (e, post_password) refl)
    | inr (new_pass, e) ↦ elim (Bool-cases (ltb (length new_pass) 8)) [
      | inl short ↦ inr (
          inl (
            error 400 (codes "New password must be 8+ characters"),
            rw (e, post_password, short) refl,
          ))
      | inr long ↦
          elim (Bool-cases (
            password_wrong port_max sha256 nvs mac count x (d.string_at (codes "current_password"))
              s.config)) [
                | inl wrong ↦ inr (
                    inl (
                      error 401 (codes "Current password required"),
                      rw (e, post_password, long, wrong) refl,
                    ))
                | inr right ↦
                    let (current, given_now, ok) =
                      right_current (d.string_at (codes "current_password")) right in
                    named new_pass current e long right given_now ok
              ]
    ]
  ]
