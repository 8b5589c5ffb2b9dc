-- ===== src/Http/Settings/Credentials.antt =====
-- handle_config_post of main/web_server.c and the credentials: who can change them, and what then
-- becomes of the sessions and the WebSocket clients.
use esp32_web_terminal.Prelude.{
  ℕ, ◌≡◌, refl, sym, ◌∙◌, ◌⊎◌, inl, inr, true, false, not, Option, none, some, List, [], ◌∷◌, arith,
  Bytes, codes, ◌&&◌, Bool-cases, Option-cases, All,
}
use esp32_web_terminal.Auth.Sessions.{Session, invalidate_all_sessions}
use esp32_web_terminal.Auth.Request.{check_request}
use esp32_web_terminal.Config.Store.{Nvs}
use esp32_web_terminal.Config.Setters.{check_password}
use esp32_web_terminal.Wifi.{Mac}
use esp32_web_terminal.Ws.Clients.{Client, close_all}
use esp32_web_terminal.Http.{
  Server, Effect, Request, Document, Outcome, require_auth, with_sessions,
}
use esp32_web_terminal.Http.Body.{Body, absent, bad, body, read_body}
use esp32_web_terminal.Http.Settings.{
  Draws, post_ap, post_sta, post_power_default, post_device_name, post_ntp_server, post_timezone,
  post_disconnect, post_password, change_password, post_document, post_body, handle_config_post,
  credentials_only,
}
use esp32_web_terminal.Http.Flow.{Flow, going, answered, after, ◌>>=◌, finished}
use esp32_web_terminal.Http.Settings.Password.{post_password-Cases}
use esp32_web_terminal.Http.Settings.Kept.{
  SameCredentials, Kept, same_refl, check_password-same, >>=-Kept, post_baud-Kept,
  post_power_default-Kept, post_device_name-Kept, post_ntp_server-Kept, post_timezone-Kept,
  post_disconnect-Kept, post_sta-Kept, post_ap-Kept,
}

module _ (port_max : ℕ) (sha256 : Bytes → Bytes) {S : Type 0} (nvs : Nvs S) (mac : Mac)
    (count : ℕ) where
  -- The credentials were changed by a document that gives the current password, and no session and no
  -- WebSocket client survived.
  pub record Replaced (x : Draws) (d : Document) (s s' : Server S) : Type 0 where
    pub current : Bytes
    pub current_given : d.string_at (codes "current_password") ≡ some current
    pub current_right : check_password sha256 x.allocated x.junk current s.config ≡ true
    pub sessions_ended : All (λ (e : Session). e.active ≡ false) s'.auth.sessions
    pub clients_closed : All (λ (c : Client). c.active ≡ false) s'.clients

  -- A body, read and parsed, that is such a document.
  abbrev pub Authorised : (Bytes → Option Document) → Draws → Body → Server S → Server S → Type 0
  Authorised parse x b s s' =
      (bytes : Bytes) × (d : Document) × (b ≡ body bytes)
      × (parse bytes ≡ some d)
      × Replaced x d s s'

  abbrev pub Guarded : (Bytes → Option Document) → Draws → Body → Server S → Outcome S → Type 0
  Guarded parse x b s none = Unit {0}
  Guarded parse x b s (some (s', resp, es)) =
      SameCredentials s.config s'.config ⊎ Authorised parse x b s s'

  abbrev GuardedFlow : Draws → Document → Server S → Flow S → Type 0
  GuardedFlow x d s (going s' es) = SameCredentials s.config s'.config ⊎ Replaced x d s s'
  GuardedFlow x d s (answered s' resp es) = SameCredentials s.config s'.config ⊎ Replaced x d s s'

  All-ended :
      (ss : List Session) → All (λ (e : Session). e.active ≡ false) (invalidate_all_sessions ss)
  unfolding invalidate_all_sessions
  All-ended [] = tt
  All-ended (s ∷ ss) = (refl, All-ended ss)

  All-closed : (cs : List Client) → All (λ (c : Client). c.active ≡ false) (close_all cs).0
  unfolding close_all
  All-closed [] = tt
  All-closed (c ∷ cs) = ground (arith, All-closed cs)

  change_password-Replaced :
      (x : Draws) (d : Document) (user password current : Bytes) (s s' : Server S)
      → d.string_at (codes "current_password") ≡ some current
      → check_password sha256 x.allocated x.junk current s.config ≡ true
      → GuardedFlow x d s (change_password port_max sha256 nvs mac count x.draw user password s')
  unfolding change_password
  change_password-Replaced x d user password current s s' given right = inr (record {
    current = current;
    current_given = given;
    current_right = right;
    sessions_ended = All-ended s'.auth.sessions;
    clients_closed = All-closed s'.clients;
  })

  -- The last step, from a state with the credentials of the first.
  post_password-Guarded :
      (x : Draws) (d : Document) (s s' : Server S)
      → SameCredentials s.config s'.config
      → GuardedFlow x d s (post_password port_max sha256 nvs mac count x d s')
  post_password-Guarded x d s s' k =
      elim (post_password-Cases port_max sha256 nvs mac count x d s') [
        | inl e ↦ rw (e) (inl k)
        | inr (inl (resp, e)) ↦ rw (e) (inl k)
        | inr (inr c) ↦
            let right =
              sym (check_password-same sha256 x.allocated x.junk c.current s.config s'.config k)
              ∙ c.current_right in
            rw (c.is_change)
              (change_password-Replaced x d c.user c.new_pass c.current s s' c.current_given right)
      ]

  after-Guarded :
      (x : Draws) (d : Document) (s : Server S) (es : List Effect) (f : Flow S)
      → GuardedFlow x d s f
      → GuardedFlow x d s (after es f)
  after-Guarded x d s es (going s' es') g = g
  after-Guarded x d s es (answered s' resp es') g = g

  then_password :
      (x : Draws) (d : Document) (s : Server S) (m : Flow S)
      → Kept s m
      → GuardedFlow x d s (m >>= post_password port_max sha256 nvs mac count x d)
  then_password x d s (going s' es) k =
      after-Guarded x d s es (post_password port_max sha256 nvs mac count x d s')
        (post_password-Guarded x d s s' k)
  then_password x d s (answered s' resp es) k = inl k

  post_document-Guarded :
      (x : Draws) (d : Document) (s : Server S)
      → GuardedFlow x d s (post_document port_max sha256 nvs mac count x d s)
  unfolding post_document
  post_document-Guarded x d s =
      let k1 = post_baud-Kept port_max sha256 nvs mac count d s in
      let k2 =
        >>=-Kept s _ (post_ap port_max sha256 nvs mac count x.ap_answers d) k1
          (post_ap-Kept port_max sha256 nvs mac count x.ap_answers d) in
      let k3 =
        >>=-Kept s _ (post_sta port_max sha256 nvs mac count x.sta_answers d) k2
          (post_sta-Kept port_max sha256 nvs mac count x.sta_answers d) in
      let k4 =
        >>=-Kept s _ (post_power_default port_max sha256 nvs mac count d) k3
          (post_power_default-Kept port_max sha256 nvs mac count d) in
      let k5 =
        >>=-Kept s _ (post_device_name port_max sha256 nvs mac count d) k4
          (post_device_name-Kept port_max sha256 nvs mac count d) in
      let k6 =
        >>=-Kept s _ (post_ntp_server port_max sha256 nvs mac count d) k5
          (post_ntp_server-Kept port_max sha256 nvs mac count d) in
      let k7 =
        >>=-Kept s _ (post_timezone port_max sha256 nvs mac count d) k6
          (post_timezone-Kept port_max sha256 nvs mac count d) in
      let k8 =
        >>=-Kept s _ (post_disconnect port_max sha256 nvs mac count x.disconnect_answers d) k7
          (post_disconnect-Kept port_max sha256 nvs mac count x.disconnect_answers d) in
      elim (Bool-cases (not s.config.auth_initialized && not (credentials_only d.keys false))) [
        | inl locked ↦ rw (locked) (inl (same_refl s.config))
        | inr open_for_all ↦ rw (open_for_all) (then_password x d s _ k8)
      ]

  finished-Guarded :
      (parse : Bytes → Option Document) (x : Draws) (bytes : Bytes) (d : Document) (s : Server S)
      (f : Flow S)
      → parse bytes ≡ some d
      → GuardedFlow x d s f
      → Guarded parse x (body bytes) s (finished f)
  finished-Guarded parse x bytes d s (going s' es) e (inl k) = inl k
  finished-Guarded parse x bytes d s (going s' es) e (inr p) = inr (bytes, d, refl, e, p)
  finished-Guarded parse x bytes d s (answered s' resp es) e (inl k) = inl k
  finished-Guarded parse x bytes d s (answered s' resp es) e (inr p) = inr (bytes, d, refl, e, p)

  post_body-Guarded :
      (parse : Bytes → Option Document) (x : Draws) (b : Body) (s : Server S)
      → Guarded parse x b s (post_body port_max sha256 nvs mac count parse x b s)
  unfolding post_body
  post_body-Guarded parse x absent s = inl (same_refl s.config)
  post_body-Guarded parse x bad s = inl (same_refl s.config)
  post_body-Guarded parse x (body bytes) s = elim (Option-cases (parse bytes)) [
    | inl e ↦ rw (e, post_body) (inl (same_refl s.config))
    | inr (d, e) ↦
        rw (e, post_body) (finished-Guarded parse x bytes d s _ e (post_document-Guarded x d s))
  ]

  signed_in-Guarded :
      (parse : Bytes → Option Document) (x : Draws) (b : Body) (ss : List Session) (s : Server S)
      (o : Outcome S)
      → Guarded parse x b (with_sessions ss s) o
      → Guarded parse x b s o
  signed_in-Guarded parse x b ss s none g = tt
  signed_in-Guarded parse x b ss s (some (s', resp, es)) (inl k) = inl k
  signed_in-Guarded parse x b ss s (some (s', resp, es)) (inr (bytes, d, read, parsed, p)) = inr (
    bytes,
    d,
    read,
    parsed,
    record {
      current = p.current;
      current_given = p.current_given;
      current_right = p.current_right;
      sessions_ended = p.sessions_ended;
      clients_closed = p.clients_closed;
    },
  )

  -- Whatever handle_config_post is sent, it leaves the credentials as they are, or the body of the
  -- request was read and parsed and gives the current password under "current_password", and
  -- afterwards no session and no WebSocket client is active.
  pub handle_config_post-Guarded :
      (parse : Bytes → Option Document) (x : Draws) (r : Request) (s : Server S)
      → Guarded parse x
          (read_body r.content_len r.segments 512)
          s
          (handle_config_post port_max sha256 nvs mac count parse x r s)
  unfolding handle_config_post require_auth
  handle_config_post-Guarded parse x r s =
      elim (Option-cases (check_request r.now r.headers s.auth.sessions)) [
        | inl e ↦ rw (e, require_auth) tt
        | inr ((true, ss), e) ↦
            rw (e, require_auth)
              (signed_in-Guarded parse x _ ss s _ (
                post_body-Guarded parse x (read_body r.content_len r.segments 512)
                  (with_sessions ss s)))
        | inr ((false, ss), e) ↦ rw (e, require_auth) (inl (same_refl s.config))
      ]
