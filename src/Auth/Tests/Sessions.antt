-- ===== src/Auth/Tests/Sessions.antt =====
-- The theorems on the session table at concrete tables.
use esp32_web_terminal.Prelude.{
  ℕ, ◌≤◌, ◌≡◌, ◌≢◌, refl, true, some, List, [], ◌∷◌, arith, Bytes, set, get_elem?, All,
}
use esp32_web_terminal.Prelude.Text.{str_eq}
use esp32_web_terminal.Auth.Sessions.{Session, new_session, open_session}
use esp32_web_terminal.Auth.Sessions.Lookup.{find_session}
use esp32_web_terminal.Auth.Sessions.Opening.{SessionsInv}
use esp32_web_terminal.Auth.Sessions.Eviction.{InUse, open_session_evicts_oldest}
use esp32_web_terminal.Auth.Sessions.Lifetime.{uses_accepted, uses_accepted-Spaced}
use esp32_web_terminal.Auth.Tests.{session_at, full_table}

abbrev token : Bytes
token = 9 ∷ []

abbrev one : Bytes
one = 1 ∷ []

abbrev two : Bytes
two = 2 ∷ []

full_table-InUse : All (InUse 100) full_table
full_table-InUse = ground arith

open_session_evicts_oldest_example :
    (k : ℕ) × (s : Session) × (get_elem? full_table k ≡ some s)
    × All (λ x. s.last_activity ≤ x.last_activity) full_table
    × (open_session 100 token full_table ≡ set full_table k (new_session 100 token))
open_session_evicts_oldest_example =
    open_session_evicts_oldest 100 token full_table (omega arith) full_table-InUse

abbrev later_table : List Session
later_table = session_at 2 30 ∷ session_at 3 50 ∷ session_at 4 60 ∷ []

later_table-InUse : All (InUse 100) later_table
later_table-InUse = ground arith

full_table-SessionsInv : SessionsInv full_table
unfolding find_session str_eq
full_table-SessionsInv = record {
  slots = refl;
  distinct = (λ u. refl, (λ u. refl, (λ u. refl, (λ u. refl, tt))));
}

one_found : find_session one full_table ≡ some (session_at 1 40)
unfolding find_session str_eq
one_found = refl

one-ne-nil : one ≢ []
one-ne-nil = λ e. cc

uses_accepted-Spaced_example : uses_accepted one (3640 ∷ 7240 ∷ []) full_table ≡ true
uses_accepted-Spaced_example =
    uses_accepted-Spaced one (3640 ∷ 7240 ∷ []) full_table (session_at 1 40) one-ne-nil
      full_table-SessionsInv one_found (omega arith, (omega arith, tt))

two-ne-nil : two ≢ []
two-ne-nil = λ e. cc

two-ne-one : two ≢ one
two-ne-one = ground arith
