-- ===== src/Ota/Tests.antt =====
-- The theorems on versions and releases at concrete ones.
use esp32_web_terminal.Prelude.{◌≡◌, refl, true, some, List, [], ◌∷◌, codes, arith}
use esp32_web_terminal.Prelude.Text.{str_eq}
use esp32_web_terminal.Ota.{
  semver_compare, is_positive, Release, Http, check, in_progress, complete, apply, Progress,
}
use esp32_web_terminal.Ota.Version.{Version, print_version, newer, semver_compare-newer}
use esp32_web_terminal.Ota.Update.{IsUpdate, check-IsUpdate, Installed, ended_with, apply-Installed}

abbrev old_version : Version
old_version = record { major = 1; minor = 9; patch = 12 }

abbrev new_version : Version
new_version = record { major = 1; minor = 10; patch = 0 }

printed : print_version old_version ≡ codes "1.9.12"
unfolding print_version
printed = refl

semver_compare-newer_example :
    is_positive (semver_compare (print_version new_version) (print_version old_version))
    ≡ newer new_version old_version
semver_compare-newer_example =
    semver_compare-newer new_version old_version
      (record { major_fits = omega arith; minor_fits = omega arith; patch_fits = omega arith })
      (record { major_fits = omega arith; minor_fits = omega arith; patch_fits = omega arith })

abbrev latest : Release
latest = record {
  tag_name = some (codes "v1.10.0");
  assets = some (
      record {
        name = some (codes "esp32-web-terminal-esp32s3.bin");
        url = some (codes "https://example.org/1.bin");
      }
      ∷ []);
}

abbrev reached : Http
reached = record {
  allocated = true;
  opened = true;
  status = 200;
  pieces = codes "{" ∷ codes "}" ∷ [];
}

offered :
    (check (λ b. some latest) (codes "esp32s3") (codes "1.9.12") reached).1.update_available ≡ true
unfolding check semver_compare str_eq
offered = refl

check-IsUpdate_example :
    (r : Release) × (some latest ≡ some r)
    × IsUpdate
        (codes "esp32s3")
        (codes "1.9.12")
        r
        (check (λ b. some latest) (codes "esp32s3") (codes "1.9.12") reached).1
check-IsUpdate_example =
    check-IsUpdate (λ b. some latest) (codes "esp32s3") (codes "1.9.12") reached offered

abbrev progress : List Progress
progress = in_progress ∷ in_progress ∷ complete ∷ []

apply-Installed_example : Installed true (ended_with progress) (apply true true progress)
apply-Installed_example = apply-Installed true progress
