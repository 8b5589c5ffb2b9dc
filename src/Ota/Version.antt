-- ===== src/Ota/Version.antt =====
-- What main/ota_github.c makes of versions and releases.
use esp32_web_terminal.Prelude.{
  ℕ, ◌≤◌, ◌≡◌, refl, ap, ap₂, ◌∙◌, Bool, ◌&&◌, ◌||◌, [], ◌∷◌, arith, Bytes, ltb, ◌==◌, pos,
}
use esp32_web_terminal.Prelude.Digits.{print_before, int_max, scan_int-print_before}
use esp32_web_terminal.Ota.{
  scan_version, next_number, after_dot, compare_numbers, semver_compare, is_positive,
}

-- A version as three numbers, and as text.
pub record Version : Type 0 where
  pub major : ℕ
  pub minor : ℕ
  pub patch : ℕ

unfoldable pub print_version : Version → Bytes
unfolding print_before
print_version v =
    print_before v.major (b'.' ∷ print_before v.minor (b'.' ∷ print_before v.patch []))

-- Each number is an int.
pub record IsVersion (v : Version) : Type 0 where
  pub major_fits : v.major ≤ int_max
  pub minor_fits : v.minor ≤ int_max
  pub patch_fits : v.patch ≤ int_max

-- The order of versions.
abbrev pub newer : Version → Version → Bool
newer u v =
    ltb v.major u.major
    || (u.major == v.major && (ltb v.minor u.minor || (u.minor == v.minor && ltb v.patch u.patch)))

scan_version-print_version :
    (v : Version)
    → IsVersion v
    → scan_version (print_version v) ≡ (pos v.major, pos v.minor, pos v.patch)
unfolding scan_version print_version next_number after_dot
scan_version-print_version v f =
    rw
      (
        scan_int-print_before v.major (b'.' ∷ print_before v.minor (b'.' ∷ print_before v.patch []))
            f.major_fits refl,
        scan_int-print_before v.minor (b'.' ∷ print_before v.patch []) f.minor_fits refl,
        scan_int-print_before v.patch [] f.patch_fits tt,
      )
      refl

positive_newer :
    (u v : Version)
    → is_positive (
        compare_numbers
          (pos u.major, pos u.minor, pos u.patch)
          (pos v.major, pos v.minor, pos v.patch))
      ≡ newer u v
positive_newer u v = ground arith

-- Of two versions whose numbers are ints, semver_compare is positive exactly if the first is newer,
-- by its major, minor and patch numbers in this order.
pub semver_compare-newer :
    (u v : Version)
    → IsVersion u
    → IsVersion v
    → is_positive (semver_compare (print_version u) (print_version v)) ≡ newer u v
unfolding semver_compare
semver_compare-newer u v f g =
    ap (λ n. is_positive n)
      (ap₂ (λ a b. compare_numbers a b) (scan_version-print_version u f)
        (scan_version-print_version v g))
    ∙ positive_newer u v
