-- ===== src/Ota.antt =====
-- main/ota_github.c: the comparison of versions, the check of the latest release, and its
-- installation. The HTTP client, esp_https_ota and cJSON are not modelled: what they answer is an
-- argument.
pub mod Update
pub mod Tests
pub mod Version
use esp32_web_terminal.Prelude.{
  ℕ, zero, suc, ◌+◌, ◌-◌, Bool, true, false, not, ◌&&◌, ◌||◌, Option, none, some, List, [], ◌∷◌,
  ◌++◌, Bytes, codes, ltb, leb, ◌==◌, if◌then◌else◌, length, take, str_eq, ℤ, pos, negsuc,
}
use esp32_web_terminal.Prelude.Digits.{scan_int}

-- The three numbers of a version.
abbrev pub Numbers : Type 0
Numbers = ℤ × ℤ × ℤ

-- The '.' of the format.
unfoldable pub after_dot : Bytes → Option Bytes
after_dot [] = none
after_dot (c ∷ cs) = if c == b'.' then some cs else none

-- A conversion behind a '.': the number stays 0 where it fails, and nothing more is read.
unfoldable pub next_number : Option Bytes → Option (ℤ × Bytes)
unfolding after_dot scan_int
next_number none = none
next_number (some s) = elim (after_dot s) [ none ↦ none | some rest ↦ scan_int rest ]

abbrev pub number_of : Option (ℤ × Bytes) → ℤ
number_of none = pos 0
number_of (some (n, rest)) = n

abbrev pub rest_of : Option (ℤ × Bytes) → Option Bytes
rest_of none = none
rest_of (some (n, rest)) = some rest

-- sscanf(s, "%d.%d.%d", ...) into numbers that are 0 before.
unfoldable pub scan_version : Bytes → Numbers
unfolding next_number scan_int
scan_version s =
    let major = scan_int s in
    let minor = next_number (rest_of major) in
    let patch = next_number (rest_of minor) in (number_of major, number_of minor, number_of patch)

-- The difference of two ints; where it overflows, which takes numbers of opposite sign, C leaves it
-- undefined.
abbrev pub difference : ℤ → ℤ → ℤ
difference (pos a) (pos b) = if leb b a then pos (a - b) else negsuc (b - a - 1)
difference (pos a) (negsuc b) = pos (a + b + 1)
difference (negsuc a) (pos b) = negsuc (a + b)
difference (negsuc a) (negsuc b) = if leb a b then pos (b - a) else negsuc (a - b - 1)

abbrev pub is_zero : ℤ → Bool
is_zero (pos n) = n == 0
is_zero (negsuc n) = false

abbrev pub is_positive : ℤ → Bool
is_positive (pos n) = ltb 0 n
is_positive (negsuc n) = false

abbrev pub compare_numbers : Numbers → Numbers → ℤ
compare_numbers (a_major, a_minor, a_patch) (b_major, b_minor, b_patch) =
    if not (is_zero (difference a_major b_major))
    then difference a_major b_major
    else if not (is_zero (difference a_minor b_minor))
    then difference a_minor b_minor
    else difference a_patch b_patch

unfoldable pub semver_compare : Bytes → Bytes → ℤ
unfolding scan_version
semver_compare a b = compare_numbers (scan_version a) (scan_version b)

abbrev pub response_buffer_size : ℕ
response_buffer_size = 16384

-- The loop that reads the response, with the pieces that esp_http_client_read gives; a piece
-- without bytes is its end or an error.
unfoldable pub read_response : List Bytes → Bytes → Bytes
read_response [] buffer = buffer
read_response (piece ∷ pieces) buffer =
    let got = take (response_buffer_size - 1 - length buffer) piece in
    let rest = read_response pieces (buffer ++ got) in
    if leb (response_buffer_size - 1) (length buffer)
    then buffer
    else if length got == 0
    then buffer
    else rest

-- An entry of "assets", with its name and its URL where they are strings.
pub record Asset : Type 0 where
  pub name : Option Bytes
  pub url : Option Bytes

-- What is read of the JSON of a release: "tag_name" where it is a string, and "assets" where it is
-- an array.
pub record Release : Type 0 where
  pub tag_name : Option Bytes
  pub assets : Option (List Asset)

-- ota_github_check_result_t
pub record CheckResult : Type 0 where
  pub update_available : Bool
  pub latest_version : Bytes
  pub asset_url : Bytes

abbrev pub blank_result : CheckResult
blank_result = record { update_available = false; latest_version = []; asset_url = [] }

abbrev pub version_size : ℕ
version_size = 32

abbrev pub url_size : ℕ
url_size = 256

pub data Reply : Type 0 where
  ok no_mem failed : Reply

-- The strip of a leading "v".
abbrev pub stripped : Bytes → Bytes
stripped [] = []
stripped (c ∷ cs) = if c == b'v' || c == b'V' then cs else c ∷ cs

abbrev pub is_named : Bytes → Option Bytes → Bool
is_named expected none = false
is_named expected (some name) = str_eq name expected

abbrev pub url_of : Option Bytes → Bytes
url_of none = []
url_of (some url) = take (url_size - 1) url

-- The loop over the assets: the first one with the expected name.
unfoldable pub asset_url_of : Bytes → List Asset → Bytes
asset_url_of expected [] = []
asset_url_of expected (a ∷ others) =
    let rest = asset_url_of expected others in
    if is_named expected a.name then url_of a.url else rest

abbrev pub assets_url : Bytes → Option (List Asset) → Bytes
assets_url expected none = []
assets_url expected (some assets) = asset_url_of expected assets

-- The name of the asset for a chip: snprintf into 64 bytes.
abbrev pub expected_name : Bytes → Bytes
expected_name target = take 63 (codes "esp32-web-terminal-" ++ (target ++ codes ".bin"))

-- From the parsed release on.
unfoldable pub check_release : Bytes → Bytes → Release → Reply × CheckResult
unfolding semver_compare asset_url_of
check_release target current r = elim r.tag_name [
  | none ↦ (failed, blank_result)
  | some tag ↦
      let url = assets_url (expected_name target) r.assets in
      (
        ok,
        record {
          update_available =
              is_positive (semver_compare (stripped tag) current) && ltb 0 (length url);
          latest_version = take (version_size - 1) (stripped tag);
          asset_url = url;
        },
      )
]

-- What the HTTP client answers, and whether the buffer can be allocated.
pub record Http : Type 0 where
  pub allocated : Bool
  pub opened : Bool
  pub status : ℕ
  pub pieces : List Bytes

-- ota_github_check for a chip and the running version; `parse` is cJSON_Parse.
unfoldable pub check : (Bytes → Option Release) → Bytes → Bytes → Http → Reply × CheckResult
unfolding read_response check_release
check parse target current h =
    let buffer = read_response h.pieces [] in
    if not h.allocated
    then (no_mem, blank_result)
    else if not h.opened || not (h.status == 200)
    then (failed, blank_result)
    else if length buffer == 0
    then (failed, blank_result)
    else elim (parse buffer) [
      | none ↦ (failed, blank_result)
      | some r ↦ check_release target current r
    ]

-- What esp_https_ota_perform answers.
pub data Progress : Type 0 where
  in_progress complete broken : Progress

pub data OtaCall : Type 0 where
  begin perform abort finish : OtaCall

-- ota_github_apply, with what the calls answer; none where esp_https_ota_perform is still in
-- progress at the end of its answers.
unfoldable pub perform_loop : Bool → List Progress → Option (Reply × List OtaCall)
perform_loop finishes [] = none
perform_loop finishes (in_progress ∷ ps) = elim (perform_loop finishes ps) [
  | none ↦ none
  | some (r, calls) ↦ some (r, perform ∷ calls)
]
perform_loop finishes (complete ∷ ps) =
    some (if finishes then ok else failed, perform ∷ finish ∷ [])
perform_loop finishes (broken ∷ ps) = some (failed, perform ∷ abort ∷ [])

unfoldable pub apply : Bool → Bool → List Progress → Option (Reply × List OtaCall)
unfolding perform_loop
apply begins finishes ps = elim (perform_loop finishes ps) [
  | none ↦ if begins then none else some (failed, begin ∷ [])
  | some (r, calls) ↦ if begins then some (r, begin ∷ calls) else some (failed, begin ∷ [])
]
