-- ===== src/Ota/Update.antt =====
-- What main/ota_github.c offers and installs.
use esp32_web_terminal.Prelude.{
  ℕ, suc, ◌-◌, ◌≡◌, ◌≢◌, ◌↔◌, refl, sym, ap, ◌∙◌, subst, inl, inr, Bool, true, false, not, ◌&&◌,
  ◌||◌, Option, none, some, List, [], ◌∷◌, arith, Bytes, ltb, ◌==◌, if◌then◌else◌, length, take,
  get_elem?, str_eq_iff, Bool-cases, Option-cases,
}
use esp32_web_terminal.Ota.{
  read_response, Asset, Release, CheckResult, Reply, ok, failed, stripped, asset_url_of,
  expected_name, is_named, url_of, check_release, Http, check, blank_result, semver_compare,
  is_positive, url_size, Progress, in_progress, complete, broken, OtaCall, begin, perform, abort,
  finish, perform_loop, apply,
}

-- An asset of a release with the name for this chip, and the first 255 bytes of its URL.
pub record Offered (target : Bytes) (url : Bytes) (assets : List Asset) : Type 0 where
  pub asset : Asset
  pub full_url : Bytes
  pub listed : (i : ℕ) × (get_elem? assets i ≡ some asset)
  pub name_fits : asset.name ≡ some (expected_name target)
  pub has_url : asset.url ≡ some full_url
  pub copied : url ≡ take (url_size - 1) full_url

Offered-later :
    (target url : Bytes) (a : Asset) (others : List Asset)
    → Offered target url others
    → Offered target url (a ∷ others)
Offered-later target url a others o = record {
  asset = o.asset;
  full_url = o.full_url;
  listed = (suc o.listed.0, o.listed.1);
  name_fits = o.name_fits;
  has_url = o.has_url;
  copied = o.copied;
}

named :
    (expected : Bytes) (name : Option Bytes) → is_named expected name ≡ true → name ≡ some expected
named expected none h = cc
named expected (some name) h = ap some ((str_eq_iff name expected).0 h)

some_url : (o : Option Bytes) → url_of o ≢ [] → (u : Bytes) × (o ≡ some u) × (url_of o ≡ take 255 u)
some_url none ne = absurd (ne refl)
some_url (some u) ne = (u, refl, refl)

asset_url_of-Offered :
    (target : Bytes) (assets : List Asset)
    → asset_url_of (expected_name target) assets ≢ []
    → Offered target (asset_url_of (expected_name target) assets) assets
unfolding asset_url_of
asset_url_of-Offered target [] ne = absurd (ne refl)
asset_url_of-Offered target (a ∷ others) ne =
    first target a others (is_named (expected_name target) a.name) refl ne
      (asset_url_of-Offered target others)
  where
    first :
        (target : Bytes) (a : Asset) (others : List Asset) (b : Bool)
        → is_named (expected_name target) a.name ≡ b
        → (if b then url_of a.url else asset_url_of (expected_name target) others) ≢ []
        → (asset_url_of (expected_name target) others ≢ []
            → Offered target (asset_url_of (expected_name target) others) others)
        → Offered target
            (if b then url_of a.url else asset_url_of (expected_name target) others)
            (a ∷ others)
    first target a others true e ne later =
        let u = some_url a.url ne in
        record {
          asset = a;
          full_url = u.0;
          listed = (0, refl);
          name_fits = named (expected_name target) a.name e;
          has_url = u.1;
          copied = u.2;
        }
    first target a others false e ne later =
        Offered-later target (asset_url_of (expected_name target) others) a others (later ne)

-- An update that is offered: the tag of the release is newer than what runs, and the URL is that
-- of an asset for this chip, or its first 255 bytes.
pub record IsUpdate (target current : Bytes) (r : Release) (c : CheckResult) : Type 0 where
  pub tag : Bytes
  pub assets : List Asset
  pub tagged : r.tag_name ≡ some tag
  pub newer : is_positive (semver_compare (stripped tag) current) ≡ true
  pub attached : r.assets ≡ some assets
  pub url_present : c.asset_url ≢ []
  pub offered : Offered target c.asset_url assets

and_parts : (a b : Bool) → (a && b) ≡ true → (a ≡ true) × (b ≡ true)
and_parts true b h = (refl, h)
and_parts false b h = cc

not_empty : (xs : Bytes) → ltb 0 (length xs) ≡ true → xs ≢ []
not_empty [] h e = absurd (ground arith)
not_empty (x ∷ xs) h e = cc

check_release-IsUpdate :
    (target current tag : Bytes) (assets : List Asset)
    → is_positive (semver_compare (stripped tag) current) ≡ true
    → ltb 0 (length (asset_url_of (expected_name target) assets)) ≡ true
    → IsUpdate target current
        (record { tag_name = some tag; assets = some assets })
        (check_release target current (record { tag_name = some tag; assets = some assets })).1
unfolding check_release
check_release-IsUpdate target current tag assets newer some_url =
    let ne = not_empty (asset_url_of (expected_name target) assets) some_url in
    record {
      tag = tag;
      assets = assets;
      tagged = refl;
      newer = newer;
      attached = refl;
      url_present = ne;
      offered = asset_url_of-Offered target assets ne;
    }

from_release :
    (target current : Bytes) (tag : Option Bytes) (assets : Option (List Asset))
    → (check_release target current (record { tag_name = tag; assets = assets })).1.update_available
      ≡ true
    → IsUpdate target current
        (record { tag_name = tag; assets = assets })
        (check_release target current (record { tag_name = tag; assets = assets })).1
unfolding check_release
from_release target current none assets e = absurd (ground arith)
from_release target current (some tag) none e = absurd (ground arith)
from_release target current (some tag) (some assets) e =
    let both = and_parts _ _ e in check_release-IsUpdate target current tag assets both.0 both.1

-- An update that ota_github_check reports as available comes from a release that it parsed: its tag
-- is newer than the running version, and the URL is not empty, and is that of an asset for this chip,
-- cut after 255 bytes if it is longer.
pub check-IsUpdate :
    (parse : Bytes → Option Release) (target current : Bytes) (h : Http)
    → (check parse target current h).1.update_available ≡ true
    → (r : Release) × (parse (read_response h.pieces []) ≡ some r)
      × IsUpdate target current r (check parse target current h).1
unfolding check
check-IsUpdate parse target current h e = elim (Bool-cases h.allocated) [
  | inr unallocated ↦ absurd (ground arith)
  | inl allocated ↦ elim (Bool-cases (not h.opened || not (h.status == 200))) [
    | inl unreachable ↦ absurd (ground arith)
    | inr reached ↦ elim (Bool-cases (length (read_response h.pieces []) == 0)) [
      | inl empty ↦ absurd (ground arith)
      | inr answered ↦ elim (Option-cases (parse (read_response h.pieces []))) [
        | inl unparsed ↦
            let same : check parse target current h ≡ (failed, blank_result) =
              rw (allocated, reached, answered, unparsed, check) refl in
            absurd (cc same)
        | inr (r, parsed) ↦
            let same : check parse target current h ≡ check_release target current r =
              rw (allocated, reached, answered, parsed, check) refl in
            let available = ap (λ (p : Reply × CheckResult). p.1.update_available) (sym same) ∙ e in
            (
              r,
              parsed,
              subst (λ (p : Reply × CheckResult). IsUpdate target current r p.1) (sym same)
                  (from_release target current r.tag_name r.assets available),
            )
      ]
    ]
  ]
]

-- What the answers of esp_https_ota_perform end with, however often it was in progress before.
unfoldable pub ended_with : List Progress → Option Bool
ended_with [] = none
ended_with (in_progress ∷ ps) = ended_with ps
ended_with (complete ∷ ps) = some true
ended_with (broken ∷ ps) = some false

-- The calls that end the use of the handle.
unfoldable pub closing : List OtaCall → List OtaCall
closing [] = []
closing (finish ∷ cs) = finish ∷ closing cs
closing (abort ∷ cs) = abort ∷ closing cs
closing (begin ∷ cs) = closing cs
closing (perform ∷ cs) = closing cs

-- The outcome that the answers call for.
abbrev pub Installed : Bool → Option Bool → Option (Reply × List OtaCall) → Type 0
Installed finishes none o = o ≡ none
Installed finishes (some done) none = ⊥
Installed finishes (some done) (some (r, calls)) =
    ((r ≡ ok) ↔ ((done && finishes) ≡ true))
    × (closing calls ≡ (if done then finish else abort) ∷ [])

perform_loop-Installed :
    (finishes : Bool) (ps : List Progress)
    → Installed finishes (ended_with ps) (perform_loop finishes ps)
unfolding perform_loop ended_with closing
perform_loop-Installed finishes [] = refl
perform_loop-Installed finishes (complete ∷ ps) = ground arith
perform_loop-Installed finishes (broken ∷ ps) = ground arith
perform_loop-Installed finishes (in_progress ∷ ps) =
    one_more finishes (ended_with ps) (perform_loop finishes ps)
      (perform_loop-Installed finishes ps)
  where
    one_more :
        (finishes : Bool) (done : Option Bool) (o : Option (Reply × List OtaCall))
        → Installed finishes done o
        → Installed finishes done
            (elim o [ none ↦ none | some (r, calls) ↦ some (r, perform ∷ calls) ])
    one_more finishes none none h = refl
    one_more finishes none (some (r, calls)) h = absurd (cc h)
    one_more finishes (some done) none h = absurd h
    one_more finishes (some done) (some (r, calls)) h = h

-- Once esp_https_ota_begin has succeeded, ota_github_apply returns as soon as
-- esp_https_ota_perform is no longer in progress; it returns ESP_OK exactly if the download was
-- complete and esp_https_ota_finish succeeds. Once, and only then, the handle is closed: by
-- esp_https_ota_finish after a complete download, by esp_https_ota_abort after a broken one.
pub apply-Installed :
    (finishes : Bool) (ps : List Progress)
    → Installed finishes (ended_with ps) (apply true finishes ps)
unfolding apply closing
apply-Installed finishes ps =
    begun finishes (ended_with ps) (perform_loop finishes ps) (perform_loop-Installed finishes ps)
  where
    begun :
        (finishes : Bool) (done : Option Bool) (o : Option (Reply × List OtaCall))
        → Installed finishes done o
        → Installed finishes done
            (elim o [ none ↦ none | some (r, calls) ↦ some (r, begin ∷ calls) ])
    begun finishes none none h = refl
    begun finishes none (some (r, calls)) h = absurd (cc h)
    begun finishes (some done) none h = absurd h
    begun finishes (some done) (some (r, calls)) h = h
