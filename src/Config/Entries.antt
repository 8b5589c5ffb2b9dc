-- ===== src/Config/Entries.antt =====
-- The writes of save_to_nvs as a list of entries, of which the last one of a key counts.
use esp32_web_terminal.Prelude.{
  ℕ, zero, suc, ◌+◌, ◌<◌, ◌≡◌, refl, sym, ap, ap₂, subst, ◌∙◌, inl, inr, Bool, true, false, Option,
  none, some, List, [], ◌∷◌, ◌++◌, arith, Bytes, codes, if◌then◌else◌, length, Bool-cases,
  eq_of_str_eq, str_eq_refl, get_or,
}
use mathlib.Core.Bool.{true≢false}
use esp32_web_terminal.Prelude.Text.{str_eq}
use esp32_web_terminal.Config.Store.{
  Value, str, u32, u8, blob, Nvs, Config, baud_key, u8_flag, baud_entries, write_all,
}

abbrev pub or_else : Option Value → Option Value → Option Value
or_else none h = h
or_else (some w) h = some w

or_else-none : (o : Option Value) → or_else o none ≡ o
or_else-none none = refl
or_else-none (some w) = refl

-- The last entry of a key.
unfoldable pub found : Bytes → List (Bytes × Value) → Option Value
found key [] = none
found key ((k, v) ∷ kvs) = or_else (found key kvs) (if str_eq k key then some v else none)

module _ {S : Type 0} (nvs : Nvs S) where
  get-put :
      (key other : Bytes) (v : Value) (s : S)
      → nvs.get other (nvs.put key v s) ≡ (if str_eq key other then some v else nvs.get other s)
  get-put key other v s = elim (Bool-cases (str_eq key other)) [
    | inl e ↦ rw (e) (
        ap (λ k. nvs.get k (nvs.put key v s)) (sym (eq_of_str_eq key other e))
        ∙ nvs.get-put_self key v s)
    | inr e ↦ rw (e) (
        nvs.get-put_ne key other v s
          (λ p. true≢false (sym (ap (str_eq key) p ∙ str_eq_refl key) ∙ e)))
  ]

  override :
      (o : Option Value) (b : Bool) (v : Value) (g h : Option Value)
      → g ≡ (if b then some v else h)
      → or_else o g ≡ or_else (or_else o (if b then some v else none)) h
  override none true v g h e = e
  override none false v g h e = e
  override (some w) b v g h e = refl

  get-write_all :
      (key : Bytes) (kvs : List (Bytes × Value)) (s : S)
      → nvs.get key (write_all nvs kvs s) ≡ or_else (found key kvs) (nvs.get key s)
  unfolding write_all found
  get-write_all key [] s = refl
  get-write_all key ((k, v) ∷ kvs) s =
      get-write_all key kvs (nvs.put k v s)
      ∙ override (found key kvs) (str_eq k key) v _ (nvs.get key s) (get-put k key v s)

  pub read_back :
      (key : Bytes) (kvs : List (Bytes × Value)) (v : Value) (s : S)
      → found key kvs ≡ some v
      → nvs.get key (write_all nvs kvs s) ≡ some v
  read_back key kvs v s e = get-write_all key kvs s ∙ ap (λ o. or_else o (nvs.get key s)) e

baud_key-ne : (i j : ℕ) → j < i → str_eq (baud_key i) (baud_key j) ≡ false
unfolding str_eq
baud_key-ne zero j lt = absurd (omega arith)
baud_key-ne (suc i) zero lt = refl
baud_key-ne (suc i) (suc j) lt = ground arith

-- The entries of the baud rates, from port `i` on, before some others.
module _ (rest : List (Bytes × Value)) where
  pub found_other :
      (key : Bytes) (i : ℕ) (bs : List ℕ)
      → ((j : ℕ) → str_eq (baud_key j) key ≡ false)
      → found key (baud_entries i bs ++ rest) ≡ found key rest
  unfolding found baud_entries
  found_other key i [] ne = refl
  found_other key i (b ∷ bs) ne =
      ap₂ or_else (found_other key (suc i) bs ne)
        (ap (λ t. if t then some (u32 b) else none) (ne i))
      ∙ or_else-none (found key rest)

  found_above :
      (j i : ℕ) (bs : List ℕ)
      → j < i
      → found (baud_key j) rest ≡ none
      → found (baud_key j) (baud_entries i bs ++ rest) ≡ none
  unfolding found baud_entries
  found_above j i [] lt e = e
  found_above j i (b ∷ bs) lt e =
      ap₂ or_else (found_above j (suc i) bs (omega arith) e)
        (ap (λ t. if t then some (u32 b) else none) (baud_key-ne i j lt))

  pub found_baud :
      (i k : ℕ) (bs : List ℕ)
      → k < length bs
      → found (baud_key (i + k)) rest ≡ none
      → found (baud_key (i + k)) (baud_entries i bs ++ rest) ≡ some (u32 (get_or bs k 0))
  unfolding found baud_entries
  found_baud i k [] lt e = absurd (omega arith)
  found_baud i zero (b ∷ bs) lt e =
      let here : i + 0 ≡ i = omega arith in
      ap₂ or_else (found_above (i + 0) (suc i) bs (omega arith) e) (
        ap (λ t. if t then some (u32 b) else none)
          (ap (λ j. str_eq (baud_key i) (baud_key j)) here ∙ str_eq_refl (baud_key i)))
  found_baud i (suc k) (b ∷ bs) lt e =
      let there : suc i + k ≡ i + suc k = omega arith in
      let later : found (baud_key (i + suc k)) (baud_entries (suc i) bs ++ rest)
          ≡ some (u32 (get_or bs k 0)) =
        subst
          (λ j. found (baud_key j) (baud_entries (suc i) bs ++ rest) ≡ some (u32 (get_or bs k 0)))
          there
          (found_baud (suc i) k bs (omega arith)
            (subst (λ j. found (baud_key j) rest ≡ none) (sym there) e)) in
      ap
        (λ o. or_else o (if str_eq (baud_key i) (baud_key (i + suc k)) then some (u32 b) else none))
        later

-- Of a configuration: its entries behind the baud rates.
abbrev pub last_entries : Config → List (Bytes × Value)
last_entries c =
    (codes "power_on", u8 (u8_flag c.power_on_default))
    ∷ (codes "auth_hash", blob c.auth_hash)
    ∷ (codes "auth_salt", blob c.auth_salt)
    ∷ (codes "auth_init", u8 (u8_flag c.auth_initialized))
    ∷ (codes "hash_ver", u8 c.auth_hash_ver)
    ∷ (codes "dev_name", str c.device_name)
    ∷ (codes "ntp_srv", str c.ntp_server)
    ∷ (codes "timezone", str c.timezone)
    ∷ []

pub no_baud : (c : Config) (j : ℕ) → found (baud_key j) (last_entries c) ≡ none
unfolding found str_eq
no_baud c zero = refl
no_baud c (suc j) = refl
