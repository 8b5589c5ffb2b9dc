-- ===== src/Auth/Hosts/Preserve.antt =====
-- Every operation on the login counters keeps their invariant, and a failure from one address
-- can only drop the entry of another, never lock it.
use esp32_web_terminal.Prelude.{
  ℕ, zero, suc, ◌<◌, ◌≡◌, ◌≢◌, refl, sym, ap, subst, ◌∙◌, ◌⊎◌, inl, true, false, Option, none, some,
  List, [], ◌∷◌, arith, Bytes, set, modify, get_elem?, length-set, length-modify, length-take,
  All-set, All-replicate, eq_of_str_eq,
}
use esp32_web_terminal.Auth.Hosts.{
  Host, host_key, is_locked_out, record_failure, trust_host, clear_counter, count_failure,
  claimed_host, fail_entry, clear_entry, locked_at, locked_entry, blank_host, init_hosts,
  max_failed,
}
use esp32_web_terminal.Auth.Hosts.Lookup.{
  find_host, get_elem?-FirstAt, find_host-FirstAt, find_host-modify_ne,
}
use esp32_web_terminal.Auth.Hosts.Claims.{
  Entered, at, fresh, nowhere, host_entry-Entered, Fits, claimed_host-ip, count_failure_keeps,
}
use esp32_web_terminal.Auth.Hosts.Lockout.{clear_counter_keeps}
use esp32_web_terminal.Auth.Hosts.Invariant.{
  IsSound, HostsInv, Distinct-modify, Distinct-set, find_host-set_ne, All-modify_at,
}

count_failure-IsSound :
    (now : ℕ) (h : Host)
    → h.failed_attempts < max_failed
    → IsSound h
    → IsSound (count_failure now h)
count_failure-IsSound now h lt s = ground arith

claimed_host-IsSound : (key : Bytes) → IsSound (claimed_host key)
claimed_host-IsSound key = record {
  capped = omega arith;
  armed = λ e. absurd (omega arith);
  idle = λ _. refl;
  fits = omega (arith, length-take {0} 45 key);
}

claimed_host-FirstFailure : (now : ℕ) (key : Bytes) → IsSound (count_failure now (claimed_host key))
claimed_host-FirstFailure now key =
    count_failure-IsSound now (claimed_host key) (omega arith) (claimed_host-IsSound key)

modify-set :
    (hs : List Host) (j : ℕ) (v : Host) (g : Host → Host) → modify (set hs j v) j g ≡ set hs j (g v)
modify-set [] j v g = refl
modify-set (x ∷ xs) zero v g = refl
modify-set (x ∷ xs) (suc j) v g = ap (◌∷◌ x) (modify-set xs j v g)

modify-HostsInv :
    (g : Host → Host) (hs : List Host) (m : ℕ)
    → ((h : Host) → ((g h).used ≡ h.used) × ((g h).ip ≡ h.ip))
    → ((h : Host) → get_elem? hs m ≡ some h → IsSound h → IsSound (g h))
    → HostsInv hs
    → HostsInv (modify hs m g)
modify-HostsInv g hs m keeps sound v = record {
  slots = length-modify hs m g ∙ v.slots;
  sound = All-modify_at IsSound hs m g sound v.sound;
  distinct = Distinct-modify g keeps hs m v.distinct;
}

set-HostsInv :
    (hs : List Host) (j : ℕ) (h : Host)
    → find_host h.ip hs ≡ none
    → IsSound h
    → HostsInv hs
    → HostsInv (set hs j h)
set-HostsInv hs j h e s v = record {
  slots = length-set hs j h ∙ v.slots;
  sound = All-set IsSound hs j h s v.sound;
  distinct = Distinct-set hs j h e v.distinct;
}

clear_counter-IsSound : (h : Host) → IsSound h → IsSound (clear_counter h)
clear_counter-IsSound h s = ground arith

-- The addresses that may fail a login: no counter at its limit.
abbrev pub Counting : Option Host → Type 0
Counting none = Unit {0}
Counting (some h) = h.failed_attempts < max_failed

fail_entry-HostsInv :
    (now : ℕ) (ip : Option Bytes) (hs : List Host) (r : Option ℕ × List Host)
    → Fits ip
    → Counting (find_host (host_key ip) hs)
    → HostsInv hs
    → Entered ip true hs r
    → HostsInv (fail_entry now r)
unfolding fail_entry
fail_entry-HostsInv now ip hs r fits c v (at m h a) =
    modify-HostsInv (count_failure now) hs m (count_failure_keeps now)
      (λ k e s.
        count_failure-IsSound now k
          (subst Counting
            (find_host-FirstAt (host_key ip) hs m h a
              ∙ sym (get_elem?-FirstAt (host_key ip) hs m h a)
              ∙ e)
            c)
          s)
      v
fail_entry-HostsInv now ip hs r fits c v (fresh j t b e) =
    rw (modify-set hs j (claimed_host (host_key ip)) (count_failure now)) (
      set-HostsInv hs j _ (rw (claimed_host-ip ip fits) e)
        (claimed_host-FirstFailure now (host_key ip)) v)
fail_entry-HostsInv now ip hs r fits c v (nowhere t e) = cc

pub record_failure-HostsInv :
    (now : ℕ) (ip : Option Bytes) (hs : List Host)
    → Fits ip
    → Counting (find_host (host_key ip) hs)
    → HostsInv hs
    → HostsInv (record_failure now ip hs)
unfolding record_failure
record_failure-HostsInv now ip hs fits c v =
    fail_entry-HostsInv now ip hs _ fits c v
      (host_entry-Entered ip true hs (omega (arith, v.slots)))

locked_at-HostsInv :
    (now : ℕ) (hs : List Host) (m : ℕ) (o : Option Host)
    → HostsInv hs
    → HostsInv (locked_at now hs m o).1
unfolding locked_at
locked_at-HostsInv now hs m none v = v
locked_at-HostsInv now hs m (some h) v =
    let reset =
      modify-HostsInv clear_counter hs m clear_counter_keeps (λ k _. clear_counter-IsSound k) v in
    ground (arith, reset)

locked_entry-HostsInv :
    (now : ℕ) (hs : List Host) (o : Option ℕ) → HostsInv hs → HostsInv (locked_entry now (o, hs)).1
unfolding locked_entry
locked_entry-HostsInv now hs none v = v
locked_entry-HostsInv now hs (some i) v = locked_at-HostsInv now hs i (get_elem? hs i) v

is_locked_out-Entered :
    (now : ℕ) (ip : Option Bytes) (hs : List Host) (r : Option ℕ × List Host)
    → HostsInv hs
    → Entered ip false hs r
    → HostsInv (locked_entry now r).1
is_locked_out-Entered now ip hs r v (at m h a) = locked_entry-HostsInv now hs (some m) v
is_locked_out-Entered now ip hs r v (fresh j c b e) = cc
is_locked_out-Entered now ip hs r v (nowhere c e) = locked_entry-HostsInv now hs none v

pub is_locked_out-HostsInv :
    (now : ℕ) (ip : Option Bytes) (hs : List Host)
    → HostsInv hs
    → HostsInv (is_locked_out now ip hs).1
unfolding is_locked_out
is_locked_out-HostsInv now ip hs v =
    is_locked_out-Entered now ip hs _ v (host_entry-Entered ip false hs (omega (arith, v.slots)))

clear_entry-HostsInv :
    (ip : Option Bytes) (hs : List Host) (r : Option ℕ × List Host)
    → HostsInv hs
    → Entered ip false hs r
    → HostsInv (clear_entry r)
unfolding clear_entry
clear_entry-HostsInv ip hs r v (at m h a) =
    modify-HostsInv clear_counter hs m clear_counter_keeps (λ k _. clear_counter-IsSound k) v
clear_entry-HostsInv ip hs r v (fresh j c b e) = cc
clear_entry-HostsInv ip hs r v (nowhere c e) = v

pub trust_host-HostsInv :
    (ip : Option Bytes) (hs : List Host) → HostsInv hs → HostsInv (trust_host ip hs)
unfolding trust_host
trust_host-HostsInv ip hs v =
    clear_entry-HostsInv ip hs _ v (host_entry-Entered ip false hs (omega (arith, v.slots)))

blank_host-IsSound : IsSound blank_host
blank_host-IsSound = ground arith

pub init_hosts-HostsInv : HostsInv init_hosts
unfolding find_host
init_hosts-HostsInv = record {
  slots = refl;
  sound = All-replicate IsSound 8 blank_host blank_host-IsSound;
  distinct = ground arith;
}

fail_entry_other :
    (now : ℕ) (ip : Option Bytes) (other : Bytes) (hs : List Host) (r : Option ℕ × List Host)
    → Fits ip
    → other ≢ host_key ip
    → HostsInv hs
    → Entered ip true hs r
    → (find_host other (fail_entry now r) ≡ find_host other hs)
      ⊎ (find_host other (fail_entry now r) ≡ none)
unfolding fail_entry
fail_entry_other now ip other hs r fits ne v (at m h a) = inl (
    find_host-modify_ne (count_failure now) (count_failure_keeps now) (host_key ip) other hs m h ne
      a)
fail_entry_other now ip other hs r fits ne v (fresh j c b e) =
    rw (modify-set hs j (claimed_host (host_key ip)) (count_failure now)) (
      find_host-set_ne other hs j _ v.distinct (
        ground
          (arith, ne, claimed_host-ip ip fits, eq_of_str_eq (claimed_host (host_key ip)).ip other)))
fail_entry_other now ip other hs r fits ne v (nowhere c e) = cc

-- A failed login leaves the entry of every other address as it was, or drops it.
pub record_failure_other :
    (now : ℕ) (ip : Option Bytes) (other : Bytes) (hs : List Host)
    → Fits ip
    → other ≢ host_key ip
    → HostsInv hs
    → (find_host other (record_failure now ip hs) ≡ find_host other hs)
      ⊎ (find_host other (record_failure now ip hs) ≡ none)
unfolding record_failure
record_failure_other now ip other hs fits ne v =
    fail_entry_other now ip other hs _ fits ne v
      (host_entry-Entered ip true hs (omega (arith, v.slots)))
