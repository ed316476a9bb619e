-- ===== src/Setup/Services/Lost.antt =====
-- custom_components/fritzbox_vpn/__init__.py: the services over set-ups and unloads.
use fritzbox_vpn.Base.{
  Bool, true, false, ◌&&◌, List, [], ◌∷◌, String, ◌≡◌, refl, ◌⊎◌, elem, add, discard, is_empty,
  elem-discard, if◌then◌else◌, inl, inr, arith,
}
use fritzbox_vpn.Setup.Services.{
  Services, service_remove, service_repair, async_setup, unload_services,
}

-- The entries that are loaded, and the services.
pub record Domain : Type 0 where
  pub loaded : List String
  pub services : Services

-- What Home Assistant does with an entry: a set-up or an unloading that succeeds. A reload is one
-- after the other. One that fails changes neither.
pub data EntryEvent : Type 0 where
  setup : String → EntryEvent
  unload : String → EntryEvent

unfoldable pub after_event : EntryEvent → Domain → Domain
unfolding unload_services
after_event (setup entry_id) d = record d { loaded = add entry_id d.loaded }
after_event (unload entry_id) d = record {
  loaded = discard entry_id d.loaded;
  services = unload_services entry_id d.loaded d.services;
}

unfoldable pub run : List EntryEvent → Domain → Domain
unfolding after_event
run [] d = d
run (e ∷ es) d = run es (after_event e d)

-- No flag and no service.
pub record IsOff (s : Services) : Type 0 where
  pub no_flag : s.flag ≡ false
  pub no_remove : elem service_remove s.registered ≡ false
  pub no_repair : elem service_repair s.registered ≡ false

conj_zero : (b : Bool) → (b && false) ≡ false
conj_zero b = ground arith

conj_falsity : (b : Bool) → ((b && false) && true) ≡ false
conj_falsity b = ground arith

discard_both :
    (rs : List String)
    → (elem service_remove (discard service_repair (discard service_remove rs)) ≡ false)
      × (elem service_repair (discard service_repair (discard service_remove rs)) ≡ false)
discard_both rs = (
  rw
      (
        elem-discard service_remove service_repair (discard service_remove rs),
        elem-discard service_remove service_remove rs,
      )
      (conj_falsity (elem service_remove rs)),
  rw (elem-discard service_repair service_repair (discard service_remove rs))
      (conj_zero (elem service_repair (discard service_remove rs))),
)

cleared : List String → Services
cleared rs = record {
  flag = false;
  registered = discard service_repair (discard service_remove rs);
}

cleared-IsOff : (rs : List String) → IsOff (cleared rs)
unfolding cleared
cleared-IsOff rs =
    let (a, b) = discard_both rs in record { no_flag = refl; no_remove = a; no_repair = b }

-- Once the services are gone, an unloading leaves them so.
kept-IsOff :
    (b flag : Bool) (s : Services)
    → flag ≡ false
    → IsOff s
    → IsOff (if b && flag then cleared s.registered else s)
kept-IsOff true true s e h = cc
kept-IsOff true false s e h = h
kept-IsOff false flag s e h = h

event-IsOff : (e : EntryEvent) (d : Domain) → IsOff d.services → IsOff (after_event e d).services
unfolding after_event unload_services cleared
event-IsOff (setup entry_id) d h = h
event-IsOff (unload entry_id) d h =
    kept-IsOff (is_empty (discard entry_id d.loaded)) d.services.flag d.services h.no_flag h

run-IsOff : (es : List EntryEvent) (d : Domain) → IsOff d.services → IsOff (run es d).services
unfolding run
run-IsOff [] d h = h
run-IsOff (e ∷ es) d h = run-IsOff es (after_event e d) (event-IsOff e d h)

-- The flag says whether the services are there.
abbrev IsFlagged : Services → Type 0
IsFlagged s =
    ((s.flag ≡ true)
      × (elem service_remove s.registered ≡ true)
      × (elem service_repair s.registered ≡ true))
    ⊎ IsOff s

unload-IsFlagged :
    (b flag : Bool) (s : Services)
    → s.flag ≡ flag
    → IsFlagged s
    → IsFlagged (if b && flag then cleared s.registered else s)
unload-IsFlagged true true s e h = inr (cleared-IsOff s.registered)
unload-IsFlagged true false s e h = h
unload-IsFlagged false flag s e h = h

event-IsFlagged :
    (e : EntryEvent) (d : Domain) → IsFlagged d.services → IsFlagged (after_event e d).services
unfolding after_event unload_services cleared
event-IsFlagged (setup entry_id) d h = h
event-IsFlagged (unload entry_id) d h =
    unload-IsFlagged (is_empty (discard entry_id d.loaded)) d.services.flag d.services refl h

run-IsFlagged :
    (es : List EntryEvent) (d : Domain) → IsFlagged d.services → IsFlagged (run es d).services
unfolding run
run-IsFlagged [] d h = h
run-IsFlagged (e ∷ es) d h = run-IsFlagged es (after_event e d) (event-IsFlagged e d h)

-- The integration, after `async_setup`.
unfoldable pub started : Domain
unfolding async_setup
started = record { loaded = []; services = async_setup (record { flag = false; registered = [] }) }

started-IsFlagged : IsFlagged started.services
unfolding started add elem
started-IsFlagged = inl (refl, refl, refl)

last-IsOff :
    (b flag : Bool) (s : Services)
    → b ≡ true
    → s.flag ≡ flag
    → IsFlagged s
    → IsOff (if b && flag then cleared s.registered else s)
last-IsOff true true s l e h = cleared-IsOff s.registered
last-IsOff true false s l e (inl (f, _, _)) = cc
last-IsOff true false s l e (inr off) = off
last-IsOff false flag s l e h = cc

-- In every run of set-ups and unloads that starts with `async_setup`: when the last loaded entry is
-- unloaded, the flag and both services are gone, and no later event brings them back. So after a
-- reload of the only entry, the entry is loaded and the services are missing.
pub services_lost :
    (before later : List EntryEvent) (entry_id : String)
    → is_empty (discard entry_id (run before started).loaded) ≡ true
    → IsOff (run (unload entry_id ∷ later) (run before started)).services
unfolding run after_event unload_services cleared
services_lost before later entry_id h =
    let d = run before started in
    run-IsOff later (after_event (unload entry_id) d) (
      last-IsOff (is_empty (discard entry_id d.loaded)) d.services.flag d.services h refl
        (run-IsFlagged before started started-IsFlagged))
