-- ===== src/Settings/Relays.antt =====
-- The relays of haven/config.py.
use haven_e2e_messenger.Prelude.{
  ◌≡◌, refl, sym, ◌∙◌, ℕ, Str, false, Option, none, some, List, [], ◌∷◌, bytes_eq,
}
use haven_e2e_messenger.Prelude.Dict.{Dict, has_key, insert, erase}
use haven_e2e_messenger.Settings.{
  Relay, ConfigFile, load, save, relays_setting, relay_key, relays_of, legacy_address, migrate,
  list_relays, name_or, add_relay, remove_relay,
}

abbrev pub address_of : ConfigFile → Option (Str × ℕ)
address_of file = legacy_address (load file).relay_host (load file).relay_port

-- An address of the old kind, if there is one, is not among the relays.
abbrev pub IsNew : Option (Str × ℕ) → Dict Str Relay → Type 0
IsNew none relays = Unit
IsNew (some (host, port)) relays = has_key (relay_key host port) relays ≡ false

abbrev pub IsMigratable : ConfigFile → Type 0
IsMigratable file = IsNew (address_of file) (relays_of (load file).relays)

-- The outcome of a listing holds what was listed, and no old address.
abbrev IsListed : Dict Str Relay × ConfigFile → Dict Str Str → Type 0
IsListed (relays, file) others = (address_of file ≡ none) × ((load file).others ≡ others)

migrate-IsListed :
    (old : Option (Str × ℕ)) (relays : Dict Str Relay) (file : ConfigFile)
    → address_of file ≡ old
    → IsNew old relays
    → IsListed (migrate old relays file) (load file).others
migrate-IsListed none relays file same fresh = (same, refl)
migrate-IsListed (some (host, port)) relays file same fresh = rw fresh (refl, refl)

list_relays-IsListed :
    (file : ConfigFile) → IsMigratable file → IsListed (list_relays file) (load file).others
unfolding list_relays
list_relays-IsListed file fresh =
    migrate-IsListed (address_of file) (relays_of (load file).relays) file refl fresh

-- What a user does to the list of relays.
pub data Change : Type 0 where
  adds : Str → Str → ℕ → Change
  removes : Str → Change
  lists : Change

abbrev pub change : Change → ConfigFile → ConfigFile
change (adds name host port) file = (add_relay name host port file).1
change (removes key) file = remove_relay key file
change lists file = (list_relays file).1

abbrev pub changes : List Change → ConfigFile → ConfigFile
changes [] file = file
changes (c ∷ cs) file = changes cs (change c file)

-- The same on a plain dict of relays.
abbrev pub dict_change : Change → Dict Str Relay → Dict Str Relay
dict_change (adds name host port) relays =
    insert (relay_key host port)
      (record { name = name_or name (relay_key host port); host = host; port = port }) relays
dict_change (removes key) relays = erase key relays
dict_change lists relays = relays

abbrev pub dict_changes : List Change → Dict Str Relay → Dict Str Relay
dict_changes [] relays = relays
dict_changes (c ∷ cs) relays = dict_changes cs (dict_change c relays)

-- The file lists those relays, has those other settings, and a change to it may begin.
abbrev Shows : Dict Str Relay → Dict Str Str → ConfigFile → Type 0
Shows relays others file =
    IsMigratable file × ((list_relays file).0 ≡ relays) × ((load file).others ≡ others)

saved-Shows :
    (relays : Dict Str Relay) (others : Dict Str Str) (file : ConfigFile)
    → (address_of file ≡ none)
    → (load file).others ≡ others
    → Shows relays others (save (relays_setting relays ∷ []) file)
unfolding list_relays
saved-Shows relays others file clean same = rw clean (tt, refl, same)

migrate-Shows :
    (old : Option (Str × ℕ)) (relays : Dict Str Relay) (file : ConfigFile)
    → address_of file ≡ old
    → relays_of (load file).relays ≡ relays
    → IsNew old relays
    → let out = migrate old relays file in Shows out.0 (load file).others out.1
unfolding list_relays
migrate-Shows none relays file clean same fresh = rw clean (tt, same, refl)
migrate-Shows (some (host, port)) relays file old same fresh = rw fresh (tt, refl, refl)

change-Shows :
    (c : Change) (relays : Dict Str Relay) (others : Dict Str Str) (file : ConfigFile)
    → Shows relays others file
    → Shows (dict_change c relays) others (change c file)
unfolding list_relays add_relay remove_relay
change-Shows (adds name host port) relays others file (fresh, shown, same) =
    let (clean, kept) = list_relays-IsListed file fresh in
    rw (sym shown) (saved-Shows _ others (list_relays file).1 clean (kept ∙ same))
change-Shows (removes key) relays others file (fresh, shown, same) =
    let (clean, kept) = list_relays-IsListed file fresh in
    rw (sym shown) (saved-Shows _ others (list_relays file).1 clean (kept ∙ same))
change-Shows lists relays others file (fresh, shown, same) = rw (sym shown) (
    rw (sym same)
      (migrate-Shows (address_of file) (relays_of (load file).relays) file refl refl fresh))

changes-Shows :
    (cs : List Change) (relays : Dict Str Relay) (others : Dict Str Str) (file : ConfigFile)
    → Shows relays others file
    → Shows (dict_changes cs relays) others (changes cs file)
changes-Shows [] relays others file v = v
changes-Shows (c ∷ cs) relays others file v =
    changes-Shows cs (dict_change c relays) others (change c file)
      (change-Shows c relays others file v)

-- After any additions, removals and listings of relays, the relays that are listed are those that the
-- same changes make of a plain dict, begun with the relays listed at first, and all other settings are
-- as they were. Condition: if the file holds an address of the old kind, it is not yet among its relays.
pub relays_are_a_dict :
    (cs : List Change) (file : ConfigFile)
    → IsMigratable file
    → ((list_relays (changes cs file)).0 ≡ dict_changes cs (list_relays file).0)
      × ((load (changes cs file)).others ≡ (load file).others)
relays_are_a_dict cs file fresh =
    let (_, shown, same) =
      changes-Shows cs (list_relays file).0 (load file).others file (fresh, refl, refl) in
    (shown, same)
